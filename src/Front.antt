-- ===== src/Front.antt =====
-- The front end's modules under front/src/lib.
pub mod Client
pub mod MyFiles
pub mod Upload
pub mod Download
pub mod Store
pub mod Wallet
pub mod Provide
pub mod FilesPage
pub mod Blocklist
