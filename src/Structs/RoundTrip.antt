-- ===== src/Structs/RoundTrip.antt =====
-- Writing and reading the classes of smartContract/assembly/structs.
pub mod Config
pub mod Stats
pub mod Challenge
pub mod Node
