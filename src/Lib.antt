-- ===== src/Lib.antt =====
-- The storage registry of community-storage: the contract in which providers register the disk
-- space that they offer, challengers test whether they hold the data, a distributor credits them
-- with rewards period by period, and uploaders book space; and the code that uses it, the front end
-- that stores files with the providers and the scripts that set providers up.
--
-- The program's parts
--
-- `smartContract/assembly/contracts/storage-registry.ts` holds every entry point of the contract.
-- Its entry points share the contract's storage and nothing else: registration and departure keep
-- the nodes, two ways to enumerate them, and the statistics of the current period; challenges
-- update the counters of a node; a distribution of rewards reads these counters and adds to what a
-- node may claim; a booking is tested against the capacity that the active nodes offer. The classes
-- that are stored stand in `smartContract/assembly/structs`.
--
--   Base                   names of the libraries passed on, Boolean tests, lists, maps, 64-bit
--                          arithmetic, calls that abort
--   Structs                the classes StorageNode, Challenge, PeriodStats, StorageConfig
--   Structs.Args           the argument codec as an interface, and the steps of a `deserialize`
--   Structs.Serialize      `serialize` and `deserialize` of the four classes
--   Structs.RoundTrip      one module for each class
--   State                  the storage, the environment of a call, messages and events
--   Registry               the helper functions of the contract
--   Registry.Nodes         registerStorageNode, updateStorageAllocation, unregisterStorageNode,
--                          updateProviderMetadata; below it the numbered slots, and the statistics
--   Registry.Challenges    issueChallenge, submitProof, resolveExpiredChallenges; below it the
--                          counters of a node against the challenges
--   Registry.Rewards       distributeRewards, claimRewards; below it payments and claims
--   Registry.Uploaders     registerAsUploader, recordFileUpload, removeFileUpload; below it totals,
--                          bookings and usage
--   Registry.Admin         constructor (`deploy`), updateConfig, addChallenger, removeChallenger,
--                          addStorageAdmin, removeStorageAdmin, setUploaderPricePerGbAdmin,
--                          setPaused, transferAdmin, fundContract
--   Registry.Views         the entry points that only read; below it their answers after a write
--   Registry.Calls         all entry points that write as one type of requests, the states that
--                          sequences of calls reach; below it what holds in all of them: the keys,
--                          the slots, the history of challenges and periods, the counters of the
--                          nodes, the lists of providers and uploaders with their totals, access
--   Registry.Views.Bytes   the arguments and answers of the views as bytes
--   Front.MyFiles          front/src/lib/myFilesStorage.js, the files that a browser remembers for a
--                          wallet
--   Front.Client           front/src/contract/storageRegistry.js, the client that reads the views;
--                          below it a chain that runs the contract (Rpc), reading answers (Decode),
--                          what each view comes to (Served), the list of providers (Providers,
--                          Fallback) and the paid call of storageRegistryApi.js (Booking)
--   Front.Upload           front/src/lib/uploadToProvider.js
--   Front.Download         front/src/lib/downloadFromProvider.js and the button of MyFiles.jsx; below it
--                          what comes back of a file that the page for storing has sent (Stored)
--   Front.Provide          front/src/pages/ProvideStorage.jsx: the metadata of a provider's server, the
--                          registration and the claim; below it the calls as the contract takes them
--                          (Calls), what a registration comes to (Registered) and a claim (Claimed)
--   Front.Blocklist        front/src/lib/blocklistStorage.js
--   Front.Store            front/src/pages/StoreFiles.jsx: the choice of providers, the cost of a
--                          booking, and what confirming does; below it the choice (Selected), the
--                          booking against the contract (Capacity), and the outcomes (Confirmed)
--   Front.FilesPage        front/src/pages/MyFiles.jsx: selection, extension with its payment, and
--                          removal
--   Front.Wallet           front/src/context/WalletContext.jsx, the connection to a wallet
--   Scripts.Setup          smartContract/src/full-setup.ts, run against the contract
--   Scripts.Provider       smartContract/src/register-provider.ts; below it what its call does to the
--                          contract (Settled)
--   Tests                  a contract at work, runs of it, and the theorems at concrete inputs
--
-- Correspondence
--
-- A function of the source keeps its name, in snake case. An entry point takes the environment of
-- the call (`Context`: caller, period, time, coins sent along, balance), the results of its argument
-- reader in the order in which it asks for them (`none` is an `Err`), and the state; it returns the
-- new state, or the message of the assertion that failed. An entry point stands as its assertions in
-- the order of the source, followed by one function for its writes (`registered` for
-- registerStorageNode, `issued` for issueChallenge, and so on), and each loop of the source is a
-- recursion on the list that it runs over, with a function for one round. The loop over slots in
-- unregisterStorageNode (`swap_out`) runs on the number of rounds left, which starts at the
-- number of slots, as in the source. A call that aborts leaves the state, since the chain reverts it.
--
-- The storage is one field for each family of keys, with the decoded value in it: a missing key is
-- `none`, and what the source does then is written out. u64 arithmetic wraps at 2^64 as it does in
-- AssemblyScript (`add64`, `sub64`, `mul64`). Events and coins paid out are logs at the end of the
-- state. `Reach` holds the states after the constructor and any calls by any callers at any times,
-- `Later` the states after any further calls; the constructor runs at deployment only, which the
-- source asserts through `Context.isDeployingContract`.
--
-- The browser's local storage is a map from keys to cells, and a function of Front returns its result
-- together with the storage after it. `trim().toLowerCase()` and the arithmetic of `Date` on an expiry
-- are arguments, about which nothing is assumed.
--
-- The client reads a chain (`Chain`): a view's name and the bytes of its arguments give an answer, or
-- the promise is rejected. `served` is the chain that stands at one state of the contract: it runs the
-- view on the bytes and serialises the answer. So the theorems on the client speak of the contract and
-- of the client together, through the bytes between them.
--
-- A function of a page takes the state of the page and returns what it does to it, with the calls that
-- it sends; what the wallet, the servers, the clock and the browser answer are arguments (`World`,
-- `Surroundings`, `Wallets`, `Network`). The wallet's context is cut where it waits: an event is what
-- happens between two such places, and a `Run` is any sequence of events, so that answers may come in
-- any order. In the setup, a call that the contract aborts is an exception of `contract.call`.
--
-- Where a theorem on all reachable states needs that a counter has not wrapped, it asks for fewer
-- than 2^64 calls.
--
-- Not modelled
--
-- The strings of the keys, and with them a clash of key families (an address may not be `index` or
-- begin with `idx_`); reading stored bytes back at each access, since the storage
-- holds decoded values; the balance of the contract, which is an input of each call; gas and the
-- size limits of the chain. The argument codec of @massalabs/as-types is a parameter of Structs, with
-- its documented behaviour as laws. Of `smartContract/src` the other
-- scripts, and of full-setup.ts the funding of the accounts and the command `status`; of `front`
-- what the pages draw, the texts of sizes and dates, Deposit.jsx, Settings.jsx and the
-- health check of a provider; an endpoint that is no URL, where a file is sent to it; an unmounted page, which drops late answers; the price of an
-- extension, which is computed with floating point numbers and is an argument; the build files, and
-- `server`, which is a separate program in Rust.
pub mod Base
pub mod Structs
pub mod State
pub mod Registry
pub mod Scripts
pub mod Front
pub mod Tests
