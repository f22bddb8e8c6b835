-- ===== src/State.antt =====
-- What smartContract/assembly/contracts/storage-registry.ts keeps and reads: the storage, one map
-- or cell for each family of keys, the environment of a call, its messages and its events.
use community_storage.Base.{ℕ, String, Bool, List, [], Option, none, Map, empty, Result}
use community_storage.Structs.{StorageNode, Challenge, PeriodStats, StorageConfig}

-- What `Context`, `balance` and the block give to one call.
pub record Context : Type 0 where
  pub caller : String
  pub current_period : ℕ
  pub timestamp : ℕ
  pub transferred_coins : ℕ
  pub balance : ℕ
  pub is_deploying_contract : Bool

-- The metadata that a provider stores: `new Args().add(endpoint).add(p2pAddrs)`.
pub record ProviderMetadata : Type 0 where
  pub endpoint : String
  pub p2p_addrs : List String

-- The texts that `generateEvent` is given, by their parts.
pub data Event : Type 0 where
  storage_registry_deployed : String → Event
  storage_node_registered : String → ℕ → Event
  storage_node_registered_metadata : String → ℕ → String → Event
  storage_node_updated : String → ℕ → ℕ → Event
  storage_node_unregistered : String → Event
  challenge_issued : String → String → String → Event
  challenge_passed challenge_failed challenge_expired : String → String → Event
  reward_skipped : String → Event
  rewards_distributed : ℕ → ℕ → ℕ → Event
  rewards_claimed : String → ℕ → Event
  provider_metadata_updated : String → String → Event
  uploader_booked : String → ℕ → (updated : Bool) → Event
  file_upload_recorded file_upload_removed : String → ℕ → ℕ → Event
  config_updated : Event
  challenger_added challenger_removed storage_admin_added storage_admin_removed : String → Event
  uploader_price_per_gb_set : ℕ → Event
  contract_paused : Bool → Event
  admin_transferred : String → Event
  contract_funded : String → ℕ → Event

-- The messages of `assert` and `expect`, with the numbers that they print.
pub data Error : Type 0 where
  contract_is_paused caller_is_not_admin caller_is_not_challenger : Error
  caller_is_not_storage_admin already_deployed : Error
  argument_missing : String → Error
  allocation_below_minimum allocation_above_maximum : ℕ → Error
  node_already_registered node_not_registered node_already_inactive : Error
  challenge_already_exists node_not_found node_is_not_active : Error
  challenge_not_found challenge_already_resolved caller_is_not_challenged_node : Error
  challenge_deadline_passed rewards_already_distributed providers_not_challenged : Error
  no_rewards_to_claim insufficient_contract_balance : Error
  amount_gb_is_zero file_size_is_zero price_is_zero no_coins_transferred : Error
  insufficient_payment : ℕ → ℕ → ℕ → Error
  insufficient_capacity : ℕ → ℕ → ℕ → ℕ → Error
  uploader_not_allowed : Error

pub record State : Type 0 where
  -- node_<address>
  pub nodes : Map String StorageNode
  -- node_index
  pub node_index : Option (List String)
  -- node_idx_<index>
  pub node_slots : Map ℕ String
  -- total_nodes
  pub total_nodes : Option ℕ
  -- provider_meta_<address>
  pub provider_meta : Map String ProviderMetadata
  -- chal_<id>
  pub challenges : Map String Challenge
  -- period_<period>
  pub periods : Map ℕ PeriodStats
  -- challenger_<address>
  pub challengers : Map String String
  -- storage_admin_<address>
  pub storage_admins : Map String String
  -- uploader_booking_<address>
  pub uploader_bookings : Map String ℕ
  -- uploader_index
  pub uploader_index : Option (List String)
  -- uploader_price_per_gb
  pub uploader_price_per_gb : Option ℕ
  -- uploader_usage_<address>
  pub uploader_usage : Map String ℕ
  -- admin
  pub admin : Option String
  -- config
  pub config : Option StorageConfig
  -- paused
  pub paused : Option String
  -- The events of all calls, oldest first, and the coins sent by `transferCoins`.
  pub events : List Event
  pub transfers : List (String × ℕ)

abbrev pub blank : State
blank = record {
  nodes = empty;
  node_index = none;
  node_slots = empty;
  total_nodes = none;
  provider_meta = empty;
  challenges = empty;
  periods = empty;
  challengers = empty;
  storage_admins = empty;
  uploader_bookings = empty;
  uploader_index = none;
  uploader_price_per_gb = none;
  uploader_usage = empty;
  admin = none;
  config = none;
  paused = none;
  events = [];
  transfers = [];
}

-- A call of an entry point: the state that it leaves, or the message with which it aborts. The
-- caller of a call that aborts keeps the state from before.
abbrev pub Outcome : Type 0
Outcome = Result Error State
