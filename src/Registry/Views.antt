-- ===== src/Registry/Views.antt =====
-- The views of smartContract/assembly/contracts/storage-registry.ts, before their answers are
-- serialised.
pub mod Answers
pub mod Bytes
use community_storage.Base.{
  ℕ, String, Bool, ◌||◌, Option, none, some, List, [], ltb, if◌then◌else◌, get_or, Result, ok,
  expect, ◌>>=◌,
}
use community_storage.Structs.{StorageNode, Challenge, PeriodStats, StorageConfig}
use community_storage.State.{
  State, ProviderMetadata, Error, argument_missing, node_not_found, challenge_not_found,
}
use community_storage.Registry.{
  get_node, get_node_index, get_challenge, get_period_stats, get_config, get_total_nodes,
  get_node_address_at_internal, get_total_allocated_gb_across_providers,
  get_total_booked_gb_across_uploaders, is_storage_admin, get_booked_uploader_gb,
  get_uploader_price_per_gb, get_uploader_usage,
}
use community_storage.Registry.Uploaders.{available_gb}

unfoldable pub get_node_info : Option String → State → Result Error StorageNode
unfolding get_node
get_node_info address? s = do
  address ← expect address? (argument_missing "address")
  expect (get_node s address) node_not_found

unfoldable pub get_provider_metadata_view : Option String → State → Result Error ProviderMetadata
get_provider_metadata_view address? s = do
  address ← expect address? (argument_missing "address")
  ok (get_or (record { endpoint = ""; p2p_addrs = [] }) (s.provider_meta address))

unfoldable pub get_registered_addresses_view : State → List String
unfolding get_node_index
get_registered_addresses_view s = get_node_index s

unfoldable pub get_challenge_info : Option String → State → Result Error Challenge
unfolding get_challenge
get_challenge_info challenge_id? s = do
  challenge_id ← expect challenge_id? (argument_missing "challengeId")
  expect (get_challenge s challenge_id) challenge_not_found

unfoldable pub get_period_stats_view : Option ℕ → State → Result Error PeriodStats
unfolding get_period_stats
get_period_stats_view period? s = do
  period ← expect period? (argument_missing "period")
  ok (get_period_stats s period)

unfoldable pub get_config_view : State → StorageConfig
unfolding get_config
get_config_view s = get_config s

unfoldable pub get_total_nodes_count : State → ℕ
unfolding get_total_nodes
get_total_nodes_count s = get_total_nodes s

unfoldable pub get_node_address_at : Option ℕ → State → Result Error String
unfolding get_node_address_at_internal
get_node_address_at index? s = do
  index ← expect index? (argument_missing "index")
  ok (get_node_address_at_internal s index)

pub record StorageUsage : Type 0 where
  pub total_allocated_gb : ℕ
  pub total_booked_gb : ℕ
  pub available_gb : ℕ

unfoldable pub get_global_storage_usage_view : State → StorageUsage
unfolding get_total_allocated_gb_across_providers get_total_booked_gb_across_uploaders available_gb
get_global_storage_usage_view s =
    let total_allocated_gb = get_total_allocated_gb_across_providers s in
    let total_booked_gb = get_total_booked_gb_across_uploaders s in
    record {
      total_allocated_gb = total_allocated_gb;
      total_booked_gb = total_booked_gb;
      available_gb = available_gb total_allocated_gb total_booked_gb;
    }

unfoldable pub calculate_pending_rewards : Option String → State → Result Error ℕ
unfolding get_node
calculate_pending_rewards address? s = do
  address ← expect address? (argument_missing "address")
  ok (elim (get_node s address) [ none ↦ 0 | some node ↦ node.pending_rewards ])

abbrev pub flag : Bool → ℕ
flag b = if b then 1 else 0

unfoldable pub get_is_storage_admin : Option String → State → Result Error ℕ
unfolding is_storage_admin
get_is_storage_admin address? s = do
  address ← expect address? (argument_missing "address")
  ok (flag (is_storage_admin s address))

unfoldable pub get_is_allowed_uploader : Option String → State → Result Error ℕ
unfolding is_storage_admin get_booked_uploader_gb
get_is_allowed_uploader address? s = do
  address ← expect address? (argument_missing "address")
  ok (flag (is_storage_admin s address || ltb 0 (get_booked_uploader_gb s address)))

unfoldable pub get_booked_uploader_gb_view : Option String → State → Result Error ℕ
unfolding get_booked_uploader_gb
get_booked_uploader_gb_view address? s = do
  address ← expect address? (argument_missing "address")
  ok (get_booked_uploader_gb s address)

unfoldable pub get_uploader_price_per_gb_view : State → ℕ
unfolding get_uploader_price_per_gb
get_uploader_price_per_gb_view s = get_uploader_price_per_gb s

unfoldable pub get_uploader_usage_view : Option String → State → Result Error ℕ
unfolding get_uploader_usage
get_uploader_usage_view address? s = do
  address ← expect address? (argument_missing "address")
  ok (get_uploader_usage s address)
