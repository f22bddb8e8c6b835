-- ===== src/Registry/Views/Bytes.antt =====
-- The arguments and answers of the views of smartContract/assembly/contracts/storage-registry.ts, as
-- the bytes that a caller sends and gets.
use community_storage.Base.{ℕ, String, Option, none, some, List, [], Result, ok, ◌>>=◌}
use community_storage.Structs.Args.{ArgsCodec, ◌▷◌}
use community_storage.Structs.Serialize.{serialize_node, serialize_stats, serialize_config}
use community_storage.State.{State, Error}
use community_storage.Registry.Views.{
  get_node_info, get_provider_metadata_view, get_registered_addresses_view, get_period_stats_view,
  get_config_view, get_total_nodes_count, get_node_address_at, get_global_storage_usage_view,
  calculate_pending_rewards, get_is_allowed_uploader, get_booked_uploader_gb_view,
  get_uploader_price_per_gb_view,
}

-- The result of `args.next…()`, without the place behind it.
abbrev pub argument : {V : Type 0} → Option (V × ℕ) → Option V
argument none = none
argument (some (v, _)) = some v

module _ (C : ArgsCodec) where
  unfoldable pub node_info_bytes : List ℕ → State → Result Error (List ℕ)
  node_info_bytes binary_args s = do
    node ← get_node_info (argument (C.next_string binary_args 0)) s
    ok (serialize_node C node)

  unfoldable pub provider_metadata_bytes : List ℕ → State → Result Error (List ℕ)
  provider_metadata_bytes binary_args s = do
    metadata ← get_provider_metadata_view (argument (C.next_string binary_args 0)) s
    ok ([] ▷ (λ a. C.add_string a metadata.endpoint) ▷ (λ a. C.add_strings a metadata.p2p_addrs))

  unfoldable pub registered_addresses_bytes : State → List ℕ
  registered_addresses_bytes s = C.add_strings [] (get_registered_addresses_view s)

  unfoldable pub period_stats_bytes : List ℕ → State → Result Error (List ℕ)
  period_stats_bytes binary_args s = do
    stats ← get_period_stats_view (argument (C.next_u64 binary_args 0)) s
    ok (serialize_stats C stats)

  unfoldable pub config_bytes : State → List ℕ
  config_bytes s = serialize_config C (get_config_view s)

  unfoldable pub total_nodes_bytes : State → List ℕ
  total_nodes_bytes s = C.u64_to_bytes (get_total_nodes_count s)

  unfoldable pub node_address_at_bytes : List ℕ → State → Result Error (List ℕ)
  node_address_at_bytes binary_args s = do
    address ← get_node_address_at (argument (C.next_u64 binary_args 0)) s
    ok (C.add_string [] address)

  unfoldable pub global_storage_usage_bytes : State → List ℕ
  global_storage_usage_bytes s =
      let usage = get_global_storage_usage_view s in
      []
      ▷ (λ a. C.add_u64 a usage.total_allocated_gb)
      ▷ (λ a. C.add_u64 a usage.total_booked_gb)
      ▷ (λ a. C.add_u64 a usage.available_gb)

  -- A view that answers with one number about an address.
  abbrev number_bytes :
      (Option String → State → Result Error ℕ) → List ℕ → State → Result Error (List ℕ)
  number_bytes view binary_args s = do
    n ← view (argument (C.next_string binary_args 0)) s
    ok (C.u64_to_bytes n)

  unfoldable pub pending_rewards_bytes : List ℕ → State → Result Error (List ℕ)
  pending_rewards_bytes = number_bytes calculate_pending_rewards

  unfoldable pub is_allowed_uploader_bytes : List ℕ → State → Result Error (List ℕ)
  is_allowed_uploader_bytes = number_bytes get_is_allowed_uploader

  unfoldable pub booked_uploader_gb_bytes : List ℕ → State → Result Error (List ℕ)
  booked_uploader_gb_bytes = number_bytes get_booked_uploader_gb_view

  unfoldable pub uploader_price_per_gb_bytes : State → List ℕ
  uploader_price_per_gb_bytes s = C.u64_to_bytes (get_uploader_price_per_gb_view s)
