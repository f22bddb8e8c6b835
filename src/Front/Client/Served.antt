-- ===== src/Front/Client/Served.antt =====
-- The contract client on a chain that runs the contract: what the views answer, as it reads it.
use mathlib.Core.Option
use community_storage.Base.{
  arith, ltb, IsU64, ℕ, ◌||◌, ◌≡◌, refl, String, some, [], get_or, ok, Option-cases, inl, inr,
}
use community_storage.Structs.{StorageNode}
use community_storage.Structs.Args.{ArgsCodec, read}
use community_storage.Structs.Serialize.{deserialize_config, deserialize_stats}
use community_storage.Structs.RoundTrip.Node.{IsStorageNodeU64}
use community_storage.State.{State, Error}
use community_storage.Registry.{
  get_node_index, get_total_nodes, get_node_address_at_internal, is_storage_admin,
  get_booked_uploader_gb, get_uploader_price_per_gb, get_total_allocated_gb_across_providers,
  get_total_booked_gb_across_uploaders, get_config, get_period_stats,
}
use community_storage.Registry.Uploaders.{available_gb}
use community_storage.Structs.RoundTrip.Config.{IsStorageConfigU64}
use community_storage.Structs.RoundTrip.Stats.{IsPeriodStatsU64}
use community_storage.Registry.Views
use community_storage.Registry.Views.Bytes.{
  node_info_bytes, provider_metadata_bytes, registered_addresses_bytes, total_nodes_bytes,
  node_address_at_bytes, pending_rewards_bytes, is_allowed_uploader_bytes, booked_uploader_gb_bytes,
  uploader_price_per_gb_bytes, global_storage_usage_bytes, config_bytes, period_stats_bytes,
}
use community_storage.Front.Client
use community_storage.Front.Client.Rpc.{served}
use community_storage.Front.Client.Decode.{
  shown, shown-Reads, complete-Reads, argument-string, argument-strings, argument-u64,
  argument-bytes, number_read, flag_read, usage_read, config_read, stats_read, metadata_read,
  nonempty_answer,
}

module _ (C : ArgsCodec) (text : Error → String) (s : State) where
  -- On a chain at a state `s` the client gets, for an address, what is stored
  -- of its node, with the last rewarded period under the name `stakedAmount`,
  -- and nothing where no node is stored. The numbers of the stored node, where
  -- there is one, fit 64 bits.
  pub node_info-served :
      (a : String)
      → ((n : StorageNode) → s.nodes a ≡ some n → IsStorageNodeU64 n)
      → Client.get_node_info C (served C text s) a ≡ ok (Option.map shown (s.nodes a))
  unfolding Client.get_node_info served node_info_bytes Views.get_node_info
  node_info-served a fits = elim (Option-cases (s.nodes a)) [
    | inl e ↦ rw (argument-string C a, e) refl
    | inr (n, e) ↦ rw (argument-string C a, e, complete-Reads (shown-Reads C n (fits n e))) refl
  ]

  pub provider_metadata-served :
      (a : String)
      → Client.get_provider_metadata C (served C text s) a
        ≡ get_or Client.no_metadata (s.provider_meta a)
  unfolding Client.get_provider_metadata served provider_metadata_bytes
      Views.get_provider_metadata_view
  provider_metadata-served a = rw (argument-string C a) (metadata_read C _)

  pub registered_addresses-served :
      Client.get_registered_addresses C (served C text s) ≡ get_node_index s
  unfolding Client.get_registered_addresses served registered_addresses_bytes
      Views.get_registered_addresses_view
  registered_addresses-served =
      nonempty_answer [] (get_node_index s) (registered_addresses_bytes C s) _
        (rw (C.add_strings_lem) (C.length-enc_strings (get_node_index s)))
        (rw (argument-strings C (get_node_index s)) refl)

  pub total_nodes-served :
      IsU64 (get_total_nodes s)
      → Client.get_total_nodes C (served C text s) ≡ ok (get_total_nodes s)
  unfolding Client.get_total_nodes served total_nodes_bytes Views.get_total_nodes_count
  total_nodes-served h = rw (argument-bytes C (get_total_nodes s) h) refl

  pub node_address_at-served :
      (i : ℕ)
      → IsU64 i
      → Client.get_node_address_at C (served C text s) i ≡ ok (get_node_address_at_internal s i)
  unfolding Client.get_node_address_at served node_address_at_bytes Views.get_node_address_at
  node_address_at-served i h =
      rw (argument-u64 C i h, argument-string C (get_node_address_at_internal s i)) refl

  pub pending_rewards-served :
      (a : String)
      → ((n : StorageNode) → s.nodes a ≡ some n → IsU64 n.pending_rewards)
      → Client.calculate_pending_rewards C (served C text s) a
        ≡ ok (get_or 0 (Option.map (λ n. n.pending_rewards) (s.nodes a)))
  unfolding Client.calculate_pending_rewards served pending_rewards_bytes
      Views.calculate_pending_rewards
  pending_rewards-served a fits = elim (Option-cases (s.nodes a)) [
    | inl e ↦ rw (argument-string C a, e, argument-bytes C 0 (omega arith)) refl
    | inr (n, e) ↦ rw (argument-string C a, e, argument-bytes C n.pending_rewards (fits n e)) refl
  ]

  pub is_allowed_uploader-served :
      (a : String)
      → Client.get_is_allowed_uploader C (served C text s) a
        ≡ (is_storage_admin s a || ltb 0 (get_booked_uploader_gb s a))
  unfolding Client.get_is_allowed_uploader served is_allowed_uploader_bytes
      Views.get_is_allowed_uploader
  is_allowed_uploader-served a =
      rw (argument-string C a)
        (flag_read C (is_storage_admin s a || ltb 0 (get_booked_uploader_gb s a)))

  pub booked_uploader_gb-served :
      (a : String)
      → IsU64 (get_booked_uploader_gb s a)
      → Client.get_booked_uploader_gb C (served C text s) a ≡ get_booked_uploader_gb s a
  unfolding Client.get_booked_uploader_gb served booked_uploader_gb_bytes
      Views.get_booked_uploader_gb_view
  booked_uploader_gb-served a h =
      rw (argument-string C a) (number_read C (get_booked_uploader_gb s a) h)

  pub uploader_price-served :
      IsU64 (get_uploader_price_per_gb s)
      → Client.get_uploader_price_per_gb C (served C text s) ≡ get_uploader_price_per_gb s
  unfolding Client.get_uploader_price_per_gb served uploader_price_per_gb_bytes
      Views.get_uploader_price_per_gb_view
  uploader_price-served h = number_read C (get_uploader_price_per_gb s) h

  pub global_storage_usage-served :
      IsU64 (get_total_allocated_gb_across_providers s)
      → IsU64 (get_total_booked_gb_across_uploaders s)
      → Client.get_global_storage_usage C (served C text s) ≡ Views.get_global_storage_usage_view s
  unfolding Client.get_global_storage_usage served global_storage_usage_bytes
  global_storage_usage-served h k =
      usage_read C (Views.get_global_storage_usage_view s) (usage_fits h) (booked_fits k)
        (rest_fits h)
    where
      usage_fits :
          IsU64 (get_total_allocated_gb_across_providers s)
          → IsU64 ((Views.get_global_storage_usage_view s).total_allocated_gb)
      usage_fits x = unfold Views.get_global_storage_usage_view in x

      booked_fits :
          IsU64 (get_total_booked_gb_across_uploaders s)
          → IsU64 ((Views.get_global_storage_usage_view s).total_booked_gb)
      booked_fits x = unfold Views.get_global_storage_usage_view in x

      rest_fits :
          IsU64 (get_total_allocated_gb_across_providers s)
          → IsU64 ((Views.get_global_storage_usage_view s).available_gb)
      rest_fits x = unfold Views.get_global_storage_usage_view available_gb in ground arith

  pub config-served :
      IsStorageConfigU64 (get_config s) → Client.get_config C (served C text s) ≡ ok (get_config s)
  unfolding Client.get_config served config_bytes Views.get_config_view read deserialize_config
  config-served fits = config_read C (get_config s) fits

  pub period_stats-served :
      (p : ℕ)
      → IsU64 p
      → IsPeriodStatsU64 (get_period_stats s p)
      → Client.get_period_stats C (served C text s) p ≡ ok (get_period_stats s p)
  unfolding Client.get_period_stats served period_stats_bytes Views.get_period_stats_view read
      deserialize_stats
  period_stats-served p h fits = rw (argument-u64 C p h) (stats_read C (get_period_stats s p) fits)
