-- ===== src/Registry/Calls/Success.antt =====
-- What a call that did not abort has passed, and the writes that it made.
use community_storage.Base.{
  ℕ, ◌≤◌, ◌<◌, ◌≡◌, String, true, false, Option, none, some, List, ok, arith, mul64, length, ltb,
  refl, inl, inr, ◌≢◌, ◌||◌, Option-cases,
}
use community_storage.Structs.{StorageNode, Challenge}
use community_storage.State.{State, Context, provider_metadata_updated}
use community_storage.Registry.{
  generate_event, get_config, get_node, get_challenge, get_period_stats, is_paused, is_challenger,
  is_admin, is_storage_admin, assert_not_paused, assert_challenger, get_uploader_price_per_gb,
  get_total_allocated_gb_across_providers, get_booked_uploader_gb,
}
use community_storage.Registry.Nodes.{
  registered, register_storage_node, reallocated, update_storage_allocation, unregistered,
  unregister_storage_node, update_provider_metadata, set_provider_metadata,
}
use community_storage.Registry.Challenges.{
  issued, issue_challenge, proved, submit_proof, expire_all, resolve_expired_challenges,
}
use community_storage.Registry.Rewards.{
  all_challenged, distributed, distribute_rewards, claimed, claim_rewards,
}
use community_storage.Registry.Uploaders.{
  new_total_booked, booked, register_as_uploader, recorded, record_file_upload, removed,
  remove_file_upload,
}

module _ (ctx : Context) (s : State) {u : State} where
  pub register_storage_node-ok :
      (gb? : Option ℕ) (endpoint? : Option String) (p2p_addrs? : Option (List String))
      → register_storage_node ctx gb? endpoint? p2p_addrs? s ≡ ok u
      → (gb : ℕ) × (endpoint : String) × (p2p_addrs : List String) × (gb? ≡ some gb)
        × ((is_paused s ≡ false)
            × (get_node s ctx.caller ≡ none)
            × ((get_config s).min_allocated_gb ≤ gb)
            × (gb ≤ (get_config s).max_allocated_gb)
            × (u ≡ registered ctx gb endpoint p2p_addrs s))
  unfolding register_storage_node assert_not_paused
  register_storage_node-ok (some gb) (some endpoint) (some p2p_addrs) h =
      (gb, endpoint, p2p_addrs, refl, ground arith)
  register_storage_node-ok _ _ _ h = ground arith

  pub update_storage_allocation-ok :
      (gb? : Option ℕ)
      → update_storage_allocation ctx gb? s ≡ ok u
      → (gb : ℕ) × (n : StorageNode) × (gb? ≡ some gb)
        × ((is_paused s ≡ false)
            × (get_node s ctx.caller ≡ some n)
            × ((get_config s).min_allocated_gb ≤ gb)
            × (gb ≤ (get_config s).max_allocated_gb)
            × (u ≡ reallocated ctx gb n s))
  unfolding update_storage_allocation assert_not_paused
  update_storage_allocation-ok (some gb) h = elim (Option-cases (get_node s ctx.caller)) [
    | inl missing ↦ ground arith
    | inr (n, found) ↦ (gb, n, refl, ground arith)
  ]
  update_storage_allocation-ok none h = ground arith

  pub unregister_storage_node-ok :
      unregister_storage_node ctx s ≡ ok u
      → (n : StorageNode) × (get_node s ctx.caller ≡ some n)
        × (n.active ≡ true)
        × (u ≡ unregistered ctx n s)
  unfolding unregister_storage_node
  unregister_storage_node-ok h = ground arith

  pub update_provider_metadata-ok :
      (endpoint? : Option String) (p2p_addrs? : Option (List String))
      → update_provider_metadata ctx endpoint? p2p_addrs? s ≡ ok u
      → (endpoint : String) × (p2p_addrs : List String) × ((is_paused s ≡ false)
          × (get_node s ctx.caller ≢ none)
          × (u
              ≡ generate_event
                  (provider_metadata_updated ctx.caller endpoint)
                  (set_provider_metadata ctx.caller endpoint p2p_addrs s)))
  unfolding update_provider_metadata assert_not_paused
  update_provider_metadata-ok (some endpoint) (some p2p_addrs) h =
      (endpoint, p2p_addrs, ground arith)
  update_provider_metadata-ok _ _ h = ground arith

  pub issue_challenge-ok :
      (id? node_address? chunk_id? : Option String) (nonce? : Option ℕ)
      → issue_challenge ctx id? node_address? chunk_id? nonce? s ≡ ok u
      → (id node_address chunk_id : String) × (nonce : ℕ) × (n : StorageNode) × ((is_paused s
            ≡ false)
          × ((is_challenger s ctx.caller || is_admin s ctx.caller) ≡ true)
          × (get_challenge s id ≡ none)
          × (get_node s node_address ≡ some n)
          × (n.active ≡ true)
          × (u ≡ issued ctx id node_address chunk_id nonce n s))
  unfolding issue_challenge assert_not_paused assert_challenger
  issue_challenge-ok (some id) (some node_address) (some chunk_id) (some nonce) h =
      elim (Option-cases (get_node s node_address)) [
        | inl missing ↦ ground arith
        | inr (n, found) ↦ (id, node_address, chunk_id, nonce, n, ground arith)
      ]
  issue_challenge-ok _ _ _ _ h = ground arith

  pub submit_proof-ok :
      (id? : Option String) (proof? : Option (List ℕ))
      → submit_proof ctx id? proof? s ≡ ok u
      → (id : String) × (proof : List ℕ) × (c : Challenge) × (proof? ≡ some proof)
        × ((is_paused s ≡ false)
            × (get_challenge s id ≡ some c)
            × (c.resolved ≡ false)
            × (ctx.caller ≡ c.node_address)
            × (ctx.timestamp ≤ c.deadline)
            × (u ≡ proved ctx id (ltb 0 (length proof)) c s))
  unfolding submit_proof assert_not_paused
  submit_proof-ok (some id) (some proof) h = elim (Option-cases (get_challenge s id)) [
    | inl missing ↦ ground arith
    | inr (c, found) ↦ (id, proof, c, refl, ground arith)
  ]
  submit_proof-ok _ _ h = ground arith

  pub resolve_expired_challenges-ok :
      (ids? : Option (List String))
      → resolve_expired_challenges ctx ids? s ≡ ok u
      → (ids : List String) × (u ≡ expire_all ctx.timestamp ids s)
  unfolding resolve_expired_challenges
  resolve_expired_challenges-ok (some ids) h = (ids, ground arith)
  resolve_expired_challenges-ok none h = ground arith

  pub distribute_rewards-ok :
      (period? : Option ℕ) (addresses? : Option (List String))
      → distribute_rewards ctx period? addresses? s ≡ ok u
      → (period : ℕ) × (addresses : List String) × (period? ≡ some period)
        × (addresses? ≡ some addresses)
        × ((is_paused s ≡ false)
            × ((is_challenger s ctx.caller || is_admin s ctx.caller) ≡ true)
            × ((get_period_stats s period).rewards_distributed ≡ false)
            × (all_challenged s period addresses ≡ true)
            × (u ≡ distributed period addresses (get_period_stats s period) s))
  unfolding distribute_rewards assert_not_paused assert_challenger
  distribute_rewards-ok (some period) (some addresses) h =
      (period, addresses, refl, refl, ground arith)
  distribute_rewards-ok _ _ h = ground arith

  pub claim_rewards-ok :
      claim_rewards ctx s ≡ ok u
      → (n : StorageNode) × ((is_paused s ≡ false)
          × (get_node s ctx.caller ≡ some n)
          × (0 < n.pending_rewards)
          × (n.pending_rewards ≤ ctx.balance)
          × (u ≡ claimed ctx n s))
  unfolding claim_rewards assert_not_paused
  claim_rewards-ok h = elim (Option-cases (get_node s ctx.caller)) [
    | inl missing ↦ ground arith
    | inr (n, found) ↦ (n, ground arith)
  ]

  pub register_as_uploader-ok :
      (gb? : Option ℕ)
      → register_as_uploader ctx gb? s ≡ ok u
      → (gb : ℕ) × (gb? ≡ some gb)
        × ((is_paused s ≡ false)
            × (0 < gb)
            × (mul64 gb (get_uploader_price_per_gb s) ≤ ctx.transferred_coins)
            × (new_total_booked s ctx.caller gb ≤ get_total_allocated_gb_across_providers s)
            × (u ≡ booked ctx gb s))
  unfolding register_as_uploader assert_not_paused
  register_as_uploader-ok (some gb) h = (gb, refl, ground arith)
  register_as_uploader-ok none h = ground arith

  pub record_file_upload-ok :
      (uploader? : Option String) (size? : Option ℕ)
      → record_file_upload ctx uploader? size? s ≡ ok u
      → (uploader : String) × (size : ℕ) × (uploader? ≡ some uploader)
        × (size? ≡ some size)
        × ((is_paused s ≡ false)
            × (is_storage_admin s ctx.caller ≡ true)
            × (0 < size)
            × ((is_storage_admin s uploader || ltb 0 (get_booked_uploader_gb s uploader)) ≡ true)
            × (u ≡ recorded uploader size s))
  unfolding record_file_upload assert_not_paused
  record_file_upload-ok (some uploader) (some size) h = (uploader, size, refl, refl, ground arith)
  record_file_upload-ok _ _ h = ground arith

  pub remove_file_upload-ok :
      (uploader? : Option String) (size? : Option ℕ)
      → remove_file_upload ctx uploader? size? s ≡ ok u
      → (uploader : String) × (size : ℕ) × (uploader? ≡ some uploader)
        × (size? ≡ some size)
        × ((is_paused s ≡ false)
            × (is_storage_admin s ctx.caller ≡ true)
            × (0 < size)
            × (u ≡ removed uploader size s))
  unfolding remove_file_upload assert_not_paused
  remove_file_upload-ok (some uploader) (some size) h = (uploader, size, refl, refl, ground arith)
  remove_file_upload-ok _ _ h = ground arith
