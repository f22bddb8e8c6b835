-- ===== src/Registry/Calls/Slots.antt =====
-- The slots of the registry through any sequence of calls.
use community_storage.Base.{
  ℕ, ◌+◌, ◌<◌, ◌≤◌, ◌≡◌, ◌↔◌, false, Option, none, some, String, true, ok, arith, ap, subst,
  u64_mod, get_or,
}
use community_storage.Structs.{StorageConfig}
use community_storage.State.{State, Context, blank}
use community_storage.Registry.{
  generate_event, set_config, set_total_nodes, set_uploader_price_per_gb, get_total_nodes,
}
use community_storage.Registry.Admin.{deploy}
use community_storage.Registry.Nodes.Slots.{is_active}
use community_storage.Registry.Views.{get_node_address_at, get_total_nodes_count}
use community_storage.Registry.Nodes.Slots.Table.{empty-Lists}
use community_storage.Registry.Nodes.Slots.Swap.{get_node_address_at_internal-eq}
use community_storage.Registry.Nodes.Slots.Writes.{
  IsIndexed, SameSlots, SameSlots-IsIndexed, SameSlots-reallocated, SameSlots-set_provider_metadata,
  SameSlots-issued, SameSlots-proved, SameSlots-claimed, SameSlots-booked, SameSlots-recorded,
  SameSlots-removed, SameSlots-expire_all, SameSlots-distributed,
}
use community_storage.Registry.Nodes.Slots.Providers.{
  registered-IsIndexed, registered_total, unregistered-IsIndexed,
}
use community_storage.Registry.Calls.{
  Request, register_request, allocation_request, unregister_request, metadata_request,
  issue_request, proof_request, expire_request, distribute_request, claim_request, booking_request,
  upload_request, removal_request, call, Reach, start, next, steps,
}
use community_storage.Registry.Calls.Success.{
  register_storage_node-ok, update_storage_allocation-ok, unregister_storage_node-ok,
  update_provider_metadata-ok, issue_challenge-ok, submit_proof-ok, resolve_expired_challenges-ok,
  distribute_rewards-ok, claim_rewards-ok, register_as_uploader-ok, record_file_upload-ok,
  remove_file_upload-ok,
}
use community_storage.Registry.Calls.Keys.{IsKeyed}
use community_storage.Registry.Calls.Keys.Preserved.{admin_calls, Reach-IsKeyed}

-- The slots are in order, and the count has grown by one at most.
abbrev Steps : State → State → Type 0
Steps s u = IsIndexed u × (get_total_nodes u ≤ get_total_nodes s + 1)

same-Steps : {s u : State} → IsIndexed s → SameSlots s u → Steps s u
unfolding get_total_nodes
same-Steps t k = let e = ap (get_or 0) k.total in (SameSlots-IsIndexed k t, omega arith)

call-Steps :
    (ctx : Context) (r : Request) (s : State) {u : State}
    → IsKeyed s
    → IsIndexed s
    → get_total_nodes s + 1 < u64_mod
    → ctx.is_deploying_contract ≡ false
    → call ctx r s ≡ ok u
    → Steps s u
unfolding call admin_calls
call-Steps ctx (register_request a b c) s k t room idle h =
    let (gb, e, ps, _, p) = register_storage_node-ok ctx s a b c h in
    let size = registered_total ctx gb e ps s room in
    rw p.4 (registered-IsIndexed ctx gb e ps s p.1 room t, omega arith)
call-Steps ctx (allocation_request a) s k t room idle h =
    let (gb, n, _, p) = update_storage_allocation-ok ctx s a h in
    rw p.4 (same-Steps t (SameSlots-reallocated ctx gb n k p.1))
call-Steps ctx unregister_request s k t room idle h =
    let (n, at_n, act, p) = unregister_storage_node-ok ctx s h in
    let left = unregistered-IsIndexed ctx n s k at_n act t in rw p (left.0, omega arith)
call-Steps ctx (metadata_request a b) s k t room idle h =
    let (e, ps, p) = update_provider_metadata-ok ctx s a b h in
    rw p.2 (same-Steps t (SameSlots-set_provider_metadata ctx.caller e ps _))
call-Steps ctx (issue_request a b c d) s k t room idle h =
    let (i, a', c', x, n, p) = issue_challenge-ok ctx s a b c d h in
    rw p.5 (same-Steps t (SameSlots-issued ctx i a' c' x n k p.3))
call-Steps ctx (proof_request a b) s k t room idle h =
    let (i, _, c, _, p) = submit_proof-ok ctx s a b h in
    rw p.5 (same-Steps t (SameSlots-proved ctx i _ c k))
call-Steps ctx (expire_request a) s k t room idle h =
    let (ids, p) = resolve_expired_challenges-ok ctx s a h in
    rw p (same-Steps t (SameSlots-expire_all ctx.timestamp ids s))
call-Steps ctx (distribute_request a b) s k t room idle h =
    let (p, as_, _, _, q) = distribute_rewards-ok ctx s a b h in
    rw q.4 (same-Steps t (SameSlots-distributed p as_ _ s k))
call-Steps ctx claim_request s k t room idle h =
    let (n, p) = claim_rewards-ok ctx s h in rw p.4 (same-Steps t (SameSlots-claimed ctx n k p.1))
call-Steps ctx (booking_request a) s k t room idle h =
    let (gb, _, p) = register_as_uploader-ok ctx s a h in
    rw p.4 (same-Steps t (SameSlots-booked ctx gb))
call-Steps ctx (upload_request a b) s k t room idle h =
    let (x, n, _, _, p) = record_file_upload-ok ctx s a b h in
    rw p.4 (same-Steps t (SameSlots-recorded x n))
call-Steps ctx (removal_request a b) s k t room idle h =
    let (x, n, _, _, p) = remove_file_upload-ok ctx s a b h in
    rw p.3 (same-Steps t (SameSlots-removed x n))
call-Steps ctx r s k t room idle h =
    same-Steps t (record { slots = ground arith; total = ground arith; active = λ a. ground arith })

deploy-IsIndexed :
    (ctx : Context) (a : Option String) (c : Option StorageConfig) {u : State}
    → deploy ctx a c blank ≡ ok u
    → IsIndexed u × (get_total_nodes u ≡ 0)
unfolding deploy set_config set_total_nodes set_uploader_price_per_gb generate_event get_total_nodes
deploy-IsIndexed ctx (some a) c h = (empty-Lists (ground arith) (λ b. ground arith), ground arith)
deploy-IsIndexed ctx none c h = ground arith

-- The slots stay in order while fewer than 2^64 calls have been made.
pub Reach-IsIndexed :
    {s : State} (r : Reach s) → steps r < u64_mod → IsIndexed s × (get_total_nodes s ≤ steps r)
unfolding steps
Reach-IsIndexed (start ctx a c h) few =
    let (t, size) = deploy-IsIndexed ctx a c h in (t, omega arith)
Reach-IsIndexed (next {s} ctx r before idle h) few =
    let (t, size) = Reach-IsIndexed before (omega arith) in
    let (t', grown) = call-Steps ctx r s (Reach-IsKeyed before) t (omega arith) idle h in
    (t', omega arith)

module _ (s : State) (t : IsIndexed s) where
  get_node_address_at-eq :
      (i : ℕ) (a : String)
      → i < get_total_nodes s
      → s.node_slots i ≡ some a
      → get_node_address_at (some i) s ≡ ok a
  unfolding get_node_address_at
  get_node_address_at-eq i a h e = ap ok (get_node_address_at_internal-eq s i a h e)

  enumerated :
      (a : String)
      → is_active s a ≡ true
      → (i : ℕ) × (i < get_total_nodes s) × (get_node_address_at (some i) s ≡ ok a)
  enumerated a h = let (i, lt, e) = t.listed a h in (i, lt, get_node_address_at-eq i a lt e)

  enumerated_active :
      (a : String)
      → (i : ℕ) × (i < get_total_nodes s) × (get_node_address_at (some i) s ≡ ok a)
      → is_active s a ≡ true
  enumerated_active a (i, lt, e) =
      let (b, at_i, act) = t.filled i lt in
      let reads = get_node_address_at-eq i b lt at_i in
      let same : b ≡ a = cc in subst (λ c. is_active s c ≡ true) same act

  enumerated_once :
      (i j : ℕ)
      → i < get_total_nodes s
      → j < get_total_nodes s
      → get_node_address_at (some i) s ≡ get_node_address_at (some j) s
      → i ≡ j
  enumerated_once i j hi hj e =
      let (a, at_i, _) = t.filled i hi in
      let (b, at_j, _) = t.filled j hj in
      let reads_i = get_node_address_at-eq i a hi at_i in
      let reads_j = get_node_address_at-eq j b hj at_j in
      let same : b ≡ a = cc in
      t.distinct i j a hi hj at_i (subst (λ c. s.node_slots j ≡ some c) same at_j)

-- After any fewer than 2^64 calls, reading `getNodeAddressAt` at the indices below
-- `getTotalNodesCount` gives exactly the addresses of the active nodes, each at one index.
pub Reach-enumerates :
    {s : State} (r : Reach s)
    → steps r < u64_mod
    → ((a : String)
        → (is_active s a ≡ true)
          ↔ ((i : ℕ) × (i < get_total_nodes_count s) × (get_node_address_at (some i) s ≡ ok a)))
      × ((i j : ℕ)
          → i < get_total_nodes_count s
          → j < get_total_nodes_count s
          → get_node_address_at (some i) s ≡ get_node_address_at (some j) s
          → i ≡ j)
unfolding get_total_nodes_count
Reach-enumerates {s} r few =
    let t = (Reach-IsIndexed r few).0 in
    ((λ a. (enumerated s t a, enumerated_active s t a)), enumerated_once s t)
