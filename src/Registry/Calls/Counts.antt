-- ===== src/Registry/Calls/Counts.antt =====
-- The counters of the nodes and the stored challenges through any sequence of calls.
pub mod Writes
pub mod Outcomes
use community_storage.Base.{
  ℕ, ◌+◌, ◌%◌, ◌<◌, ◌≤◌, ◌≡◌, ◌↔◌, refl, ◌∙◌, sym, String, Bool, true, false, Option, none, some,
  List, [], ◌∷◌, ok, arith, length, includes, is_some, is_same, u64_mod, if◌then◌else◌,
}
use community_storage.Structs.{StorageNode, StorageConfig, Challenge}
use community_storage.State.{State, Context, blank}
use community_storage.Registry.{
  generate_event, set_config, set_total_nodes, set_uploader_price_per_gb, set_booked_uploader_gb,
  set_uploader_usage, get_node, get_challenge,
}
use community_storage.Registry.Nodes.{set_provider_metadata}
use community_storage.Registry.Challenges.Counts.{
  IsCounted, SameCounts, SameCounts-IsCounted, issued-IsCounted, proved-IsCounted,
  expire_all-IsCounted, issued_to, passed_by, count_if,
}
use community_storage.Registry.Uploaders.{booked, push_uploader_index, recorded, removed}
use community_storage.Registry.Uploaders.Totals.{sum_of}
use community_storage.Registry.Admin.{deploy}
use community_storage.Registry.Calls.{
  Request, register_request, allocation_request, unregister_request, metadata_request,
  issue_request, proof_request, expire_request, distribute_request, claim_request, booking_request,
  upload_request, removal_request, call, Reach, start, next, steps,
}
use community_storage.Registry.Calls.Success.{
  register_storage_node-ok, update_storage_allocation-ok, unregister_storage_node-ok,
  update_provider_metadata-ok, issue_challenge-ok, submit_proof-ok, resolve_expired_challenges-ok,
  distribute_rewards-ok, claim_rewards-ok, register_as_uploader-ok, record_file_upload-ok,
  remove_file_upload-ok,
}
use community_storage.Registry.Calls.Keys.{IsKeyed}
use community_storage.Registry.Calls.Keys.Preserved.{admin_calls, Reach-IsKeyed}
use community_storage.Registry.Calls.Counts.Writes.{
  SameCounts-same, SameCounts-registered, SameCounts-reallocated, SameCounts-claimed,
  SameCounts-unregistered, SameCounts-distributed,
}

-- The counters are right for a list of challenges that is one longer at most.
abbrev Counted : State → List String → Type 0
Counted u ids = (ids' : List String) × (length ids' ≤ length ids + 1) × IsCounted u ids'

same-Counted : {s u : State} {ids : List String} → IsCounted s ids → SameCounts s u → Counted u ids
same-Counted {ids} t k = (ids, omega arith, SameCounts-IsCounted t k)

call-Counted :
    (ctx : Context) (r : Request) (s : State) {u : State} {ids : List String}
    → IsKeyed s
    → IsCounted s ids
    → ctx.is_deploying_contract ≡ false
    → call ctx r s ≡ ok u
    → Counted u ids
unfolding call admin_calls set_provider_metadata booked push_uploader_index recorded removed
    set_booked_uploader_gb set_uploader_usage
call-Counted ctx (register_request a b c) s k t idle h =
    let (gb, e, ps, _, p) = register_storage_node-ok ctx s a b c h in
    rw p.4 (same-Counted t (SameCounts-registered s k t ctx gb e ps p.1))
call-Counted ctx (allocation_request a) s k t idle h =
    let (gb, n, _, p) = update_storage_allocation-ok ctx s a h in
    rw p.4 (same-Counted t (SameCounts-reallocated s k t ctx gb n p.1))
call-Counted ctx unregister_request s k t idle h =
    let (n, at_n, act, p) = unregister_storage_node-ok ctx s h in
    rw p (same-Counted t (SameCounts-unregistered s k t ctx n at_n))
call-Counted ctx (metadata_request a b) s k t idle h =
    let (e, ps, p) = update_provider_metadata-ok ctx s a b h in
    rw p.2 (same-Counted t (SameCounts-same t refl refl))
call-Counted ctx (issue_request a b c d) s {ids} k t idle h =
    let (i, a', c', x, n, p) = issue_challenge-ok ctx s a b c d h in
    rw p.5 (i ∷ ids, omega arith, issued-IsCounted ctx i a' c' x n s k p.2 p.3 t)
call-Counted ctx (proof_request a b) s {ids} k t idle h =
    let (i, _, c, _, p) = submit_proof-ok ctx s a b h in
    rw p.5 (ids, omega arith, proved-IsCounted ctx i _ c s k p.1 p.2 t)
call-Counted ctx (expire_request a) s {ids} k t idle h =
    let (is, p) = resolve_expired_challenges-ok ctx s a h in
    rw p (ids, omega arith, expire_all-IsCounted ctx.timestamp is s k t)
call-Counted ctx (distribute_request a b) s k t idle h =
    let (p, as_, _, _, q) = distribute_rewards-ok ctx s a b h in
    rw q.4 (same-Counted t (SameCounts-distributed p as_ s k t))
call-Counted ctx claim_request s k t idle h =
    let (n, p) = claim_rewards-ok ctx s h in
    rw p.4 (same-Counted t (SameCounts-claimed s k t ctx n p.1))
call-Counted ctx (booking_request a) s k t idle h =
    let (gb, _, p) = register_as_uploader-ok ctx s a h in
    rw p.4 (same-Counted t (SameCounts-same t (ground arith) (ground arith)))
call-Counted ctx (upload_request a b) s k t idle h =
    let (x, n, _, _, p) = record_file_upload-ok ctx s a b h in
    rw p.4 (same-Counted t (SameCounts-same t (ground arith) (ground arith)))
call-Counted ctx (removal_request a b) s k t idle h =
    let (x, n, _, _, p) = remove_file_upload-ok ctx s a b h in
    rw p.3 (same-Counted t (SameCounts-same t (ground arith) (ground arith)))
call-Counted ctx r s k t idle h = same-Counted t (SameCounts-same t (ground arith) (ground arith))

deploy-IsCounted :
    (ctx : Context) (a : Option String) (c : Option StorageConfig) {u : State}
    → deploy ctx a c blank ≡ ok u
    → IsCounted u []
unfolding deploy set_config set_total_nodes set_uploader_price_per_gb generate_event
deploy-IsCounted ctx (some a) c h = record {
  distinct = tt;
  listed = λ i. ground arith;
  pending = λ i d e o. ground arith;
  known = λ i d e. ground arith;
  total = λ b. ground arith;
  passed = λ b. ground arith;
}
deploy-IsCounted ctx none c h = ground arith

pub Reach-IsCounted :
    {s : State} (r : Reach s) → (ids : List String) × (length ids ≤ steps r) × IsCounted s ids
unfolding steps
Reach-IsCounted (start ctx a c h) = ([], omega arith, deploy-IsCounted ctx a c h)
Reach-IsCounted (next {s} ctx r before idle h) =
    let (ids, small, t) = Reach-IsCounted before in
    let (ids', grown, t') = call-Counted ctx r s (Reach-IsKeyed before) t idle h in
    (ids', omega arith, t')
