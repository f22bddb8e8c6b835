-- ===== src/Registry/Calls/Keys/Preserved.antt =====
-- The keys through any sequence of calls.
use community_storage.Base.{◌≡◌, ok, arith}
use community_storage.State.{State, Context, blank}
use community_storage.Registry.{
  generate_event, set_config, set_total_nodes, set_uploader_price_per_gb,
}
use community_storage.Registry.Admin.{
  deploy, update_config, add_challenger, remove_challenger, add_storage_admin, remove_storage_admin,
  set_uploader_price_per_gb_admin, set_paused, transfer_admin, fund_contract,
}
use community_storage.Registry.Calls.{
  Request, deploy_request, register_request, allocation_request, unregister_request,
  metadata_request, issue_request, proof_request, expire_request, distribute_request, claim_request,
  booking_request, upload_request, removal_request, call, Reach, start, next,
}
use community_storage.Registry.Calls.Success.{
  register_storage_node-ok, update_storage_allocation-ok, unregister_storage_node-ok,
  update_provider_metadata-ok, issue_challenge-ok, submit_proof-ok, resolve_expired_challenges-ok,
  distribute_rewards-ok, claim_rewards-ok, register_as_uploader-ok, record_file_upload-ok,
  remove_file_upload-ok,
}
use community_storage.Registry.Calls.Keys.{
  IsKeyed, IsKeyed-same, blank-IsKeyed, generate_event-IsKeyed,
}
use community_storage.Registry.Calls.Keys.Writes.{
  set_provider_metadata-IsKeyed, expire_all-IsKeyed, booked-IsKeyed, recorded-IsKeyed,
  removed-IsKeyed, registered-IsKeyed, reallocated-IsKeyed, unregistered-IsKeyed, issued-IsKeyed,
  proved-IsKeyed, distributed-IsKeyed, claimed-IsKeyed,
}

unfoldable pub admin_calls : Unit {0}
unfolding deploy update_config add_challenger remove_challenger add_storage_admin
    remove_storage_admin set_uploader_price_per_gb_admin set_paused transfer_admin fund_contract
    generate_event set_config set_total_nodes set_uploader_price_per_gb
admin_calls = tt

-- A call that does not abort keeps every node, challenge and period under its own key.
pub call-IsKeyed :
    (ctx : Context) (r : Request) (s : State) {u : State}
    → IsKeyed s
    → call ctx r s ≡ ok u
    → IsKeyed u
unfolding call admin_calls
call-IsKeyed ctx (register_request a b c) s k h =
    let (gb, e, ps, _, p) = register_storage_node-ok ctx s a b c h in
    rw p.4 (registered-IsKeyed k ctx gb e ps)
call-IsKeyed ctx (allocation_request a) s k h =
    let (gb, n, _, p) = update_storage_allocation-ok ctx s a h in
    rw p.4 (reallocated-IsKeyed k ctx gb n)
call-IsKeyed ctx unregister_request s k h =
    let (n, _, _, p) = unregister_storage_node-ok ctx s h in rw p (unregistered-IsKeyed k ctx n)
call-IsKeyed ctx (metadata_request a b) s k h =
    let (e, ps, p) = update_provider_metadata-ok ctx s a b h in
    rw p.2 (generate_event-IsKeyed (set_provider_metadata-IsKeyed k ctx.caller e ps) _)
call-IsKeyed ctx (issue_request a b c d) s k h =
    let (i, a', c', x, n, p) = issue_challenge-ok ctx s a b c d h in
    rw p.5 (issued-IsKeyed k ctx i a' c' x n)
call-IsKeyed ctx (proof_request a b) s k h =
    let (i, _, c, _, p) = submit_proof-ok ctx s a b h in rw p.5 (proved-IsKeyed k ctx i _ c)
call-IsKeyed ctx (expire_request a) s k h =
    let (ids, p) = resolve_expired_challenges-ok ctx s a h in
    rw p (expire_all-IsKeyed ctx.timestamp ids s k)
call-IsKeyed ctx (distribute_request a b) s k h =
    let (p, as_, _, _, q) = distribute_rewards-ok ctx s a b h in
    rw q.4 (distributed-IsKeyed k p as_ _)
call-IsKeyed ctx claim_request s k h =
    let (n, p) = claim_rewards-ok ctx s h in rw p.4 (claimed-IsKeyed k ctx n)
call-IsKeyed ctx (booking_request a) s k h =
    let (gb, _, p) = register_as_uploader-ok ctx s a h in rw p.4 (booked-IsKeyed k ctx gb)
call-IsKeyed ctx (upload_request a b) s k h =
    let (x, n, _, _, p) = record_file_upload-ok ctx s a b h in rw p.4 (recorded-IsKeyed k x n)
call-IsKeyed ctx (removal_request a b) s k h =
    let (x, n, _, _, p) = remove_file_upload-ok ctx s a b h in rw p.3 (removed-IsKeyed k x n)
call-IsKeyed ctx r s k h = IsKeyed-same (ground arith) (ground arith) (ground arith) k

-- At every moment in the life of a contract each node, challenge and period stands under its own
-- key.
pub Reach-IsKeyed : {s : State} → Reach s → IsKeyed s
Reach-IsKeyed (start ctx a c h) =
    call-IsKeyed ctx (deploy_request a c) blank blank-IsKeyed (deployed h)
  where
    deployed :
        {u : State} → deploy ctx a c blank ≡ ok u → call ctx (deploy_request a c) blank ≡ ok u
    deployed h' = unfold call in h'
Reach-IsKeyed (next {s} ctx r before _ h) = call-IsKeyed ctx r s (Reach-IsKeyed before) h
