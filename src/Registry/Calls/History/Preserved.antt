-- ===== src/Registry/Calls/History/Preserved.antt =====
-- The history of the registry through any sequence of calls, and what follows from it.
use community_storage.Base.{◌≡◌, refl, ok, arith}
use community_storage.State.{State, Context}
use community_storage.Registry.{set_booked_uploader_gb, set_uploader_usage}
use community_storage.Registry.Nodes.{set_provider_metadata}
use community_storage.Registry.Uploaders.{booked, push_uploader_index, recorded, removed}
use community_storage.Registry.Calls.{
  Request, register_request, allocation_request, unregister_request, metadata_request,
  issue_request, proof_request, expire_request, distribute_request, claim_request, booking_request,
  upload_request, removal_request, call, Later, now, after,
}
use community_storage.Registry.Calls.Success.{
  register_storage_node-ok, update_storage_allocation-ok, unregister_storage_node-ok,
  update_provider_metadata-ok, issue_challenge-ok, submit_proof-ok, resolve_expired_challenges-ok,
  distribute_rewards-ok, claim_rewards-ok, register_as_uploader-ok, record_file_upload-ok,
  remove_file_upload-ok,
}
use community_storage.Registry.Calls.Keys.{IsKeyed}
use community_storage.Registry.Calls.Keys.Preserved.{admin_calls, call-IsKeyed}
use community_storage.Registry.Calls.History.{Extends, Extends-refl, Extends-trans}
use community_storage.Registry.Calls.History.Writes.{
  Extends-registered, Extends-reallocated, Extends-unregistered, Extends-issued, Extends-proved,
  Extends-claimed, Extends-same, Extends-expire_all, Extends-distributed,
}

-- A call that does not abort extends the history.
call-Extends :
    (ctx : Context) (r : Request) (s : State) {u : State}
    → IsKeyed s
    → call ctx r s ≡ ok u
    → Extends s u
unfolding call admin_calls set_provider_metadata booked push_uploader_index recorded removed
    set_booked_uploader_gb set_uploader_usage
call-Extends ctx (register_request a b c) s k h =
    let (gb, e, ps, _, p) = register_storage_node-ok ctx s a b c h in
    rw p.4 (Extends-registered s k ctx gb e ps p.1)
call-Extends ctx (allocation_request a) s k h =
    let (gb, n, _, p) = update_storage_allocation-ok ctx s a h in
    rw p.4 (Extends-reallocated s k ctx gb n p.1)
call-Extends ctx unregister_request s k h =
    let (n, at_n, act, p) = unregister_storage_node-ok ctx s h in
    rw p (Extends-unregistered s k ctx n at_n)
call-Extends ctx (metadata_request a b) s k h =
    let (e, ps, p) = update_provider_metadata-ok ctx s a b h in rw p.2 (Extends-same refl refl refl)
call-Extends ctx (issue_request a b c d) s k h =
    let (i, a', c', x, n, p) = issue_challenge-ok ctx s a b c d h in
    rw p.5 (Extends-issued s k ctx i a' c' x n p.3 p.2)
call-Extends ctx (proof_request a b) s k h =
    let (i, _, c, _, p) = submit_proof-ok ctx s a b h in
    rw p.5 (Extends-proved s k ctx i _ c p.1 p.2)
call-Extends ctx (expire_request a) s k h =
    let (ids, p) = resolve_expired_challenges-ok ctx s a h in
    rw p (Extends-expire_all ctx.timestamp ids s k)
call-Extends ctx (distribute_request a b) s k h =
    let (p, as_, _, _, q) = distribute_rewards-ok ctx s a b h in
    rw q.4 (Extends-distributed p as_ s k)
call-Extends ctx claim_request s k h =
    let (n, p) = claim_rewards-ok ctx s h in rw p.4 (Extends-claimed s k ctx n p.1)
call-Extends ctx (booking_request a) s k h =
    let (gb, _, p) = register_as_uploader-ok ctx s a h in
    rw p.4 (Extends-same (ground arith) (ground arith) (ground arith))
call-Extends ctx (upload_request a b) s k h =
    let (x, n, _, _, p) = record_file_upload-ok ctx s a b h in
    rw p.4 (Extends-same (ground arith) (ground arith) (ground arith))
call-Extends ctx (removal_request a b) s k h =
    let (x, n, _, _, p) = remove_file_upload-ok ctx s a b h in
    rw p.3 (Extends-same (ground arith) (ground arith) (ground arith))
call-Extends ctx r s k h = Extends-same (ground arith) (ground arith) (ground arith)

Later-IsKeyed : {s u : State} → IsKeyed s → Later s u → IsKeyed u
Later-IsKeyed k now = k
Later-IsKeyed k (after {t} ctx r before _ h) = call-IsKeyed ctx r t (Later-IsKeyed k before) h

-- The registry keeps its history through any further calls, its keys being right at the start: a
-- settled period stays settled, a resolved challenge stays as it is, a stored challenge keeps its
-- terms, and a provider that has left stays inactive.
pub Later-Extends : {s u : State} → IsKeyed s → Later s u → Extends s u
Later-Extends k now = Extends-refl
Later-Extends k (after {t} ctx r before _ h) =
    Extends-trans (Later-Extends k before) (call-Extends ctx r t (Later-IsKeyed k before) h)
