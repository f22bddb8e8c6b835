-- ===== src/Registry/Calls/Indexes.antt =====
-- The two lists of addresses that the registry keeps, of providers and of uploaders, through any
-- sequence of calls, and the totals over them.
pub mod Writes
pub mod Same
pub mod Sums
use community_storage.Base.{
  ℕ, ◌+◌, ◌%◌, ◌≡◌, ◌↔◌, refl, String, Bool, true, false, Option, none, some, List, [], ◌∷◌, ok,
  arith, includes, IsDistinct, is_some, u64_mod, add64,
}
use community_storage.Structs.{StorageNode, StorageConfig}
use community_storage.State.{State, Context, blank}
use community_storage.Registry.{
  generate_event, set_config, set_total_nodes, set_uploader_price_per_gb, set_uploader_usage,
  get_node, get_node_index, get_uploader_index, get_booked_uploader_gb, add_allocated,
  sum_allocated, get_total_allocated_gb_across_providers, get_total_booked_gb_across_uploaders,
}
use community_storage.Registry.Nodes.{set_provider_metadata}
use community_storage.Registry.Uploaders.{recorded, removed}
use community_storage.Registry.Uploaders.Totals.{sum_of, unique, total_booked-eq-sum}
use community_storage.Registry.Admin.{deploy}
use community_storage.Registry.Calls.{
  Request, register_request, allocation_request, unregister_request, metadata_request,
  issue_request, proof_request, expire_request, distribute_request, claim_request, booking_request,
  upload_request, removal_request, call, Reach, start, next,
}
use community_storage.Registry.Calls.Success.{
  register_storage_node-ok, update_storage_allocation-ok, unregister_storage_node-ok,
  update_provider_metadata-ok, issue_challenge-ok, submit_proof-ok, resolve_expired_challenges-ok,
  distribute_rewards-ok, claim_rewards-ok, register_as_uploader-ok, record_file_upload-ok,
  remove_file_upload-ok,
}
use community_storage.Registry.Calls.Keys.{IsKeyed}
use community_storage.Registry.Calls.Keys.Preserved.{admin_calls, Reach-IsKeyed}
use community_storage.Registry.Calls.Indexes.Writes.{
  IsListed, SameLists-IsListed, registered-IsListed, booked-IsListed,
}
use community_storage.Registry.Calls.Indexes.Same.{
  SameLists-reallocated, SameLists-issued, SameLists-claimed, SameLists-proved,
  SameLists-unregistered, SameLists-recorded, SameLists-removed, SameLists-expire_all,
  SameLists-distributed,
}

stored_there :
    (s : State) (a : String) (n : StorageNode)
    → IsKeyed s
    → get_node s a ≡ some n
    → is_some (get_node s n.address) ≡ true
unfolding get_node
stored_there s a n k e = ground (arith, k.node_key a n e)

call-IsListed :
    (ctx : Context) (r : Request) (s : State) {u : State}
    → IsKeyed s
    → IsListed s
    → ctx.is_deploying_contract ≡ false
    → call ctx r s ≡ ok u
    → IsListed u
unfolding call admin_calls set_provider_metadata
call-IsListed ctx (register_request a b c) s k t idle h =
    let (gb, e, ps, _, p) = register_storage_node-ok ctx s a b c h in
    rw p.4 (registered-IsListed ctx gb e ps s p.1 t)
call-IsListed ctx (allocation_request a) s k t idle h =
    let (gb, n, _, p) = update_storage_allocation-ok ctx s a h in
    let there = stored_there s ctx.caller n k p.1 in
    rw p.4 (SameLists-IsListed (SameLists-reallocated ctx gb n there) t)
call-IsListed ctx unregister_request s k t idle h =
    let (n, at_n, act, p) = unregister_storage_node-ok ctx s h in
    let there = stored_there s ctx.caller n k at_n in
    rw p (SameLists-IsListed (SameLists-unregistered ctx n s there) t)
call-IsListed ctx (metadata_request a b) s k t idle h =
    let (e, ps, p) = update_provider_metadata-ok ctx s a b h in
    rw p.2 (
      SameLists-IsListed
        (record { node_list = refl; uploader_list = refl; bookings = refl; stored = λ x. refl }) t)
call-IsListed ctx (issue_request a b c d) s k t idle h =
    let (i, a', c', x, n, p) = issue_challenge-ok ctx s a b c d h in
    let there = stored_there s a' n k p.3 in
    rw p.5 (SameLists-IsListed (SameLists-issued ctx i a' c' x n there) t)
call-IsListed ctx (proof_request a b) s k t idle h =
    let (i, _, c, _, p) = submit_proof-ok ctx s a b h in
    let own =
      λ (n : StorageNode) (e : get_node s c.node_address ≡ some n). keyed s c.node_address n k e in
    rw p.5 (SameLists-IsListed (SameLists-proved ctx i _ c own) t)
  where
    keyed :
        (s : State) (a : String) (n : StorageNode)
        → IsKeyed s
        → get_node s a ≡ some n
        → n.address ≡ a
    keyed s a n k e = unfold get_node in k.node_key a n e
call-IsListed ctx (expire_request a) s k t idle h =
    let (ids, p) = resolve_expired_challenges-ok ctx s a h in
    rw p (SameLists-IsListed (SameLists-expire_all ctx.timestamp ids s) t)
call-IsListed ctx (distribute_request a b) s k t idle h =
    let (p, as_, _, _, q) = distribute_rewards-ok ctx s a b h in
    rw q.4 (SameLists-IsListed (SameLists-distributed p as_ s k) t)
call-IsListed ctx claim_request s k t idle h =
    let (n, p) = claim_rewards-ok ctx s h in
    let there = stored_there s ctx.caller n k p.1 in
    rw p.4 (SameLists-IsListed (SameLists-claimed ctx n there) t)
call-IsListed ctx (booking_request a) s k t idle h =
    let (gb, _, p) = register_as_uploader-ok ctx s a h in rw p.4 (booked-IsListed ctx gb s p.1 t)
call-IsListed ctx (upload_request a b) s k t idle h =
    let (x, n, _, _, p) = record_file_upload-ok ctx s a b h in
    rw p.4 (SameLists-IsListed (SameLists-recorded x n s) t)
call-IsListed ctx (removal_request a b) s k t idle h =
    let (x, n, _, _, p) = remove_file_upload-ok ctx s a b h in
    rw p.3 (SameLists-IsListed (SameLists-removed x n s) t)
call-IsListed ctx r s k t idle h =
    SameLists-IsListed
      (record {
        node_list = ground arith;
        uploader_list = ground arith;
        bookings = ground arith;
        stored = λ a. ground arith;
      })
      t

deploy-IsListed :
    (ctx : Context) (a : Option String) (c : Option StorageConfig) {u : State}
    → deploy ctx a c blank ≡ ok u
    → IsListed u
unfolding deploy set_config set_total_nodes set_uploader_price_per_gb generate_event get_node_index
    get_uploader_index
deploy-IsListed ctx (some a) c h = record {
  nodes_distinct = ground arith;
  nodes_listed = λ b. ground arith;
  uploaders_distinct = ground arith;
  uploaders_listed = λ b. ground arith;
}
deploy-IsListed ctx none c h = ground arith

pub Reach-IsListed : {s : State} → Reach s → IsListed s
Reach-IsListed (start ctx a c h) = deploy-IsListed ctx a c h
Reach-IsListed (next {s} ctx r before idle h) =
    call-IsListed ctx r s (Reach-IsKeyed before) (Reach-IsListed before) idle h
