-- ===== src/Registry/Calls/Access/Settings.antt =====
-- The settings of the contract, over all entry points.
use community_storage.Base.{
  ℕ, zero, suc, ◌+◌, ◌≡◌, refl, ◌∙◌, String, Bool, false, Option, none, some, List, [], ◌∷◌, Map,
  arith, ok, ap,
}
use community_storage.Structs.{StorageNode, Challenge, PeriodStats, StorageConfig}
use community_storage.State.{State, Context}
use community_storage.Registry.{
  is_admin, generate_event, set_node, set_challenge, set_period_stats, get_node, get_challenge,
  get_total_nodes, set_total_nodes, set_node_slot, set_booked_uploader_gb, set_uploader_usage,
}
use community_storage.Registry.Nodes.{
  push_node_index, push_node_slot, count_registered, store_metadata, set_provider_metadata,
  registered, reallocated, recount_allocation, unregistered, count_unregistered, remove_node_slot,
  swap_out,
}
use community_storage.Registry.Challenges.{
  issued, count_issued, credit_node, count_passed, proved, expire, expire_all,
}
use community_storage.Registry.Rewards.{
  Payout, reward_node, reward_all, distributed, claimed, transfer_coins,
}
use community_storage.Registry.Uploaders.{booked, push_uploader_index, recorded, removed}
use community_storage.Registry.Admin.{deploy, fund_contract}
use community_storage.Registry.Calls.{
  Request, register_request, allocation_request, unregister_request, metadata_request,
  issue_request, proof_request, expire_request, distribute_request, claim_request, booking_request,
  upload_request, removal_request, call,
}
use community_storage.Registry.Calls.Success.{
  register_storage_node-ok, update_storage_allocation-ok, unregister_storage_node-ok,
  update_provider_metadata-ok, issue_challenge-ok, submit_proof-ok, resolve_expired_challenges-ok,
  distribute_rewards-ok, claim_rewards-ok, register_as_uploader-ok, record_file_upload-ok,
  remove_file_upload-ok,
}
use community_storage.Registry.Calls.Access.{admin_refuses}

-- The roles, the configuration, the price and the pause.
pub record Settings : Type 0 where
  pub admin : Option String
  pub config : Option StorageConfig
  pub challengers : Map String String
  pub storage_admins : Map String String
  pub uploader_price_per_gb : Option ℕ
  pub paused : Option String

abbrev pub settings : State → Settings
settings s = record {
  admin = s.admin;
  config = s.config;
  challengers = s.challengers;
  storage_admins = s.storage_admins;
  uploader_price_per_gb = s.uploader_price_per_gb;
  paused = s.paused;
}

swap_out-settings :
    (a : String) (total left i : ℕ) (s : State) → settings (swap_out a total left i s) ≡ settings s
unfolding swap_out set_node_slot
swap_out-settings a total zero i s = refl
swap_out-settings a total (suc left) i s = ground (arith, swap_out-settings a total left (i + 1) s)

expire-settings :
    (now : ℕ) (i : String) (o : Option Challenge) (s : State)
    → settings (expire now i o s) ≡ settings s
unfolding expire set_challenge generate_event
expire-settings now i none s = refl
expire-settings now i (some c) s = ground arith

expire_all-settings :
    (now : ℕ) (ids : List String) (s : State) → settings (expire_all now ids s) ≡ settings s
unfolding expire_all
expire_all-settings now [] s = refl
expire_all-settings now (i ∷ ids) s =
    expire_all-settings now ids _ ∙ expire-settings now i (get_challenge s i) s

reward_node-settings :
    (rate period : ℕ) (a : String) (o : Option StorageNode) (p : Payout)
    → settings (reward_node rate period a o p).state ≡ settings p.state
unfolding reward_node set_node
reward_node-settings rate period a none p = refl
reward_node-settings rate period a (some n) p = ground arith

reward_all-settings :
    (rate period : ℕ) (as_ : List String) (p : Payout)
    → settings (reward_all rate period as_ p).state ≡ settings p.state
unfolding reward_all
reward_all-settings rate period [] p = refl
reward_all-settings rate period (a ∷ as_) p =
    reward_all-settings rate period as_ _
    ∙ reward_node-settings rate period a (get_node p.state a) p

registered-settings :
    (ctx : Context) (gb : ℕ) (e : String) (ps : List String) (s : State)
    → settings (registered ctx gb e ps s) ≡ settings s
unfolding registered store_metadata count_registered push_node_index push_node_slot set_node
registered-settings ctx gb e ps s = ground arith

reallocated-settings :
    (ctx : Context) (gb : ℕ) (n : StorageNode) (s : State)
    → settings (reallocated ctx gb n s) ≡ settings s
unfolding reallocated recount_allocation set_node generate_event
reallocated-settings ctx gb n s = refl

unregistered-settings :
    (ctx : Context) (n : StorageNode) (s : State) → settings (unregistered ctx n s) ≡ settings s
unfolding unregistered count_unregistered remove_node_slot set_total_nodes set_node generate_event
unregistered-settings ctx n s =
    let idle : State = set_node (record n { active = false }) s in
    swap_out-settings ctx.caller (get_total_nodes idle) (get_total_nodes idle) 0 idle

issued-settings :
    (ctx : Context) (i a c : String) (nonce : ℕ) (n : StorageNode) (s : State)
    → settings (issued ctx i a c nonce n s) ≡ settings s
unfolding issued count_issued set_node set_challenge generate_event
issued-settings ctx i a c nonce n s = refl

proved-settings :
    (ctx : Context) (i : String) (valid : Bool) (c : Challenge) (s : State)
    → settings (proved ctx i valid c s) ≡ settings s
unfolding proved credit_node count_passed set_challenge
proved-settings ctx i valid c s = ground arith

distributed-settings :
    (period : ℕ) (as_ : List String) (t : PeriodStats) (s : State)
    → settings (distributed period as_ t s) ≡ settings s
unfolding distributed generate_event set_period_stats
distributed-settings period as_ t s = reward_all-settings _ period as_ _

claimed-settings :
    (ctx : Context) (n : StorageNode) (s : State) → settings (claimed ctx n s) ≡ settings s
unfolding claimed transfer_coins set_node generate_event
claimed-settings ctx n s = refl

-- No call of anyone but the admin changes who the admin, the challengers and the storage admins
-- are, the configuration, the price or the pause, once the contract is deployed.
pub call-settings :
    (ctx : Context) (r : Request) (s : State) {u : State}
    → ctx.is_deploying_contract ≡ false
    → is_admin s ctx.caller ≡ false
    → call ctx r s ≡ ok u
    → settings u ≡ settings s
unfolding call deploy fund_contract set_provider_metadata generate_event booked push_uploader_index
    recorded removed set_booked_uploader_gb set_uploader_usage
call-settings ctx (register_request a b c) s idle other h =
    let (gb, e, ps, _, p) = register_storage_node-ok ctx s a b c h in
    ap settings p.4 ∙ registered-settings ctx gb e ps s
call-settings ctx (allocation_request a) s idle other h =
    let (gb, n, _, p) = update_storage_allocation-ok ctx s a h in
    ap settings p.4 ∙ reallocated-settings ctx gb n s
call-settings ctx unregister_request s idle other h =
    let (n, _, _, p) = unregister_storage_node-ok ctx s h in
    ap settings p ∙ unregistered-settings ctx n s
call-settings ctx (metadata_request a b) s idle other h =
    let (e, ps, p) = update_provider_metadata-ok ctx s a b h in ap settings p.2
call-settings ctx (issue_request a b c d) s idle other h =
    let (i, a', c', x, n, p) = issue_challenge-ok ctx s a b c d h in
    ap settings p.5 ∙ issued-settings ctx i a' c' x n s
call-settings ctx (proof_request a b) s idle other h =
    let (i, _, c, _, p) = submit_proof-ok ctx s a b h in
    ap settings p.5 ∙ proved-settings ctx i _ c s
call-settings ctx (expire_request a) s idle other h =
    let (ids, p) = resolve_expired_challenges-ok ctx s a h in
    ap settings p ∙ expire_all-settings ctx.timestamp ids s
call-settings ctx (distribute_request a b) s idle other h =
    let (p, as_, _, _, q) = distribute_rewards-ok ctx s a b h in
    ap settings q.4 ∙ distributed-settings p as_ _ s
call-settings ctx claim_request s idle other h =
    let (n, p) = claim_rewards-ok ctx s h in ap settings p.4 ∙ claimed-settings ctx n s
call-settings ctx (booking_request a) s idle other h =
    let (gb, _, p) = register_as_uploader-ok ctx s a h in ground arith
call-settings ctx (upload_request a b) s idle other h =
    let (x, n, _, _, p) = record_file_upload-ok ctx s a b h in ground arith
call-settings ctx (removal_request a b) s idle other h =
    let (x, n, _, _, p) = remove_file_upload-ok ctx s a b h in ground arith
call-settings ctx r s idle other h = ground (arith, admin_refuses ctx r s other)
