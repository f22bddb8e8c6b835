-- ===== src/Registry/Calls/History/Final.antt =====
-- A settled period, a resolved challenge and a provider that has left, in the states after.
use community_storage.Base.{
  ℕ, ◌≡◌, ◌∙◌, ap, String, Bool, true, false, Option, none, some, List, ok, arith, ltb, length, inl,
  inr, Option-cases,
}
use community_storage.Structs.{StorageNode, Challenge, PeriodStats}
use community_storage.State.{State, Context}
use community_storage.Registry.{
  generate_event, get_node, set_node, get_challenge, set_challenge, get_period_stats,
  set_period_stats, set_total_nodes, get_total_nodes,
}
use community_storage.Registry.Nodes.{
  register_storage_node, unregister_storage_node, unregistered, remove_node_slot,
  count_unregistered,
}
use community_storage.Registry.Challenges.{submit_proof, proved, credit_node, count_passed}
use community_storage.Registry.Rewards.{distribute_rewards, distributed}
use community_storage.Registry.Rewards.Payments.{distribute_rewards-eq}
use community_storage.Registry.Nodes.Slots.{is_active}
use community_storage.Registry.Calls.{
  Later, call, distribute_request, proof_request, unregister_request,
}
use community_storage.Registry.Calls.Success.{
  distribute_rewards-ok, unregister_storage_node-ok, register_storage_node-ok,
}
use community_storage.Registry.Calls.Keys.{IsKeyed, get_period_stats-period}
use community_storage.Registry.Calls.Keys.Preserved.{call-IsKeyed}
use community_storage.Registry.Calls.Keys.Writes.{swap_out-same}
use community_storage.Registry.Calls.History.{is_settled, is_resolved, is_retired}
use community_storage.Registry.Calls.History.Preserved.{Later-Extends}

distributed_settles :
    (period : ℕ) (as_ : List String) (t : PeriodStats) (s : State)
    → t.period ≡ period
    → is_settled (distributed period as_ t s) period ≡ true
unfolding distributed generate_event set_period_stats get_period_stats
distributed_settles period as_ t s e = ground arith

settled_refuses :
    (ctx : Context) (period : ℕ) (as? : Option (List String)) (s : State) {u : State}
    → is_settled s period ≡ true
    → ¬ (distribute_rewards ctx (some period) as? s ≡ ok u)
settled_refuses ctx period as? s e h =
    let (p, _, same, _, q) = distribute_rewards-ok ctx s (some period) as? h in
    let settled = q.2 in ground arith

-- The rewards of a period are distributed once: after a distribution that did not abort, in a state
-- where all stands under its own key, in every later state every distribution for that period aborts, whoever calls and whatever is listed.
pub distribute_once :
    (ctx ctx' : Context) (period : ℕ) (as_ : List String) (as? : Option (List String))
    {s u v w : State}
    → IsKeyed s
    → distribute_rewards ctx (some period) (some as_) s ≡ ok u
    → Later u v
    → ¬ (distribute_rewards ctx' (some period) as? v ≡ ok w)
unfolding call
distribute_once ctx ctx' period as_ as? {s} {v} k h l =
    let made = distribute_rewards-eq ctx period as_ s h in
    let k' = call-IsKeyed ctx (distribute_request (some period) (some as_)) s k h in
    let settled =
      distributed_settles period as_ (get_period_stats s period) s
        (get_period_stats-period s period k) in
    settled_refuses ctx' period as? v ((Later-Extends k' l).settled period (rw made settled))

proved_outcome :
    (ctx : Context) (i : String) (valid : Bool) (c : Challenge) (s : State)
    → c.id ≡ i
    → (proved ctx i valid c s).challenges i ≡ some (record c { resolved = true; passed = valid })
unfolding proved credit_node count_passed set_challenge get_node
proved_outcome ctx i valid c s e = ground arith

submit_proof-eq :
    (ctx : Context) (i : String) (proof : List ℕ) (s : State) {u : State}
    → submit_proof ctx (some i) (some proof) s ≡ ok u
    → (c : Challenge) × (get_challenge s i ≡ some c) × (u ≡ proved ctx i (ltb 0 (length proof)) c s)
unfolding submit_proof
submit_proof-eq ctx i proof s h = elim (Option-cases (get_challenge s i)) [
  | inl missing ↦ ground arith
  | inr (c, found) ↦ (c, found, ground arith)
]

submit_proof-unresolved :
    (ctx : Context) (i : String) (proof? : Option (List ℕ)) (s : State) {u : State}
    → submit_proof ctx (some i) proof? s ≡ ok u
    → is_resolved (get_challenge s i) ≡ false
unfolding submit_proof
submit_proof-unresolved ctx i (some proof) s h = ground arith
submit_proof-unresolved ctx i none s h = ground arith

-- The outcome of a challenge is final: after a proof that `submitProof` took, in a state where all
-- stands under its own key, in every later state the challenge stands as the proof left it, resolved, with the same terms, and passed exactly if
-- the proof was not empty; and no further proof of it is taken.
pub proof_final :
    (ctx ctx' : Context) (i : String) (proof : List ℕ) (proof? : Option (List ℕ)) {s u v w : State}
    → IsKeyed s
    → submit_proof ctx (some i) (some proof) s ≡ ok u
    → Later u v
    → ((c : Challenge) × (get_challenge s i ≡ some c)
        × (get_challenge v i ≡ some (record c { resolved = true; passed = ltb 0 (length proof) })))
      × ¬ (submit_proof ctx' (some i) proof? v ≡ ok w)
unfolding call get_challenge
proof_final ctx ctx' i proof proof? {s} {u} {v} k h l =
    let (c, found, made) = submit_proof-eq ctx i proof s h in
    let k' = call-IsKeyed ctx (proof_request (some i) (some proof)) s k h in
    let outcome = proved_outcome ctx i (ltb 0 (length proof)) c s (k.challenge_key i c found) in
    let stands : u.challenges i
        ≡ some (record c { resolved = true; passed = ltb 0 (length proof) }) =
      rw made outcome in
    let kept = (Later-Extends k' l).resolved i (ap is_resolved stands) ∙ stands in
    ((c, found, kept), λ again. ground (arith, submit_proof-unresolved ctx' i proof? v again))

unregistered_retires :
    (ctx : Context) (n : StorageNode) (s : State)
    → n.address ≡ ctx.caller
    → is_retired ((unregistered ctx n s).nodes ctx.caller) ≡ true
unfolding unregistered count_unregistered remove_node_slot set_total_nodes set_node generate_event
unregistered_retires ctx n s e =
    let idle : State = set_node (record n { active = false }) s in
    let total = get_total_nodes idle in
    rw ((swap_out-same ctx.caller total total 0 idle).0) (ground arith)

-- A provider that has left does not come back: after `unregisterStorageNode`, in a state where all
-- stands under its own key, in every later state its node is inactive, and `registerStorageNode` aborts when it calls.
pub unregister_final :
    (ctx ctx' : Context) (gb? : Option ℕ) (e? : Option String) (ps? : Option (List String))
    {s u v w : State}
    → IsKeyed s
    → unregister_storage_node ctx s ≡ ok u
    → Later u v
    → ctx'.caller ≡ ctx.caller
    → (is_active v ctx.caller ≡ false) × ¬ (register_storage_node ctx' gb? e? ps? v ≡ ok w)
unfolding call get_node
unregister_final ctx ctx' gb? e? ps? {s} {u} {v} k h l same =
    let (n, found, _, made) = unregister_storage_node-ok ctx s h in
    let k' = call-IsKeyed ctx unregister_request s k h in
    let left = unregistered_retires ctx n s (k.node_key ctx.caller n found) in
    let retired = (Later-Extends k' l).retired ctx.caller (rw made left) in
    (
      ground arith,
      λ again.
          let (_, _, _, _, p) = register_storage_node-ok ctx' v gb? e? ps? again in
          let fresh = p.1 in ground arith,
    )
