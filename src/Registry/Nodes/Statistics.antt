-- ===== src/Registry/Nodes/Statistics.antt =====
-- The statistics of a period under registration and departure of providers.
use mathlib.Core.Option.{some-injective}
use community_storage.Base.{
  ℕ, ◌-◌, ◌≡◌, String, false, none, some, List, arith, add64, sub64, u64_mod, u64_max, IsU64, ok,
  ap, ◌∙◌, sym, ◌≢◌, ◌==◌, if◌then◌else◌, ℕ_discrete,
}
use community_storage.Structs.{StorageNode, PeriodStats, new_node}
use community_storage.State.{State, Context}
use community_storage.Registry.{
  generate_event, get_node, set_node, get_period_stats, set_total_nodes, get_total_nodes,
}
use community_storage.Registry.Nodes.{
  push_node_index, push_node_slot, count_registered, store_metadata, registered,
  register_storage_node, remove_node_slot, count_unregistered, unregistered,
  unregister_storage_node,
}
use community_storage.Registry.Calls.Keys.{IsKeyed, get_period_stats-period}
use community_storage.Registry.Calls.Keys.Writes.{swap_out-same}
use community_storage.Registry.Calls.Success.{unregister_storage_node-ok}

registered-stats :
    (ctx : Context) (gb : ℕ) (e : String) (ps : List String) (s : State)
    → (get_period_stats s ctx.current_period).period ≡ ctx.current_period
    → get_period_stats (registered ctx gb e ps s) ctx.current_period ≡ (
        let t = get_period_stats s ctx.current_period in
        record t {
          total_gb_stored = add64 t.total_gb_stored gb;
          active_nodes = add64 t.active_nodes 1;
        })
unfolding registered store_metadata count_registered push_node_index push_node_slot set_node
    get_period_stats
registered-stats ctx gb e ps s k = ground arith

unregistered-stats :
    (ctx : Context) (n : StorageNode) (s : State)
    → (get_period_stats s ctx.current_period).period ≡ ctx.current_period
    → get_period_stats (unregistered ctx n s) ctx.current_period ≡ (
        let t = get_period_stats s ctx.current_period in
        record t {
          total_gb_stored = sub64 t.total_gb_stored n.allocated_gb;
          active_nodes = sub64 t.active_nodes 1;
        })
unfolding unregistered count_unregistered remove_node_slot set_total_nodes set_node generate_event
    get_period_stats
unregistered-stats ctx n s k =
    let idle : State = set_node (record n { active = false }) s in
    let total = get_total_nodes idle in
    let same = (swap_out-same ctx.caller total total 0 idle).2 in ground arith

-- A provider that leaves in a period for which no statistics are stored yet makes its count of active
-- nodes 2^64 - 1, and its capacity 2^64 minus the allocation, or 0 where the provider has allocated
-- nothing. The allocation fits 64 bits.
pub unregister_underflow :
    (ctx : Context) (n : StorageNode) (s : State) {u : State}
    → s.periods ctx.current_period ≡ none
    → get_node s ctx.caller ≡ some n
    → IsU64 n.allocated_gb
    → unregister_storage_node ctx s ≡ ok u
    → let after = get_period_stats u ctx.current_period in
      (after.active_nodes ≡ u64_max)
      × (after.total_gb_stored ≡ (if n.allocated_gb == 0 then 0 else u64_mod - n.allocated_gb))
unfolding get_period_stats sub64
unregister_underflow ctx n s fresh there small h =
    let (m, found, act, made) = unregister_storage_node-ok ctx s h in
    let same : m ≡ n = some-injective m n (sym found ∙ there) in
    let stats = unregistered-stats ctx m s (ground arith) in (ground arith, ground arith)

register-made :
    (ctx : Context) (gb : ℕ) (e : String) (ps : List String) (s : State) {u : State}
    → register_storage_node ctx (some gb) (some e) (some ps) s ≡ ok u
    → u ≡ registered ctx gb e ps s
unfolding register_storage_node
register-made ctx gb e ps s h = ground arith

registered-node :
    (ctx : Context) (gb : ℕ) (e : String) (ps : List String) (s : State)
    → get_node (registered ctx gb e ps s) ctx.caller
      ≡ some (new_node ctx.caller gb ctx.current_period)
unfolding registered store_metadata count_registered push_node_index push_node_slot set_node
    get_node
registered-node ctx gb e ps s = ground arith

restored :
    (t : PeriodStats) (gb : ℕ)
    → IsU64 gb
    → IsU64 t.total_gb_stored
    → IsU64 t.active_nodes
    → record t {
      total_gb_stored = sub64 (add64 t.total_gb_stored gb) gb;
      active_nodes = sub64 (add64 t.active_nodes 1) 1;
    }
      ≡ t
unfolding add64 sub64
restored t gb small stored active = ground arith

own_stats :
    (ctx ctx' : Context) (gb : ℕ) (e : String) (ps : List String) (s : State) {u v : State}
    → IsKeyed s
    → ctx'.caller ≡ ctx.caller
    → ctx'.current_period ≡ ctx.current_period
    → IsU64 gb
    → IsU64 (get_period_stats s ctx.current_period).total_gb_stored
    → IsU64 (get_period_stats s ctx.current_period).active_nodes
    → register_storage_node ctx (some gb) (some e) (some ps) s ≡ ok u
    → unregister_storage_node ctx' u ≡ ok v
    → get_period_stats v ctx.current_period ≡ get_period_stats s ctx.current_period
own_stats ctx ctx' gb e ps s {u} {v} k same period small stored active h h' =
    let p = ctx.current_period in
    let t = get_period_stats s p in
    let key = get_period_stats-period s p k in
    let made = register-made ctx gb e ps s h in
    let (n, found, _, left) = unregister_storage_node-ok ctx' u h' in
    let entered : get_period_stats u p ≡ record t {
      total_gb_stored = add64 t.total_gb_stored gb;
      active_nodes = add64 t.active_nodes 1;
    } =
      ap (λ w. get_period_stats w p) made ∙ registered-stats ctx gb e ps s key in
    let mine = registered-node ctx gb e ps s in
    let size : n.allocated_gb ≡ gb = ground arith in
    let left_stats = unregistered-stats ctx' n u (ground arith) in
    ground (arith, restored t gb small stored active)

registered-stats_other :
    (ctx : Context) (gb : ℕ) (e : String) (ps : List String) (s : State) (q : ℕ)
    → (get_period_stats s ctx.current_period).period ≡ ctx.current_period
    → q ≢ ctx.current_period
    → get_period_stats (registered ctx gb e ps s) q ≡ get_period_stats s q
unfolding registered store_metadata count_registered push_node_index push_node_slot set_node
    get_period_stats
registered-stats_other ctx gb e ps s q key ne = ground arith

unregistered-stats_other :
    (ctx : Context) (n : StorageNode) (s : State) (q : ℕ)
    → (get_period_stats s ctx.current_period).period ≡ ctx.current_period
    → q ≢ ctx.current_period
    → get_period_stats (unregistered ctx n s) q ≡ get_period_stats s q
unfolding unregistered count_unregistered remove_node_slot set_total_nodes set_node generate_event
    get_period_stats
unregistered-stats_other ctx n s q key ne =
    let idle : State = set_node (record n { active = false }) s in
    let total = get_total_nodes idle in
    let same = (swap_out-same ctx.caller total total 0 idle).2 in ground arith

other_stats :
    (ctx ctx' : Context) (gb : ℕ) (e : String) (ps : List String) (s : State) {u v : State}
    → IsKeyed s
    → ctx'.caller ≡ ctx.caller
    → ctx'.current_period ≡ ctx.current_period
    → register_storage_node ctx (some gb) (some e) (some ps) s ≡ ok u
    → unregister_storage_node ctx' u ≡ ok v
    → (q : ℕ) → q ≢ ctx.current_period
    → get_period_stats v q ≡ get_period_stats s q
other_stats ctx ctx' gb e ps s {u} {v} k same period h h' q other =
    let key = get_period_stats-period s ctx.current_period k in
    let made = register-made ctx gb e ps s h in
    let (n, found, _, left) = unregister_storage_node-ok ctx' u h' in
    let entered =
      ap (λ w. get_period_stats w ctx.current_period) made ∙ registered-stats ctx gb e ps s key in
    ap (λ w. get_period_stats w q) left
    ∙ unregistered-stats_other ctx' n u q (ground arith) (λ i. other (i ∙ period))
    ∙ ap (λ w. get_period_stats w q) made
    ∙ registered-stats_other ctx gb e ps s q key other

-- A provider that leaves in the period in which it registered, with no call in between, leaves the
-- statistics of every period as they were before the two calls. The allocation and the numbers of
-- that period's statistics fit 64 bits, and every stored record stands under its own key.
pub register-unregister_stats :
    (ctx ctx' : Context) (gb : ℕ) (e : String) (ps : List String) (s : State) {u v : State}
    → IsKeyed s
    → ctx'.caller ≡ ctx.caller
    → ctx'.current_period ≡ ctx.current_period
    → IsU64 gb
    → IsU64 (get_period_stats s ctx.current_period).total_gb_stored
    → IsU64 (get_period_stats s ctx.current_period).active_nodes
    → register_storage_node ctx (some gb) (some e) (some ps) s ≡ ok u
    → unregister_storage_node ctx' u ≡ ok v
    → (q : ℕ) → get_period_stats v q ≡ get_period_stats s q
register-unregister_stats ctx ctx' gb e ps s {u} {v} k same period small stored active h h' q =
    elim (ℕ_discrete q ctx.current_period) [
      | yes here ↦ rw here (own_stats ctx ctx' gb e ps s k same period small stored active h h')
      | no other ↦ other_stats ctx ctx' gb e ps s k same period h h' q other
    ]
