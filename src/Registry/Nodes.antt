-- ===== src/Registry/Nodes.antt =====
-- Node registration in smartContract/assembly/contracts/storage-registry.ts. The results of the
-- calls of the argument reader come as arguments, in their order; `none` is an `Err`.
pub mod Slots
pub mod Statistics
use community_storage.Base.{
  ℕ, zero, suc, ◌+◌, String, Bool, false, not, ◌||◌, Option, List, [], ◌∷◌, ◌++◌, set, is_some, ltb,
  leb, if◌then◌else◌, is_same, includes, length, String_discrete, add64, sub64, ok, assert, expect,
  ◌>>=◌, ◌>>◌,
}
use community_storage.Structs.{StorageNode, new_node}
use community_storage.State.{
  State, Context, Outcome, argument_missing, allocation_below_minimum, allocation_above_maximum,
  node_already_registered, node_not_registered, node_already_inactive, storage_node_registered,
  storage_node_registered_metadata, storage_node_updated, storage_node_unregistered,
  provider_metadata_updated,
}
use community_storage.Registry.{
  generate_event, get_config, get_node, set_node, get_node_index, set_node_index, get_total_nodes,
  set_total_nodes, set_node_slot, get_node_address_at_internal, get_period_stats, set_period_stats,
  assert_not_paused,
}

-- `text.length > 0`
abbrev is_nonempty : String → Bool
is_nonempty t = not (is_same t "")

unfoldable pub push_node_index : String → State → State
unfolding get_node_index set_node_index
push_node_index caller s =
    if not (includes (get_node_index s) caller)
    then set_node_index (get_node_index s ++ caller ∷ []) s
    else s

-- The list of slots grows by one, and so does the count.
unfoldable pub push_node_slot : String → State → State
unfolding get_total_nodes set_total_nodes set_node_slot
push_node_slot caller s =
    set_total_nodes (add64 (get_total_nodes s) 1) (set_node_slot (get_total_nodes s) caller s)

unfoldable pub count_registered : ℕ → ℕ → State → State
unfolding get_period_stats set_period_stats
count_registered period allocated_gb s =
    let stats = get_period_stats s period in
    set_period_stats
      (record stats {
        total_gb_stored = add64 stats.total_gb_stored allocated_gb;
        active_nodes = add64 stats.active_nodes 1;
      })
      s

unfoldable pub set_provider_metadata : String → String → List String → State → State
set_provider_metadata caller endpoint p2p_addrs s = record s {
  provider_meta =
      set String_discrete s.provider_meta caller
        (record { endpoint = endpoint; p2p_addrs = p2p_addrs });
}

unfoldable pub store_metadata : String → ℕ → String → List String → State → State
unfolding set_provider_metadata generate_event
store_metadata caller allocated_gb endpoint p2p_addrs s =
    if is_nonempty endpoint || ltb 0 (length p2p_addrs)
    then generate_event (storage_node_registered_metadata caller allocated_gb endpoint)
        (set_provider_metadata caller endpoint p2p_addrs s)
    else generate_event (storage_node_registered caller allocated_gb) s

-- The writes of `registerStorageNode`, after its assertions.
unfoldable pub registered : Context → ℕ → String → List String → State → State
registered ctx allocated_gb endpoint p2p_addrs s =
    let s1 = set_node (new_node ctx.caller allocated_gb ctx.current_period) s in
    let s2 = push_node_slot ctx.caller (push_node_index ctx.caller s1) in
    let s3 = count_registered ctx.current_period allocated_gb s2 in
    store_metadata ctx.caller allocated_gb endpoint p2p_addrs s3

unfoldable pub register_storage_node :
    Context → Option ℕ → Option String → Option (List String) → State → Outcome
register_storage_node ctx allocated_gb? endpoint? p2p_addrs? s = do
  assert_not_paused s
  allocated_gb ← expect allocated_gb? (argument_missing "allocatedGb")
  endpoint ← expect endpoint? (argument_missing "endpoint")
  p2p_addrs ← expect p2p_addrs? (argument_missing "p2pAddrs")
  let config = get_config s
  assert (leb config.min_allocated_gb allocated_gb)
      (allocation_below_minimum config.min_allocated_gb)
  assert (leb allocated_gb config.max_allocated_gb)
      (allocation_above_maximum config.max_allocated_gb)
  assert (not (is_some (get_node s ctx.caller))) node_already_registered
  ok (registered ctx allocated_gb endpoint p2p_addrs s)

unfoldable pub recount_allocation : ℕ → ℕ → ℕ → State → State
unfolding get_period_stats set_period_stats
recount_allocation period old_gb new_allocated_gb s =
    let stats = get_period_stats s period in
    set_period_stats
      (record stats {
        total_gb_stored = add64 (sub64 stats.total_gb_stored old_gb) new_allocated_gb;
      })
      s

-- The writes of `updateStorageAllocation`, at the stored node.
unfoldable pub reallocated : Context → ℕ → StorageNode → State → State
reallocated ctx new_allocated_gb node s =
    let s1 = set_node (record node { allocated_gb = new_allocated_gb }) s in
    let s2 = recount_allocation ctx.current_period node.allocated_gb new_allocated_gb s1 in
    generate_event (storage_node_updated ctx.caller node.allocated_gb new_allocated_gb) s2

unfoldable pub update_storage_allocation : Context → Option ℕ → State → Outcome
update_storage_allocation ctx new_allocated_gb? s = do
  assert_not_paused s
  new_allocated_gb ← expect new_allocated_gb? (argument_missing "newAllocatedGb")
  let config = get_config s
  assert (leb config.min_allocated_gb new_allocated_gb)
      (allocation_below_minimum config.min_allocated_gb)
  assert (leb new_allocated_gb config.max_allocated_gb)
      (allocation_above_maximum config.max_allocated_gb)
  node ← expect (get_node s ctx.caller) node_not_registered
  ok (reallocated ctx new_allocated_gb node s)

-- The loop of `unregisterStorageNode` from slot `i` with `left` rounds to go: the first slot that
-- holds the caller takes the address of the last one.
unfoldable pub swap_out : String → ℕ → ℕ → ℕ → State → State
swap_out caller total zero i s = s
swap_out caller total (suc left) i s =
    let rest = swap_out caller total left (i + 1) s in
    if is_same (get_node_address_at_internal s i) caller
    then set_node_slot i (get_node_address_at_internal s (sub64 total 1)) s
    else rest

unfoldable pub remove_node_slot : String → State → State
remove_node_slot caller s =
    let total = get_total_nodes s in
    set_total_nodes (sub64 total 1) (swap_out caller total total 0 s)

unfoldable pub count_unregistered : ℕ → ℕ → State → State
unfolding get_period_stats set_period_stats
count_unregistered period allocated_gb s =
    let stats = get_period_stats s period in
    set_period_stats
      (record stats {
        total_gb_stored = sub64 stats.total_gb_stored allocated_gb;
        active_nodes = sub64 stats.active_nodes 1;
      })
      s

-- The writes of `unregisterStorageNode`, at the stored node.
unfoldable pub unregistered : Context → StorageNode → State → State
unregistered ctx node s =
    let s1 = remove_node_slot ctx.caller (set_node (record node { active = false }) s) in
    let s2 = count_unregistered ctx.current_period node.allocated_gb s1 in
    generate_event (storage_node_unregistered ctx.caller) s2

unfoldable pub unregister_storage_node : Context → State → Outcome
unregister_storage_node ctx s = do
  node ← expect (get_node s ctx.caller) node_not_registered
  assert node.active node_already_inactive
  ok (unregistered ctx node s)

unfoldable pub update_provider_metadata :
    Context → Option String → Option (List String) → State → Outcome
update_provider_metadata ctx endpoint? p2p_addrs? s = do
  assert_not_paused s
  assert (is_some (get_node s ctx.caller)) node_not_registered
  endpoint ← expect endpoint? (argument_missing "endpoint")
  p2p_addrs ← expect p2p_addrs? (argument_missing "p2pAddrs")
  ok (
      generate_event (provider_metadata_updated ctx.caller endpoint)
        (set_provider_metadata ctx.caller endpoint p2p_addrs s))
