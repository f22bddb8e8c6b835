-- ===== src/Registry/Nodes/Slots/Providers.antt =====
-- The slots after a provider registers, and after one leaves.
use community_storage.Base.{
  ℕ, ◌+◌, ◌-◌, ◌<◌, ◌≡◌, refl, get_or, String, true, false, none, some, List, arith, u64_mod,
  add64-eq-add, String_discrete,
}
use mathlib.Core.Logic.{ite}
use community_storage.Structs.{StorageNode}
use community_storage.State.{State, Context}
use community_storage.Registry.{
  generate_event, set_node, get_node, get_total_nodes, set_total_nodes, set_node_slot,
}
use community_storage.Registry.Nodes.{
  push_node_index, push_node_slot, count_registered, store_metadata, registered, unregistered,
  count_unregistered,
}
use community_storage.Registry.Nodes.Slots.{is_active}
use community_storage.Registry.Nodes.Slots.Table.{push-Lists, vacate-Lists}
use community_storage.Registry.Nodes.Slots.Swap.{remove_node_slot-eq}
use community_storage.Registry.Calls.Keys.{IsKeyed}
use community_storage.Registry.Nodes.Slots.Writes.{IsIndexed, Lists-same}

-- Registration appends the caller's slot.
pub registered-IsIndexed :
    (ctx : Context) (gb : ℕ) (e : String) (ps : List String) (s : State)
    → get_node s ctx.caller ≡ none
    → get_total_nodes s + 1 < u64_mod
    → IsIndexed s
    → IsIndexed (registered ctx gb e ps s)
unfolding registered store_metadata count_registered push_node_index push_node_slot set_node
    get_node get_total_nodes
registered-IsIndexed ctx gb e ps s fresh room t =
    Lists-same (ground arith) (ground (arith, add64-eq-add (get_or 0 s.total_nodes) 1)) (λ a. refl)
      (push-Lists t ctx.caller (is_active (registered ctx gb e ps s)) (ground arith) room
        (λ a. ground arith))

pub registered_total :
    (ctx : Context) (gb : ℕ) (e : String) (ps : List String) (s : State)
    → get_total_nodes s + 1 < u64_mod
    → get_total_nodes (registered ctx gb e ps s) ≡ get_total_nodes s + 1
unfolding registered store_metadata count_registered push_node_index push_node_slot set_node
    get_total_nodes
registered_total ctx gb e ps s room = ground (arith, add64-eq-add (get_or 0 s.total_nodes) 1)

-- The set of active nodes after the caller's node has been marked.
is_active-idle :
    (n : StorageNode) (a : String) (s : State) (b : String)
    → n.address ≡ a
    → is_active (set_node (record n { active = false }) s) b
      ≡ ite (String_discrete a b) false (is_active s b)
unfolding set_node
is_active-idle n a s b e = ground arith

-- Leaving moves the last slot's address into the caller's slot.
pub unregistered-IsIndexed :
    (ctx : Context) (n : StorageNode) (s : State)
    → IsKeyed s
    → get_node s ctx.caller ≡ some n
    → n.active ≡ true
    → IsIndexed s
    → IsIndexed (unregistered ctx n s)
      × (get_total_nodes (unregistered ctx n s) + 1 ≡ get_total_nodes s)
unfolding unregistered count_unregistered generate_event get_node set_node get_total_nodes
    set_total_nodes set_node_slot
unregistered-IsIndexed ctx n s k e act t =
    let idle : State = set_node (record n { active = false }) s in
    let (j, lt, at_j) = t.listed ctx.caller (ground arith) in
    let (last, at_last, _) = t.filled (get_or 0 s.total_nodes - 1) (omega arith) in
    let moved =
      remove_node_slot-eq ctx.caller last j idle {member = is_active s} t lt at_j at_last in
    let table =
      vacate-Lists t j ctx.caller last (is_active idle) lt at_j at_last
        (λ b. is_active-idle n ctx.caller s b (k.node_key ctx.caller n e)) in
    rw moved (table, omega arith)
