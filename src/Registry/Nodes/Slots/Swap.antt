-- ===== src/Registry/Nodes/Slots/Swap.antt =====
-- The loop of `unregisterStorageNode` over the slots.
use community_storage.Base.{
  ℕ, zero, suc, ◌+◌, ◌-◌, ◌<◌, ◌≤◌, ◌≡◌, ◌≢◌, String, Bool, some, arith, sub64, sub64-eq-sub,
  ℕ_discrete,
}
use community_storage.State.{State}
use community_storage.Registry.{
  get_total_nodes, set_total_nodes, get_node_address_at_internal, set_node_slot,
}
use community_storage.Registry.Nodes.{swap_out, remove_node_slot}
use community_storage.Registry.Nodes.Slots.Table.{Lists}

-- In a slot below the count the reader finds what is stored.
pub get_node_address_at_internal-eq :
    (s : State) (i : ℕ) (a : String)
    → i < get_total_nodes s
    → s.node_slots i ≡ some a
    → get_node_address_at_internal s i ≡ a
unfolding get_node_address_at_internal
get_node_address_at_internal-eq s i a h e = ground arith

module _ (caller : String) (total j : ℕ) (s : State) where
  swap_out-eq-set :
      (left i : ℕ)
      → get_node_address_at_internal s j ≡ caller
      → ((i : ℕ) → i < j → get_node_address_at_internal s i ≢ caller)
      → i + left ≡ total
      → i ≤ j
      → j < total
      → swap_out caller total left i s
        ≡ set_node_slot j (get_node_address_at_internal s (sub64 total 1)) s
  unfolding swap_out
  swap_out-eq-set zero i at_j before e le lt = absurd (omega arith)
  swap_out-eq-set (suc left) i at_j before e le lt = elim (ℕ_discrete i j) [
    | yes same ↦ ground arith
    | no ne ↦ ground (arith, before i, swap_out-eq-set left (i + 1))
  ]

module _ (caller last : String) (j : ℕ) (s : State) {member : String → Bool} where
  pub remove_node_slot-eq :
      Lists s.node_slots (get_total_nodes s) member
      → j < get_total_nodes s
      → s.node_slots j ≡ some caller
      → s.node_slots (get_total_nodes s - 1) ≡ some last
      → remove_node_slot caller s ≡ set_total_nodes (get_total_nodes s - 1) (set_node_slot j last s)
  unfolding remove_node_slot
  remove_node_slot-eq t lt at_j at_last =
      let total = get_total_nodes s in
      let less = sub64-eq-sub total 1 (omega arith) t.bound in
      let reads_last = get_node_address_at_internal-eq s (total - 1) last (omega arith) at_last in
      let found =
        swap_out-eq-set caller total j s total 0
          (get_node_address_at_internal-eq s j caller lt at_j) (reads_before t lt at_j)
          (omega arith) (omega arith) lt in
      rw (found, less, reads_last)
    where
      reads_before :
          Lists s.node_slots (get_total_nodes s) member
          → j < get_total_nodes s
          → s.node_slots j ≡ some caller
          → (i : ℕ) → i < j
          → get_node_address_at_internal s i ≢ caller
      reads_before t' lt' at_j' i before e =
          let (a, at_i, _) = t'.filled i (omega arith) in
          let reads = get_node_address_at_internal-eq s i a (omega arith) at_i in
          let same = t'.distinct i j caller (omega arith) lt' (cc) at_j' in absurd (omega arith)
