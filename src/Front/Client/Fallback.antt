-- ===== src/Front/Client/Fallback.antt =====
-- `getStorageProviders` on a contract that has no view of all addresses: it asks for the addresses by
-- their indexes.
use community_storage.Base.{
  ℕ, zero, suc, ◌+◌, ◌≤◌, ◌<◌, ◌≡◌, refl, sym, String, true, false, some, List, [], ◌∷◌, arith,
  IsU64, u64_mod, includes, IsDistinct, is_same, if◌then◌else◌, ok, abort, Bool-cases, inl, inr,
  ◌∙◌, ℕ_discrete,
}
use community_storage.Structs.Args.{ArgsCodec}
use community_storage.State.{State, Error}
use community_storage.Registry.{get_total_nodes, get_node_address_at_internal}
use community_storage.Registry.Calls.{Reach, steps}
use community_storage.Registry.Calls.Slots.{Reach-IsIndexed}
use community_storage.Registry.Nodes.Slots.{is_active}
use community_storage.Registry.Nodes.Slots.Writes.{IsIndexed}
use community_storage.Registry.Nodes.Slots.Table.{member_at}
use community_storage.Registry.Nodes.Slots.Swap.{get_node_address_at_internal-eq}
use community_storage.Front.Client.{addresses_from, provider_addresses, get_registered_addresses}
use community_storage.Front.Client
use community_storage.Front.Client.Rpc.{View, Chain, served}
use community_storage.Front.Client.Served.{node_address_at-served, total_nodes-served}

-- The same chain, where the view `getRegisteredAddressesView` does not exist.
abbrev pub without_list : Chain → Chain
without_list sc View.registered_addresses args = abort "no such function"
without_list sc view args = sc view args

module _ (s : State) where
  slots_from : (left i : ℕ) → List String
  slots_from zero i = []
  slots_from (suc left) i =
      let rest = slots_from left (i + 1) in
      let addr = get_node_address_at_internal s i in if is_same addr "" then rest else addr ∷ rest

  module _ (t : IsIndexed s) (named : is_active s "" ≡ false) where
    slots_from-suc :
        (left i : ℕ)
        → i < get_total_nodes s
        → (b : String) × (s.node_slots i ≡ some b)
          × (slots_from (suc left) i ≡ b ∷ slots_from left (i + 1))
    unfolding slots_from
    slots_from-suc left i lt =
        let (b, here, active) = t.filled i lt in
        let reads = get_node_address_at_internal-eq s i b lt here in (b, here, ground arith)

    slots_from-at :
        (left i : ℕ) (a : String)
        → i + left ≡ get_total_nodes s
        → includes (slots_from left i) a ≡ true
        → (j : ℕ) × (i ≤ j) × (j < get_total_nodes s) × (s.node_slots j ≡ some a)
    unfolding slots_from
    slots_from-at zero i a e h = cc
    slots_from-at (suc left) i a e h =
        let (b, here, split) = slots_from-suc left i (omega arith) in
        let found : includes (b ∷ slots_from left (i + 1)) a ≡ true = rw split at h in
        elim (Bool-cases (is_same b a)) [
          | inl same ↦ (i, omega arith, omega arith, ground arith)
          | inr other ↦
              let (j, le, lt, at_j) = slots_from-at left (i + 1) a (omega arith) (ground arith) in
              (j, omega arith, lt, at_j)
        ]

    at-slots_from :
        (left i j : ℕ) (a : String)
        → i + left ≡ get_total_nodes s
        → i ≤ j
        → j < get_total_nodes s
        → s.node_slots j ≡ some a
        → includes (slots_from left i) a ≡ true
    at-slots_from zero i j a e le lt at_j = absurd (omega arith)
    at-slots_from (suc left) i j a e le lt at_j =
        let (b, here, split) = slots_from-suc left i (omega arith) in
        elim (ℕ_discrete i j) [
          | yes same ↦ rw split (ground arith)
          | no other ↦
              let later = at-slots_from left (i + 1) j a (omega arith) (omega arith) lt at_j in
              rw split (ground arith)
        ]

    slots_from-IsDistinct :
        (left i : ℕ) → i + left ≡ get_total_nodes s → IsDistinct (slots_from left i)
    unfolding slots_from
    slots_from-IsDistinct zero i e = tt
    slots_from-IsDistinct (suc left) i e =
        let (b, here, split) = slots_from-suc left i (omega arith) in
        rw split (
          elim (Bool-cases (includes (slots_from left (i + 1)) b)) [
            | inl again ↦
                let (j, le, lt, at_j) = slots_from-at left (i + 1) b (omega arith) again in
                let same = t.distinct i j b (omega arith) lt here at_j in absurd (omega arith)
            | inr new ↦ new
          ],
          slots_from-IsDistinct left (i + 1) (omega arith),
        )

    slots_from-active : (a : String) → includes (slots_from (get_total_nodes s) 0) a ≡ is_active s a
    slots_from-active a = elim (Bool-cases (is_active s a)) [
      | inl active ↦
          let (j, lt, at_j) = t.listed a active in
          at-slots_from (get_total_nodes s) 0 j a (omega arith) (omega arith) lt at_j ∙ sym active
      | inr idle ↦ elim (Bool-cases (includes (slots_from (get_total_nodes s) 0) a)) [
        | inl found ↦
            let (j, _, lt, at_j) = slots_from-at (get_total_nodes s) 0 a (omega arith) found in
            let active = member_at t j a lt at_j in cc
        | inr missing ↦ missing ∙ sym idle
      ]
    ]

module _ (C : ArgsCodec) (text : Error → String) (s : State) where
  hidden_at :
      (i : ℕ)
      → IsU64 i
      → Client.get_node_address_at C (without_list (served C text s)) i
        ≡ ok (get_node_address_at_internal s i)
  unfolding Client.get_node_address_at
  hidden_at i h = unfold Client.get_node_address_at in node_address_at-served C text s i h

  hidden_total :
      IsU64 (get_total_nodes s)
      → Client.get_total_nodes C (without_list (served C text s)) ≡ ok (get_total_nodes s)
  unfolding Client.get_total_nodes
  hidden_total h = unfold Client.get_total_nodes in total_nodes-served C text s h

  addresses_from-eq :
      (left i : ℕ)
      → i + left < u64_mod
      → addresses_from C (without_list (served C text s)) left i ≡ ok (slots_from s left i)
  unfolding addresses_from slots_from
  addresses_from-eq zero i few = refl
  addresses_from-eq (suc left) i few =
      rw (hidden_at i (omega arith), addresses_from-eq left (i + 1) (omega arith)) refl

-- On a chain at a state that fewer than 2^64 calls have made, whose contract has no view of all
-- addresses, the list of storage providers is made from the addresses at the indexes: exactly those
-- of the active nodes, each once. No node is registered under the empty address.
pub fallback-active :
    (C : ArgsCodec) (text : Error → String) {s : State} (r : Reach s)
    → steps r < u64_mod
    → is_active s "" ≡ false
    → (l : List String) × (provider_addresses C (without_list (served C text s)) ≡ ok l)
      × ((a : String) → includes l a ≡ is_active s a)
      × IsDistinct l
unfolding provider_addresses get_registered_addresses
fallback-active C text {s} r few named =
    let t = (Reach-IsIndexed r few).0 in
    let total = get_total_nodes s in
    (
      slots_from s total 0,
      rw (hidden_total C text s (omega (arith, t.bound)))
          (addresses_from-eq C text s total 0 (omega (arith, t.bound))),
      slots_from-active s t named,
      slots_from-IsDistinct s t named total 0 (omega arith),
    )
