-- ===== src/Registry/Nodes/Slots/Table.antt =====
-- A table of slots that lists a set without repetition: filling the next slot, and moving the last
-- entry into the slot of one that leaves.
use community_storage.Base.{
  ℕ, ◌+◌, ◌-◌, ◌<◌, ◌≡◌, ◌≢◌, String, Bool, true, false, some, Map, arith, u64_mod, String_discrete,
  ℕ_discrete, set,
}
use mathlib.Core.Logic.{ite}

-- The first `total` slots hold exactly the members, each once.
pub record Lists (slots : Map ℕ String) (total : ℕ) (member : String → Bool) : Type 0 where
  pub bound : total < u64_mod
  pub filled : (i : ℕ) → i < total → (a : String) × (slots i ≡ some a) × (member a ≡ true)
  pub listed : (a : String) → member a ≡ true → (i : ℕ) × (i < total) × (slots i ≡ some a)
  pub distinct :
      (i j : ℕ) (a : String) → i < total → j < total → slots i ≡ some a → slots j ≡ some a → i ≡ j

module _ {slots : Map ℕ String} {total : ℕ} {member : String → Bool}
    (t : Lists slots total member) where
  -- What a slot in use holds is a member.
  pub member_at : (i : ℕ) (a : String) → i < total → slots i ≡ some a → member a ≡ true
  member_at i a h e = let (b, at_i, is_member) = t.filled i h in ground arith

  -- A new member takes the next slot.
  pub push-Lists :
      (a : String) (member' : String → Bool)
      → member a ≡ false
      → total + 1 < u64_mod
      → ((b : String) → member' b ≡ ite (String_discrete a b) true (member b))
      → Lists (set ℕ_discrete slots total a) (total + 1) member'
  push-Lists a member' fresh room m = record {
    bound = room;
    filled = filled';
    listed = listed';
    distinct = distinct';
  }
    where
      filled' :
          (i : ℕ)
          → i < total + 1
          → (b : String) × (set ℕ_discrete slots total a i ≡ some b) × (member' b ≡ true)
      filled' i h = elim (ℕ_discrete total i) [
        | yes e ↦ (a, ground arith, ground (arith, m a))
        | no ne ↦
            let (b, at_i, is_member) = t.filled i (omega arith) in
            (b, ground arith, ground (arith, m b))
      ]

      listed' :
          (b : String)
          → member' b ≡ true
          → (i : ℕ) × (i < total + 1) × (set ℕ_discrete slots total a i ≡ some b)
      listed' b h = elim (String_discrete a b) [
        | yes e ↦ (total, omega arith, ground arith)
        | no ne ↦
            let (i, lt, at_i) = t.listed b (ground (arith, m b)) in (i, omega arith, ground arith)
      ]

      distinct' :
          (i j : ℕ) (b : String)
          → i < total + 1
          → j < total + 1
          → set ℕ_discrete slots total a i ≡ some b
          → set ℕ_discrete slots total a j ≡ some b
          → i ≡ j
      distinct' i j b hi hj ei ej = ground (arith, t.distinct i j b, member_at i b, member_at j b)

  -- A member leaves, and the last entry moves into its slot.
  pub vacate-Lists :
      (j : ℕ) (a last : String) (member' : String → Bool)
      → j < total
      → slots j ≡ some a
      → slots (total - 1) ≡ some last
      → ((b : String) → member' b ≡ ite (String_discrete a b) false (member b))
      → Lists (set ℕ_discrete slots j last) (total - 1) member'
  vacate-Lists j a last member' hj ej el m = record {
    bound = bound';
    filled = filled';
    listed = listed';
    distinct = distinct';
  }
    where
      bound' : total - 1 < u64_mod
      bound' = let b = t.bound in omega arith

      filled' :
          (i : ℕ)
          → i < total - 1
          → (b : String) × (set ℕ_discrete slots j last i ≡ some b) × (member' b ≡ true)
      filled' i h = elim (ℕ_discrete j i) [
        | yes e ↦ (
          last,
          ground arith,
          ground (arith, m last, member_at (total - 1) last, t.distinct j (total - 1) last),
        )
        | no ne ↦
            let (b, at_i, is_member) = t.filled i (omega arith) in
            (b, ground arith, ground (arith, m b, t.distinct i j b))
      ]

      listed' :
          (b : String)
          → member' b ≡ true
          → (i : ℕ) × (i < total - 1) × (set ℕ_discrete slots j last i ≡ some b)
      listed' b h =
          let old : member b ≡ true = ground (arith, m b) in
          let (i, lt, at_i) = t.listed b old in
          let other : b ≢ a = λ e. ground (arith, m b) in
          elim (ℕ_discrete i (total - 1)) [
            | yes e ↦ (j, ground arith, ground arith)
            | no ne ↦ (i, omega arith, ground arith)
          ]

      distinct' :
          (i k : ℕ) (b : String)
          → i < total - 1
          → k < total - 1
          → set ℕ_discrete slots j last i ≡ some b
          → set ℕ_discrete slots j last k ≡ some b
          → i ≡ k
      distinct' i k b hi hk ei ek =
          ground (arith, t.distinct i k b, t.distinct i (total - 1) b, t.distinct k (total - 1) b)

-- Nothing is listed where there are no members.
pub empty-Lists :
    {slots : Map ℕ String} {total : ℕ} {member : String → Bool}
    → total ≡ 0
    → ((a : String) → member a ≡ false)
    → Lists slots total member
empty-Lists none_in_use no_members = record {
  bound = omega arith;
  filled = λ i h. absurd (omega arith);
  listed = λ a h. absurd (ground (arith, no_members a));
  distinct = λ i j a h. absurd (omega arith);
}
