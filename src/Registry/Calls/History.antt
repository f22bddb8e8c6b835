-- ===== src/Registry/Calls/History.antt =====
-- The history that the registry keeps: a period that is settled, a challenge that is
-- resolved, the terms of a challenge, and that a provider has left.
pub mod Writes
pub mod Preserved
pub mod Final
use community_storage.Base.{
  ℕ, ◌≡◌, refl, ◌∙◌, String, Bool, true, false, not, Option, none, some, is_some,
}
use community_storage.Structs.{StorageNode, Challenge}
use community_storage.State.{State}
use community_storage.Registry.{get_period_stats}

-- The rewards of the period have been distributed.
abbrev pub is_settled : State → ℕ → Bool
is_settled s p = (get_period_stats s p).rewards_distributed

abbrev pub is_resolved : Option Challenge → Bool
is_resolved none = false
is_resolved (some c) = c.resolved

-- A challenge without its outcome.
abbrev pub terms : Option Challenge → Option Challenge
terms none = none
terms (some c) = some (record c { resolved = false; passed = false })

-- A provider that has left.
abbrev pub is_retired : Option StorageNode → Bool
is_retired none = false
is_retired (some n) = not n.active

pub record Extends (s u : State) : Type 0 where
  pub settled : (p : ℕ) → is_settled s p ≡ true → is_settled u p ≡ true
  pub resolved :
      (i : String) → is_resolved (s.challenges i) ≡ true → u.challenges i ≡ s.challenges i
  pub kept :
      (i : String)
      → is_some (s.challenges i) ≡ true
      → terms (u.challenges i) ≡ terms (s.challenges i)
  pub retired : (a : String) → is_retired (s.nodes a) ≡ true → is_retired (u.nodes a) ≡ true

pub Extends-refl : {s : State} → Extends s s
Extends-refl = record {
  settled = λ p h. h;
  resolved = λ i h. refl;
  kept = λ i h. refl;
  retired = λ a h. h;
}

is_some-eq_of_terms :
    (o o' : Option Challenge) → terms o' ≡ terms o → is_some o ≡ true → is_some o' ≡ true
is_some-eq_of_terms none o' e h = cc
is_some-eq_of_terms (some c) none e h = cc
is_some-eq_of_terms (some c) (some d) e h = refl

pub Extends-trans : {s t u : State} → Extends s t → Extends t u → Extends s u
Extends-trans {s} {t} {u} a b = record {
  settled = λ p h. b.settled p (a.settled p h);
  resolved = λ i h. b.resolved i (rw (a.resolved i h) h) ∙ a.resolved i h;
  kept = λ i h.
      b.kept i (is_some-eq_of_terms (s.challenges i) (t.challenges i) (a.kept i h) h) ∙ a.kept i h;
  retired = λ x h. b.retired x (a.retired x h);
}
