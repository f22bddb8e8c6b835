-- ===== src/Base/Maps.antt =====
-- A family of storage keys as a function from the key's variable part to the value stored there.
use mathlib.Core.Path.{◌≡◌}
use mathlib.Core.Bool.{Bool, true, false}
use mathlib.Core.Logic.{ite}
use mathlib.Core.Option.{Option, none, some}

abbrev pub Map : Type 0 → Type 0 → Type 0
Map K V = K → Option V

module _ {K V : Type 0} where
  abbrev pub empty : Map K V
  empty k = none

  -- `Storage.set`
  abbrev pub set : ((a b : K) → Dec (a ≡ b)) → Map K V → K → V → Map K V
  set decide m k v j = ite (decide k j) (some v) (m j)

  -- `Storage.del`
  abbrev pub del : ((a b : K) → Dec (a ≡ b)) → Map K V → K → Map K V
  del decide m k j = ite (decide k j) none (m j)

-- `Storage.has`
abbrev pub is_some {ℓ} : {A : Type ℓ} → Option A → Bool
is_some none = false
is_some (some _) = true

abbrev pub get_or {ℓ} : {A : Type ℓ} → A → Option A → A
get_or d none = d
get_or d (some a) = a
