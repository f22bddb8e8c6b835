-- ===== src/Base/Lists.antt =====
-- Lists measured by native numbers, and membership tests on lists of texts.
use Prim.Native.Nat.{ℕ, zero, suc, ◌+◌, ◌≤◌}
use Prim.Native.String.{String}
use mathlib.Core.Path.{◌≡◌, refl, ap}
use mathlib.Core.Bool.{true, Bool, false, ◌||◌, ◌&&◌}
use mathlib.Core.List.{List, [], ◌∷◌, ◌++◌}
use native.Mathlib.Omega.{arith}
use community_storage.Base.Tests.{is_same, if◌then◌else◌}

module _ {ℓ} {A : Type ℓ} where
  abbrev pub length : List A → ℕ
  length [] = 0
  length (x ∷ xs) = suc (length xs)

  pub length-append : (xs ys : List A) → length (xs ++ ys) ≡ length xs + length ys
  length-append [] ys = omega arith
  length-append (x ∷ xs) ys = omega (arith, length-append xs ys)

  -- `xs.filter(p)`
  abbrev pub keep : (A → Bool) → List A → List A
  keep p [] = []
  keep p (x ∷ xs) = let rest = keep p xs in if p x then x ∷ rest else rest

  -- `xs.slice(0, n)`, and what it leaves off.
  abbrev pub take : ℕ → List A → List A
  take zero xs = []
  take (suc n) [] = []
  take (suc n) (x ∷ xs) = x ∷ take n xs

  abbrev pub drop : ℕ → List A → List A
  drop zero xs = xs
  drop (suc n) [] = []
  drop (suc n) (x ∷ xs) = drop n xs

  pub take-append-drop : (n : ℕ) (xs : List A) → take n xs ++ drop n xs ≡ xs
  take-append-drop zero xs = refl
  take-append-drop (suc n) [] = refl
  take-append-drop (suc n) (x ∷ xs) = ap (◌∷◌ x) (take-append-drop n xs)

  pub length-take : (n : ℕ) (xs : List A) → n ≤ length xs → length (take n xs) ≡ n
  length-take zero xs h = refl
  length-take (suc n) [] h = absurd (omega arith)
  length-take (suc n) (x ∷ xs) h = ap suc (length-take n xs (omega arith))

-- `addresses.includes(address)`
abbrev pub includes : List String → String → Bool
includes [] a = false
includes (x ∷ xs) a = is_same x a || includes xs a

-- No text is listed twice.
abbrev pub IsDistinct : List String → Type 0
IsDistinct [] = Unit
IsDistinct (x ∷ xs) = (includes xs x ≡ false) × IsDistinct xs

pub includes-append :
    (xs ys : List String) (a : String) → includes (xs ++ ys) a ≡ (includes xs a || includes ys a)
includes-append [] ys a = refl
includes-append (x ∷ xs) ys a = ground (arith, includes-append xs ys a)

pub keep-none :
    (p : String → Bool) (xs : List String)
    → ((x : String) → includes xs x ≡ true → p x ≡ false)
    → keep p xs ≡ []
keep-none p [] h = refl
keep-none p (x ∷ xs) h = rw (h x (ground arith), keep-none p xs (λ y i. h y (ground arith))) refl

pub includes-keep :
    (p : String → Bool) (xs : List String) (a : String)
    → includes (keep p xs) a ≡ (includes xs a && p a)
includes-keep p [] a = refl
includes-keep p (x ∷ xs) a = ground (arith, includes-keep p xs a)
