-- ===== src/Registry/Uploaders/Totals.antt =====
-- The total of `getTotalBookedGbAcrossUploaders`, which passes over repeated entries of the index.
use community_storage.Base.{
  ℕ, ◌+◌, ◌%◌, ◌<◌, ◌≡◌, ◌≢◌, refl, String, Bool, true, false, not, ◌&&◌, List, [], ◌∷◌, ◌++◌,
  arith, includes, IsDistinct, includes-append, if◌then◌else◌, add64, u64_mod, Bool-cases, inl, inr,
}
use community_storage.State.{State}
use community_storage.Registry.{
  get_booked_uploader_gb, get_uploader_index, sum_booked, get_total_booked_gb_across_uploaders,
}

-- The sum of `f` over a list.
abbrev pub sum_of : (String → ℕ) → List String → ℕ
sum_of f [] = 0
sum_of f (a ∷ as_) = f a + sum_of f as_

-- A list with each entry once: the last of each remains.
abbrev pub unique : List String → List String
unique [] = []
unique (a ∷ as_) = if includes as_ a then unique as_ else a ∷ unique as_

-- The sum that the loop makes, before any wrap-around.
abbrev sum_new : (String → ℕ) → List String → List String → ℕ
sum_new f seen [] = 0
sum_new f seen (a ∷ as_) = (if includes seen a then 0 else f a) + sum_new f (seen ++ a ∷ []) as_

sum_booked-mod :
    (s : State) (seen as_ : List String) (total : ℕ)
    → sum_booked s seen as_ total % u64_mod
      ≡ (total + sum_new (get_booked_uploader_gb s) seen as_) % u64_mod
unfolding sum_booked add64
sum_booked-mod s seen [] total = omega arith
sum_booked-mod s seen (a ∷ as_) total = elim (Bool-cases (includes seen a)) [
  | inl old ↦ rw old (omega (arith, sum_booked-mod s (seen ++ a ∷ []) as_ total))
  | inr new ↦
      let f = get_booked_uploader_gb s in
      let rest = sum_booked-mod s (seen ++ a ∷ []) as_ (add64 total (f a)) in rw new (omega arith)
]

sum_booked-IsU64 :
    (s : State) (seen as_ : List String) (total : ℕ)
    → total < u64_mod
    → sum_booked s seen as_ total < u64_mod
unfolding sum_booked
sum_booked-IsU64 s seen [] total h = h
sum_booked-IsU64 s seen (a ∷ as_) total h =
    sum_booked-IsU64 s (seen ++ a ∷ []) as_ _ (round (includes seen a))
  where
    round : (b : Bool) → (if b then total else add64 total (get_booked_uploader_gb s a)) < u64_mod
    round true = h
    round false = unfold add64 in omega arith

-- The sum over a list without the entries of another.
abbrev sum_outside : (String → ℕ) → List String → List String → ℕ
sum_outside f seen [] = 0
sum_outside f seen (a ∷ as_) = (if includes seen a then 0 else f a) + sum_outside f seen as_

includes-unique : (as_ : List String) (a : String) → includes (unique as_) a ≡ includes as_ a
includes-unique [] a = refl
includes-unique (b ∷ as_) a = ground (arith, includes-unique as_ a)

unique-IsDistinct : (as_ : List String) → IsDistinct (unique as_)
unique-IsDistinct [] = tt
unique-IsDistinct (b ∷ as_) = ground (arith, includes-unique as_ b, unique-IsDistinct as_)

module _ (f : String → ℕ) where
  sum_outside-nil : (as_ : List String) → sum_outside f [] as_ ≡ sum_of f as_
  sum_outside-nil [] = refl
  sum_outside-nil (a ∷ as_) = omega (arith, sum_outside-nil as_)

  -- An entry of a list without repetitions can be taken out of its sum.
  sum_outside-split :
      (seen : List String) (a : String) (as_ : List String)
      → IsDistinct as_
      → sum_outside f seen as_
        ≡ (if includes as_ a && not (includes seen a) then f a else 0)
          + sum_outside f (seen ++ a ∷ []) as_
  sum_outside-split seen a [] d = refl
  sum_outside-split seen a (b ∷ as_) d =
      ground (arith, includes-append seen (a ∷ []) b, sum_outside-split seen a as_)

  sum_new-eq : (seen as_ : List String) → sum_new f seen as_ ≡ sum_outside f seen (unique as_)
  sum_new-eq seen [] = refl
  sum_new-eq seen (a ∷ as_) = ground (
    arith,
    sum_new-eq (seen ++ a ∷ []) as_,
    sum_outside-split seen a (unique as_) (unique-IsDistinct as_),
    includes-unique as_ a,
    includes-append seen (a ∷ []) a,
  )

  -- A sum without repetitions after a change at one entry.
  pub sum_of-change :
      (f' : String → ℕ) (c : String) (as_ : List String)
      → ((a : String) → a ≢ c → f' a ≡ f a)
      → IsDistinct as_
      → sum_of f' as_ + (if includes as_ c then f c else 0)
        ≡ sum_of f as_ + (if includes as_ c then f' c else 0)
  sum_of-change f' c [] h d = refl
  sum_of-change f' c (a ∷ as_) h d = ground (arith, h a, sum_of-change f' c as_ h)

  pub sum_of-unique-change :
      (f' : String → ℕ) (c : String) (as_ : List String)
      → ((a : String) → a ≢ c → f' a ≡ f a)
      → sum_of f' (unique as_) + (if includes as_ c then f c else 0)
        ≡ sum_of f (unique as_) + (if includes as_ c then f' c else 0)
  sum_of-unique-change f' c as_ h =
      ground
        (arith, includes-unique as_ c, sum_of-change f' c (unique as_) h (unique-IsDistinct as_))

  pub sum_of-unique-push :
      (c : String) (as_ : List String)
      → includes as_ c ≡ false
      → sum_of f (unique (as_ ++ c ∷ [])) ≡ sum_of f (unique as_) + f c
  sum_of-unique-push c [] h = omega arith
  sum_of-unique-push c (a ∷ as_) h =
      ground (arith, includes-append as_ (c ∷ []) a, sum_of-unique-push c as_)

-- The total of the bookings is the sum, modulo 2^64, of the bookings of the addresses in the index,
-- each counted once however often the index repeats it.
pub total_booked-eq-sum :
    (s : State)
    → get_total_booked_gb_across_uploaders s
      ≡ sum_of (get_booked_uploader_gb s) (unique (get_uploader_index s)) % u64_mod
unfolding get_total_booked_gb_across_uploaders
total_booked-eq-sum s =
    let index = get_uploader_index s in
    let f = get_booked_uploader_gb s in
    omega (
      arith,
      sum_booked-mod s [] index 0,
      sum_booked-IsU64 s [] index 0 (omega arith),
      sum_new-eq f [] index,
      sum_outside-nil f (unique index),
    )
