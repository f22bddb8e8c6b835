-- ===== src/Front/Store/Selected.antt =====
-- The providers that the page chooses.
use mathlib.Core.Bool.{Bool-set}
use mathlib.Core.List.{not-mem-nil, mem-append_left, Mem, Perm, map, eq-or-mem_of_mem-cons}
use mathlib.Core.List.Perm
use mathlib.Core.Logic.Or
use native.Mathlib.Bridge.{le_prop}
use community_storage.Base.{
  ℕ, zero, suc, ◌≤◌, ◌≡◌, refl, sym, ap, ◌∙◌, subst, String, Bool, true, List, [], ◌∷◌, ◌++◌,
  length, keep, take, drop, take-append-drop, length-take, ltb, arith, Bool-cases, inl, inr,
}
use community_storage.Front.Client.{StorageProvider}
use community_storage.Front.Store.{is_eligible, insert_provider, sort_providers, auto_selected}

-- All of these have no more room than that.
abbrev AtMost : ℕ → List StorageProvider → Type 0
AtMost n [] = Unit
AtMost n (p ∷ rest) = (p.available_gb ≤ n) × AtMost n rest

-- The one with most room first.
abbrev IsDescending : List StorageProvider → Type 0
IsDescending [] = Unit
IsDescending (p ∷ rest) = AtMost p.available_gb rest × IsDescending rest

AtMost-le : (m n : ℕ) (l : List StorageProvider) → m ≤ n → AtMost m l → AtMost n l
AtMost-le m n [] h k = tt
AtMost-le m n (p ∷ rest) h (a, k) = (omega arith, AtMost-le m n rest h k)

insert-AtMost :
    (n : ℕ) (p : StorageProvider) (l : List StorageProvider)
    → p.available_gb ≤ n
    → AtMost n l
    → AtMost n (insert_provider p l)
unfolding insert_provider
insert-AtMost n p [] h k = (h, tt)
insert-AtMost n p (q ∷ rest) h (a, k) = elim (Bool-cases (ltb p.available_gb q.available_gb)) [
  | inl e ↦ rw e (a, insert-AtMost n p rest h k)
  | inr e ↦ rw e (h, (a, k))
]

insert-IsDescending :
    (p : StorageProvider) (l : List StorageProvider)
    → IsDescending l
    → IsDescending (insert_provider p l)
unfolding insert_provider
insert-IsDescending p [] d = (tt, tt)
insert-IsDescending p (q ∷ rest) (a, d) = elim (Bool-cases (ltb p.available_gb q.available_gb)) [
  | inl e ↦
      rw e (insert-AtMost q.available_gb p rest (ground arith) a, insert-IsDescending p rest d)
  | inr e ↦
      let le : q.available_gb ≤ p.available_gb = ground arith in
      rw e ((le, AtMost-le q.available_gb p.available_gb rest le a), (a, d))
]

sort-IsDescending : (l : List StorageProvider) → IsDescending (sort_providers l)
unfolding sort_providers
sort-IsDescending [] = tt
sort-IsDescending (p ∷ rest) = insert-IsDescending p (sort_providers rest) (sort-IsDescending rest)

insert-perm : (p : StorageProvider) (l : List StorageProvider) → Perm (insert_provider p l) (p ∷ l)
unfolding insert_provider
insert-perm p [] = Perm.rfl
insert-perm p (q ∷ rest) = elim (Bool-cases (ltb p.available_gb q.available_gb)) [
  | inl e ↦ rw e (Perm.trans (Perm.cons q (insert-perm p rest)) (Perm.swap p q rest))
  | inr e ↦ rw e Perm.rfl
]

sort-perm : (l : List StorageProvider) → Perm (sort_providers l) l
unfolding sort_providers
sort-perm [] = Perm.rfl
sort-perm (p ∷ rest) =
    Perm.trans (insert-perm p (sort_providers rest)) (Perm.cons p (sort-perm rest))

length-insert :
    (p : StorageProvider) (l : List StorageProvider) → length (insert_provider p l) ≡ suc (length l)
unfolding insert_provider
length-insert p [] = refl
length-insert p (q ∷ rest) = ground (arith, length-insert p rest)

length-sort : (l : List StorageProvider) → length (sort_providers l) ≡ length l
unfolding sort_providers
length-sort [] = refl
length-sort (p ∷ rest) = length-insert p (sort_providers rest) ∙ ap suc (length-sort rest)

AtMost-mem :
    (n : ℕ) (l : List StorageProvider) (q : StorageProvider)
    → AtMost n l
    → Mem q l
    → q.available_gb ≤ n
AtMost-mem n [] q h m = absurd (not-mem-nil m)
AtMost-mem n (p ∷ rest) q (a, h) m =
    Or.elim le_prop (eq-or-mem_of_mem-cons m) (λ e. omega (arith, ap (λ x. x.available_gb) e))
      (AtMost-mem n rest q h)

AtMost-drop : (n k : ℕ) (l : List StorageProvider) → AtMost n l → AtMost n (drop k l)
AtMost-drop n zero l h = h
AtMost-drop n (suc k) [] h = tt
AtMost-drop n (suc k) (p ∷ rest) (_, h) = AtMost-drop n k rest h

-- What is taken has no less room than what is left off.
take-best :
    (k : ℕ) (l : List StorageProvider) (p q : StorageProvider)
    → IsDescending l
    → Mem p (take k l)
    → Mem q (drop k l)
    → q.available_gb ≤ p.available_gb
take-best zero l p q d m n = absurd (not-mem-nil m)
take-best (suc k) [] p q d m n = absurd (not-mem-nil m)
take-best (suc k) (x ∷ rest) p q (a, d) m n =
    Or.elim le_prop (eq-or-mem_of_mem-cons m)
      (λ e.
        subst (λ y. q.available_gb ≤ y.available_gb) (sym e)
          (AtMost-mem x.available_gb (drop k rest) q (AtMost-drop x.available_gb k rest a) n))
      (λ m'. take-best k rest p q d m' n)

keep-mem :
    (f : StorageProvider → Bool) (l : List StorageProvider) (p : StorageProvider)
    → Mem p (keep f l)
    → f p ≡ true
keep-mem f [] p m = absurd (not-mem-nil m)
keep-mem f (x ∷ rest) p m = elim (Bool-cases (f x)) [
  | inl e ↦
      let there : Mem p (x ∷ keep f rest) = rw e at m in
      Or.elim (Bool-set (f p) true) (eq-or-mem_of_mem-cons there) (λ same. ap f same ∙ e)
        (keep-mem f rest p)
  | inr e ↦ let there : Mem p (keep f rest) = rw e at m in keep-mem f rest p there
]

-- The page selects the addresses of the eligible providers with the most room: they are as many as
-- the replication asks for, where there are so many, each is eligible, together with the others
-- they are all the eligible providers, and none of the others has more room than one of them.
pub auto_selected-best :
    (lower : String → String) (blocked : String → Bool) (count : ℕ)
    (providers : List StorageProvider)
    → let eligible = keep (is_eligible lower blocked) providers in
      (chosen : List StorageProvider) × (others : List StorageProvider) × (auto_selected lower
          blocked count providers
        ≡ map (λ p. p.address) chosen)
      × Perm (chosen ++ others) eligible
      × (count ≤ length eligible → length chosen ≡ count)
      × ((p : StorageProvider) → Mem p chosen → is_eligible lower blocked p ≡ true)
      × ((p q : StorageProvider) → Mem p chosen → Mem q others → q.available_gb ≤ p.available_gb)
unfolding auto_selected
auto_selected-best lower blocked count providers =
    let eligible = keep (is_eligible lower blocked) providers in
    let sorted = sort_providers eligible in
    let whole =
      subst (λ l. Perm l eligible) (sym (take-append-drop count sorted)) (sort-perm eligible) in
    (
      take count sorted,
      drop count sorted,
      refl,
      whole,
      (λ enough. length-take count sorted (omega (arith, length-sort eligible))),
      (λ p m.
          keep-mem (is_eligible lower blocked) providers p
            ((Perm.mem_iff whole).0 (mem-append_left (drop count sorted) m))),
      (λ p q m n. take-best count sorted p q (sort-IsDescending eligible) m n),
    )
