-- ===== src/Front/FilesPage/Payment.antt =====
-- What an extension costs, and how it is shared between the providers.
use Prim.Native.Nat.{◌/◌}
use community_storage.Base.{
  ℕ, ◌+◌, ◌*◌, ◌≤◌, ◌<◌, ◌≡◌, subst, String, List, [], ◌∷◌, length, arith, ltb, Bool-cases, inl,
  inr,
}
use community_storage.Front.MyFiles.{StoredFile}
use community_storage.Front.FilesPage.{
  ExtendPayment, add_share, add_shares, add_entry, add_entries, compute_extend_payment,
  paid_providers,
}

abbrev pub sum_shares : List (String × ℕ) → ℕ
sum_shares [] = 0
sum_shares ((_, n) ∷ rest) = n + sum_shares rest

-- One for an entry that has a provider.
abbrev has_payee : List String → ℕ
has_payee [] = 0
has_payee (a ∷ rest) = 1

-- How many of these entries have a provider.
abbrev pub count_shared : List StoredFile → ℕ
count_shared [] = 0
count_shared (e ∷ entries) = has_payee (paid_providers e) + count_shared entries

-- How many shares an extension of these entries has.
abbrev pub count_shares : List StoredFile → ℕ
count_shares [] = 0
count_shares (e ∷ entries) = length (paid_providers e) + count_shares entries

sum-add_share :
    (addr : String) (share : ℕ) (l : List (String × ℕ))
    → sum_shares (add_share addr share l) ≡ sum_shares l + share
unfolding add_share
sum-add_share addr share [] = omega arith
sum-add_share addr share ((a, n) ∷ rest) = ground (arith, sum-add_share addr share rest)

sum-add_shares :
    (providers : List String) (share : ℕ) (l : List (String × ℕ))
    → sum_shares (add_shares providers share l) ≡ sum_shares l + length providers * share
unfolding add_shares
sum-add_shares [] share l = omega arith
sum-add_shares (a ∷ rest) share l =
    grind (arith, sum-add_share a share l, sum-add_shares rest share (add_share a share l))

div_bounds : (n k : ℕ) → 0 < k → (k * (n / k) ≤ n) × (n < k * (n / k) + k)
div_bounds n k h = (grind arith, grind arith)

add_entry-bounds :
    (price_nano : ℕ) (providers : List String) (p : ExtendPayment)
    → let q = add_entry price_nano providers p in
      (sum_shares q.by_provider + p.total_nano ≤ sum_shares p.by_provider + q.total_nano)
      × (sum_shares p.by_provider + q.total_nano + has_payee providers
          ≤ sum_shares q.by_provider + p.total_nano + length providers)
unfolding add_entry
add_entry-bounds price_nano [] p = (omega arith, omega arith)
add_entry-bounds price_nano (a ∷ rest) p =
    let k = length (a ∷ rest) in
    let d = div_bounds price_nano k (omega arith) in
    let s = sum-add_shares (a ∷ rest) (price_nano / k) p.by_provider in
    elim (Bool-cases (ltb 0 (price_nano / k))) [
      | inl e ↦ rw e (omega arith, omega arith)
      | inr e ↦
          let none_ : price_nano / k ≡ 0 = ground arith in
          let small : price_nano < k * 0 + k = subst (λ t. price_nano < k * t + k) none_ d.1 in
          rw e (omega arith, omega arith)
    ]

module _ (price : StoredFile → ℕ → ℕ) where
  add_entries-bounds :
      (entries : List StoredFile) (months : ℕ) (p : ExtendPayment)
      → let q = add_entries price entries months p in
        (sum_shares q.by_provider + p.total_nano ≤ sum_shares p.by_provider + q.total_nano)
        × (sum_shares p.by_provider + q.total_nano + count_shared entries
            ≤ sum_shares q.by_provider + p.total_nano + count_shares entries)
  unfolding add_entries
  add_entries-bounds [] months p = (omega arith, omega arith)
  add_entries-bounds (e ∷ entries) months p =
      let first = add_entry (price e months) (paid_providers e) p in
      let (a, b) = add_entry-bounds (price e months) (paid_providers e) p in
      let (c, d) = add_entries-bounds entries months first in (omega arith, omega arith)

-- The shares of the providers are together never more than the total to pay, and what the divisions
-- lose of it is together at most one nanoMAS less than the number of providers, for each entry that
-- has a provider.
pub extend_payment-bounds :
    (price : StoredFile → ℕ → ℕ) (entries : List StoredFile) (months : ℕ)
    → let p = compute_extend_payment price entries months in
      (sum_shares p.by_provider ≤ p.total_nano)
      × (p.total_nano + count_shared entries ≤ sum_shares p.by_provider + count_shares entries)
unfolding compute_extend_payment
extend_payment-bounds price entries months =
    let (a, b) =
      add_entries-bounds price entries months (record { total_nano = 0; by_provider = [] }) in
    (omega arith, omega arith)
