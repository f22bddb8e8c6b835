-- ===== src/Front/Blocklist/Laws.antt =====
-- What is read of a blocklist after it was written, and what the selection of providers makes of it.
use mathlib.Core.List.{map}
use community_storage.Base.{
  ℕ, zero, suc, ◌≡◌, refl, ap, ◌∙◌, String, Bool, true, false, Option, List, [], ◌∷◌, keep, take,
  includes, is_same, arith, Bool-cases, inl, inr, if◌then◌else◌, ltb,
}
use community_storage.Front.Client.{StorageProvider}
use community_storage.Front.Store.{is_eligible, insert_provider, sort_providers, auto_selected}
use community_storage.Front.Blocklist.{
  text, Cells, Entries, Texts, nonempty, nonempty_texts, storage_key, list_of, get_blocklist,
  set_blocklist, get_blocklist_set, addresses, lines, nothing,
}

texts-nonempty : (xs : List String) → nonempty_texts (map text (nonempty xs)) ≡ nonempty xs
texts-nonempty [] = refl
texts-nonempty (x ∷ xs) = elim (Bool-cases (is_same x "")) [
  | inl e ↦ rw e (texts-nonempty xs)
  | inr e ↦ rw (e, e) (ap (λ l. x ∷ l) (texts-nonempty xs))
]

module _ (t : Texts) where
  texts-list_of :
      (entries : Entries) → nonempty_texts (map text (list_of t entries)) ≡ list_of t entries
  texts-list_of (addresses as_) = texts-nonempty (map t.trim as_)
  texts-list_of (lines raw) = texts-nonempty (map t.trim (t.split raw))
  texts-list_of nothing = refl

  module _ (wallet : Option String) (entries : Entries) (cells : Cells) where
    set-get-blocklist :
        (other : Option String)
        → get_blocklist t other (set_blocklist t wallet entries cells).1 ≡ (
            if is_same (storage_key t wallet) (storage_key t other)
            then list_of t entries
            else get_blocklist t other cells)
    unfolding get_blocklist set_blocklist
    set-get-blocklist other =
        elim (Bool-cases (is_same (storage_key t wallet) (storage_key t other))) [
          | inl e ↦ rw e (ground (arith, texts-list_of entries))
          | inr e ↦ rw e (ground arith)
        ]

    own-blocklist :
        get_blocklist t wallet (set_blocklist t wallet entries cells).1 ≡ list_of t entries
    own-blocklist = set-get-blocklist wallet ∙ ground arith

includes-map :
    (f : String → String) (xs : List String) (a : String)
    → includes xs a ≡ true
    → includes (map f xs) (f a) ≡ true
includes-map f [] a h = cc
includes-map f (x ∷ xs) a h = elim (Bool-cases (is_same x a)) [
  | inl e ↦ ground arith
  | inr e ↦ ground (arith, includes-map f xs a)
]

-- None of these has that address.
abbrev Without : String → List StorageProvider → Type 0
Without b l = includes (map (λ p. p.address) l) b ≡ false

module _ (b : String) where
  keep-Without :
      (f : StorageProvider → Bool) (l : List StorageProvider)
      → ((p : StorageProvider) → p.address ≡ b → f p ≡ false)
      → Without b (keep f l)
  keep-Without f [] h = refl
  keep-Without f (p ∷ rest) h = elim (Bool-cases (f p)) [
    | inl e ↦ rw e (ground (arith, h p, keep-Without f rest h))
    | inr e ↦ rw e (keep-Without f rest h)
  ]

  insert-Without :
      (p : StorageProvider) (l : List StorageProvider)
      → Without b (p ∷ l)
      → Without b (insert_provider p l)
  unfolding insert_provider
  insert-Without p [] h = h
  insert-Without p (q ∷ rest) h = elim (Bool-cases (ltb p.available_gb q.available_gb)) [
    | inl e ↦ rw e (ground (arith, insert-Without p rest))
    | inr e ↦ rw e h
  ]

  sort-Without : (l : List StorageProvider) → Without b l → Without b (sort_providers l)
  unfolding sort_providers
  sort-Without [] h = refl
  sort-Without (p ∷ rest) h =
      let others = sort-Without rest (ground arith) in
      insert-Without p (sort_providers rest) (ground arith)

  take-Without : (n : ℕ) (l : List StorageProvider) → Without b l → Without b (take n l)
  take-Without zero l h = refl
  take-Without (suc n) [] h = refl
  take-Without (suc n) (p ∷ rest) h = ground (arith, take-Without n rest)

-- A provider that a wallet has put on its blocklist, in whatever case it writes the address, is never
-- selected for its files, whatever the list held before.
pub blocked-unselected :
    (t : Texts) (wallet : Option String) (entries : Entries) (cells : Cells) (count : ℕ)
    (providers : List StorageProvider) (a b : String)
    → includes (list_of t entries) a ≡ true
    → t.lower b ≡ t.lower a
    → includes
        (auto_selected t.lower
          (get_blocklist_set t wallet (set_blocklist t wallet entries cells).1)
          count
          providers)
        b
      ≡ false
unfolding auto_selected
blocked-unselected t wallet entries cells count providers a b listed same =
    let blocked = get_blocklist_set t wallet (set_blocklist t wallet entries cells).1 in
    let is_blocked : blocked (t.lower b) ≡ true = blocks t wallet entries cells a b listed same in
    let eligible = keep (is_eligible t.lower blocked) providers in
    take-Without b count (sort_providers eligible) (
      sort-Without b eligible (
        keep-Without b (is_eligible t.lower blocked) providers
          (λ p e. refused t.lower blocked p b e is_blocked)))
  where
    blocks :
        (u : Texts) (w : Option String) (es : Entries) (cs : Cells) (x y : String)
        → includes (list_of u es) x ≡ true
        → u.lower y ≡ u.lower x
        → get_blocklist_set u w (set_blocklist u w es cs).1 (u.lower y) ≡ true
    blocks u w es cs x y h e =
        unfold get_blocklist_set in
        rw (own-blocklist u w es cs, e) (includes-map u.lower (list_of u es) x h)

    refused :
        (lower : String → String) (bl : String → Bool) (p : StorageProvider) (y : String)
        → p.address ≡ y
        → bl (lower y) ≡ true
        → is_eligible lower bl p ≡ false
    refused lower bl p y e h = unfold is_eligible in ground arith
