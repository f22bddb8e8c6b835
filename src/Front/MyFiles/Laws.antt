-- ===== src/Front/MyFiles/Laws.antt =====
-- The functions of front/src/lib/myFilesStorage.js, as the wallets see them.
use mathlib.Core.List.{append-nil}
use community_storage.Base.{
  ◌≡◌, refl, ap, ◌∙◌, sym, subst, String, Bool, true, false, not, Option, none, some, List, [], ◌∷◌,
  ◌++◌, includes, is_same, arith, Option-cases, Bool-cases, inl, inr, ◌⊎◌,
}
use community_storage.Front.MyFiles.{
  StoredFile, Updates, spread, update_first, update_stored_file, LocalStorage, filter, is_listed,
  files_at, store_at, write_at, storage_key, get_stored_files, add_stored_files,
  remove_stored_files,
}

abbrev pub ids_of : List StoredFile → List String
ids_of [] = []
ids_of (e ∷ es) = e.id ∷ ids_of es

module _ (key : String) (next : List StoredFile) (storage : LocalStorage) where
  files_at-store : files_at (some key) (store_at key next storage).1 ≡ next
  files_at-store = ground arith

  files_at-store_other :
      (other : Option String)
      → ((k : String) → other ≡ some k → is_same key k ≡ false)
      → files_at other (store_at key next storage).1 ≡ files_at other storage
  files_at-store_other none apart = refl
  files_at-store_other (some k) apart = ground (arith, apart k refl)

-- For a wallet that has a key, the files that are added stand behind those it had, and the function
-- returns the whole list that the wallet has then; the files of every wallet with another key, or
-- with none, stay.
pub add-get :
    (normalise : String → String) (wallet : Option String) (key : String)
    (entries : List StoredFile) (storage : LocalStorage)
    → storage_key normalise wallet ≡ some key
    → let (returned, after) = add_stored_files normalise wallet entries storage in
      (get_stored_files normalise wallet after
        ≡ get_stored_files normalise wallet storage ++ entries)
      × (returned ≡ get_stored_files normalise wallet after)
      × ((other : Option String)
          → ((k : String) → storage_key normalise other ≡ some k → is_same key k ≡ false)
          → get_stored_files normalise other after ≡ get_stored_files normalise other storage)
unfolding add_stored_files get_stored_files
add-get normalise wallet key entries storage e =
    let list = files_at (some key) storage ++ entries in
    let stored = files_at-store key list storage in
    rw e (
      stored,
      sym stored,
      λ other. files_at-store_other key list storage (storage_key normalise other),
    )

filter-append :
    (keep : StoredFile → Bool) (xs ys : List StoredFile)
    → filter keep (xs ++ ys) ≡ filter keep xs ++ filter keep ys
filter-append keep [] ys = refl
filter-append keep (x ∷ xs) ys = ground (arith, filter-append keep xs ys)

-- No file of a list has one of the identifiers.
abbrev pub IsFresh : List String → List StoredFile → Type 0
IsFresh ids [] = Unit
IsFresh ids (e ∷ es) = (is_listed ids e ≡ false) × IsFresh ids es

filter-IsFresh :
    (ids : List String) (es : List StoredFile)
    → IsFresh ids es
    → filter (λ e. not (is_listed ids e)) es ≡ es
filter-IsFresh ids [] h = refl
filter-IsFresh ids (e ∷ es) h = rw h.0 (ap (λ x. e ∷ x) (filter-IsFresh ids es h.1))

-- The files with the identifiers of a list that they are in are all filtered out.
filter-ids_of :
    (ids : List String) (es : List StoredFile)
    → ((i : String) → includes (ids_of es) i ≡ true → includes ids i ≡ true)
    → filter (λ e. not (is_listed ids e)) es ≡ []
filter-ids_of ids [] h = refl
filter-ids_of ids (e ∷ es) h =
    rw (h e.id (ground arith)) (filter-ids_of ids es (λ i m. h i (ground arith)))

-- Removing the files that were added gives back the files of the wallet, if none of them had one
-- of the identifiers.
pub add-remove :
    (normalise : String → String) (wallet : Option String) (key : String)
    (entries : List StoredFile) (storage : LocalStorage)
    → storage_key normalise wallet ≡ some key
    → IsFresh (ids_of entries) (get_stored_files normalise wallet storage)
    → let added = (add_stored_files normalise wallet entries storage).1 in
      let left = (remove_stored_files normalise wallet (ids_of entries) added).1 in
      get_stored_files normalise wallet left ≡ get_stored_files normalise wallet storage
unfolding add_stored_files remove_stored_files get_stored_files
add-remove normalise wallet key entries storage e fresh =
    let ids = ids_of entries in
    let before = files_at (some key) storage in
    let added = store_at key (before ++ entries) storage in
    let kept = filter-IsFresh ids before (subst (λ k. IsFresh ids (files_at k storage)) e fresh) in
    let gone = filter-ids_of ids entries (λ i m. m) in
    rw e (
      files_at-store key _ added.1
      ∙ ap (filter (λ f. not (is_listed ids f))) (files_at-store key (before ++ entries) storage)
      ∙ filter-append (λ f. not (is_listed ids f)) before entries
      ∙ (λ i. kept i ++ gone i)
      ∙ append-nil before)

-- The list before the first file with an identifier, that file, and the list behind it.
pub record Split (id : String) (es : List StoredFile) : Type 0 where
  pub before : List StoredFile
  pub file : StoredFile
  pub behind : List StoredFile
  pub whole : es ≡ before ++ (file ∷ behind)
  pub found : file.id ≡ id
  pub fresh : IsFresh (id ∷ []) before

abbrev pub Updated : String → Updates → List StoredFile → List StoredFile → Type 0
Updated id updates es next =
    (p : Split id es) × (next ≡ p.before ++ (spread p.file updates ∷ p.behind))

update_first-none :
    (id : String) (updates : Updates) (es : List StoredFile)
    → update_first id updates es ≡ none
    → IsFresh (id ∷ []) es
update_first-none id updates [] h = tt
update_first-none id updates (e ∷ es) h =
    (ground arith, update_first-none id updates es (ground arith))

update_first-some :
    (id : String) (updates : Updates) (es : List StoredFile) {next : List StoredFile}
    → update_first id updates es ≡ some next
    → Updated id updates es next
update_first-some id updates [] h = cc
update_first-some id updates (e ∷ es) h = elim (Bool-cases (is_same e.id id)) [
  | inl here ↦ (
    record { before = []; file = e; behind = es; whole = refl; found = ground arith; fresh = tt },
    ground arith,
  )
  | inr apart ↦ elim (Option-cases (update_first id updates es)) [
    | inl missing ↦ ground arith
    | inr (rest, later) ↦
        let (p, e') = update_first-some id updates es later in
        (
          record {
            before = e ∷ p.before;
            file = p.file;
            behind = p.behind;
            whole = ap (λ x. e ∷ x) p.whole;
            found = p.found;
            fresh = (ground arith, p.fresh);
          },
          ground arith,
        )
  ]
]

-- An update changes the first file of the wallet with the identifier and no other, and returns the
-- files after it; if the wallet has no such file the storage stays.
pub update-get :
    (normalise : String → String) (wallet : Option String) (key id : String) (updates : Updates)
    (storage : LocalStorage)
    → storage_key normalise wallet ≡ some key
    → let list = get_stored_files normalise wallet storage in
      let (returned, after) = update_stored_file normalise wallet id updates storage in
      (returned ≡ get_stored_files normalise wallet after)
      × ((IsFresh (id ∷ []) list × (after ≡ storage)) ⊎ Updated id updates list returned)
unfolding update_stored_file get_stored_files
update-get normalise wallet key id updates storage e =
    let list = files_at (some key) storage in rw e (outcome (update_first id updates list) refl)
  where
    outcome :
        (o : Option (List StoredFile))
        → update_first id updates (files_at (some key) storage) ≡ o
        → let (returned, after) = write_at (some key) (files_at (some key) storage) o storage in
          (returned ≡ files_at (some key) after)
          × ((IsFresh (id ∷ []) (files_at (some key) storage) × (after ≡ storage))
              ⊎ Updated id updates (files_at (some key) storage) returned)
    outcome none missing =
        (refl, inl (update_first-none id updates (files_at (some key) storage) missing, refl))
    outcome (some next) made = (
      sym (files_at-store key next storage),
      inr (update_first-some id updates (files_at (some key) storage) made),
    )
