-- ===== src/Front/Download/Laws.antt =====
-- The first server that has a file, and the name under which it is saved.
use community_storage.Base.{
  ◌≡◌, refl, ℕ, String, true, ◌⊎◌, inl, inr, List, [], ◌∷◌, includes, is_same, Bool-cases, ok,
  arith, String_discrete,
}
use community_storage.Front.Upload.{UploadError}
use community_storage.Front.Download.{
  Servers, received, refused, saved, name_or_default, download_file_from_provider, save_from_first,
}

-- The server at `url` gives this content for `id`, or it fails without an exception.
abbrev pub GivesOrFails : Servers → String → List ℕ → String → Type 0
GivesOrFails servers id content url =
    (download_file_from_provider servers url id ≡ ok (received content))
    ⊎ ((e : UploadError) × (download_file_from_provider servers url id ≡ ok (refused e)))

pub name_or_default_twice : (v : String) → name_or_default (name_or_default v) ≡ name_or_default v
unfolding String_discrete
name_or_default_twice v = elim (Bool-cases (is_same v "")) [
  | inl e ↦ rw e refl
  | inr e ↦ rw e (rw e refl)
]

module _ (servers : Servers) (id name : String) (content : List ℕ) where
  pub save_from_first-available :
      (urls : List String)
      → ((url : String) → includes urls url ≡ true → GivesOrFails servers id content url)
      → (url : String) → includes urls url ≡ true
      → download_file_from_provider servers url id ≡ ok (received content)
      → save_from_first servers urls id name
        ≡ ok (saved (record { name = name_or_default name; content = content }))
  unfolding save_from_first
  save_from_first-available [] all url here gives = absurd (ground arith)
  save_from_first-available (u ∷ us) all url here gives = elim (all u (ground arith)) [
    | inl e ↦ rw e refl
    | inr (err, e) ↦
        rw e
          (save_from_first-available us (λ v h. all v (ground arith)) url (elsewhere err e) gives)
  ]
    where
      elsewhere :
          (err : UploadError)
          → download_file_from_provider servers u id ≡ ok (refused err)
          → includes us url ≡ true
      elsewhere err e = elim (String_discrete u url) [ yes p ↦ cc | no q ↦ ground arith ]
