-- ===== src/Tests/MyFiles.antt =====
-- A wallet with one file, at which another is added, removed and renamed.
use community_storage.Base.{
  ◌≡◌, refl, String, false, none, some, List, [], ◌∷◌, ◌++◌, empty, set, String_discrete, Option,
  is_same,
}
use community_storage.Front.MyFiles.{
  StoredFile, LocalStorage, files, storage_key, get_stored_files, add_stored_files,
  remove_stored_files,
}
use community_storage.Front.MyFiles.Laws.{ids_of, IsFresh, add-get, add-remove}

abbrev photo : StoredFile
photo = record {
  id = "f1";
  name = "photo.png";
  size = 2048;
  replication_count = 2;
  duration_months = 3;
  providers = "north" ∷ "south" ∷ [];
  provider_endpoints = none;
  uploaded_at = "2026-01-01";
  expires_at = "2026-04-01";
  uploader_address = "au12";
  uploaded_to = none;
}

abbrev film : StoredFile
film = record photo { id = "f2"; name = "film.mp4" }

abbrev key : String
key = "massa-storage-my-files-au12"

abbrev lower : String → String
lower wallet = wallet

abbrev browser : LocalStorage
browser = set String_discrete empty key (files (photo ∷ []))

key_found : storage_key lower (some "au12") ≡ some key
unfolding storage_key String_discrete
key_found = refl

abbrev files_now : LocalStorage → List StoredFile
files_now = get_stored_files lower (some "au12")

files_before : files_now browser ≡ photo ∷ []
unfolding get_stored_files storage_key String_discrete
files_before = refl

add-get_example :
    let (returned, after) = add_stored_files lower (some "au12") (film ∷ []) browser in
    (files_now after ≡ files_now browser ++ film ∷ [])
    × (returned ≡ files_now after)
    × ((other : Option String)
        → ((k : String) → storage_key lower other ≡ some k → is_same key k ≡ false)
        → get_stored_files lower other after ≡ get_stored_files lower other browser)
add-get_example = add-get lower (some "au12") key (film ∷ []) browser key_found

film-IsFresh : IsFresh (ids_of (film ∷ [])) (files_now browser)
unfolding get_stored_files storage_key String_discrete
film-IsFresh = (refl, tt)

add-remove_example :
    let added = (add_stored_files lower (some "au12") (film ∷ []) browser).1 in
    files_now (remove_stored_files lower (some "au12") ("f2" ∷ []) added).1 ≡ files_now browser
add-remove_example = add-remove lower (some "au12") key (film ∷ []) browser key_found film-IsFresh
