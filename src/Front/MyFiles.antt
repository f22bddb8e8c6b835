-- ===== src/Front/MyFiles.antt =====
-- The files of a wallet that the browser remembers: front/src/lib/myFilesStorage.js. The local
-- storage is a map from keys to cells; a cell holds the list that `JSON.parse` gives back for what
-- `JSON.stringify` made, or a text that is no such list.
pub mod Laws
use Prim.Native.String.{◌++◌ as ◌⊕◌}
use community_storage.Base.{
  ℕ, String, Bool, true, false, not, Option, none, some, List, [], ◌∷◌, ◌++◌, Map, set, get_or,
  includes, is_same, if◌then◌else◌, String_discrete,
}

pub record StoredFile : Type 0 where
  pub id : String
  pub name : String
  pub size : ℕ
  pub replication_count : ℕ
  pub duration_months : ℕ
  pub providers : List String
  pub provider_endpoints : Option (List String)
  pub uploaded_at : String
  pub expires_at : String
  pub uploader_address : String
  pub uploaded_to : Option (List String)

-- The second argument of an object spread: a field that is absent keeps its value.
pub record Updates : Type 0 where
  pub id : Option String
  pub name : Option String
  pub size : Option ℕ
  pub replication_count : Option ℕ
  pub duration_months : Option ℕ
  pub providers : Option (List String)
  pub provider_endpoints : Option (Option (List String))
  pub uploaded_at : Option String
  pub expires_at : Option String
  pub uploader_address : Option String
  pub uploaded_to : Option (Option (List String))

-- `{ ...file, ...updates }`
abbrev pub spread : StoredFile → Updates → StoredFile
spread file updates = record {
  id = get_or file.id updates.id;
  name = get_or file.name updates.name;
  size = get_or file.size updates.size;
  replication_count = get_or file.replication_count updates.replication_count;
  duration_months = get_or file.duration_months updates.duration_months;
  providers = get_or file.providers updates.providers;
  provider_endpoints = get_or file.provider_endpoints updates.provider_endpoints;
  uploaded_at = get_or file.uploaded_at updates.uploaded_at;
  expires_at = get_or file.expires_at updates.expires_at;
  uploader_address = get_or file.uploader_address updates.uploader_address;
  uploaded_to = get_or file.uploaded_to updates.uploaded_to;
}

pub data Cell : Type 0 where
  files : List StoredFile → Cell
  something_else : Cell

abbrev pub LocalStorage : Type 0
LocalStorage = Map String Cell

abbrev files_of : Option Cell → List StoredFile
files_of none = []
files_of (some something_else) = []
files_of (some (files list)) = list

abbrev pub filter : (StoredFile → Bool) → List StoredFile → List StoredFile
filter keep [] = []
filter keep (e ∷ es) = if keep e then e ∷ filter keep es else filter keep es

-- `findIndex` and the write at the index: the first entry with the id changes.
abbrev pub update_first : String → Updates → List StoredFile → Option (List StoredFile)
update_first id updates [] = none
update_first id updates (e ∷ es) =
    let rest = update_first id updates es in
    if is_same e.id id
    then some (spread e updates ∷ es)
    else elim rest [ none ↦ none | some list ↦ some (e ∷ list) ]

abbrev has_id : String → StoredFile → Bool
has_id id e = is_same e.id id

abbrev pub is_listed : List String → StoredFile → Bool
is_listed ids e = includes ids e.id

-- `normalise` is `trim().toLowerCase()`; a wallet is `none` if it is no text.
unfoldable pub storage_key : (String → String) → Option String → Option String
storage_key normalise none = none
storage_key normalise (some wallet) =
    if is_same wallet "" then none else some ("massa-storage-my-files-" ⊕ normalise wallet)

abbrev pub files_at : Option String → LocalStorage → List StoredFile
files_at none storage = []
files_at (some key) storage = files_of (storage key)

-- `localStorage.setItem(key, JSON.stringify(next))`, with what the function returns.
abbrev pub store_at : String → List StoredFile → LocalStorage → List StoredFile × LocalStorage
store_at key next storage = (next, set String_discrete storage key (files next))

-- The part that four of the functions share: no key, no change.
abbrev pub change_at :
    Option String
    → (List StoredFile → List StoredFile)
    → LocalStorage
    → List StoredFile × LocalStorage
change_at none change storage = ([], storage)
change_at (some key) change storage = store_at key (change (files_at (some key) storage)) storage

-- The end of `updateStoredFile`: without a file of that id, or without a key, no change.
abbrev pub write_at :
    Option String
    → List StoredFile
    → Option (List StoredFile)
    → LocalStorage
    → List StoredFile × LocalStorage
write_at key list none storage = (list, storage)
write_at none list (some next) storage = (list, storage)
write_at (some key) list (some next) storage = store_at key next storage

abbrev pub map_files : (StoredFile → StoredFile) → List StoredFile → List StoredFile
map_files f [] = []
map_files f (e ∷ es) = f e ∷ map_files f es

-- The files, and the functions that change them: what they return, and the storage after them.
-- `add_months` is the arithmetic of `Date` on the text of an expiry.
module _ (normalise : String → String) (wallet : Option String) where
  unfoldable pub get_stored_files : LocalStorage → List StoredFile
  get_stored_files storage = files_at (storage_key normalise wallet) storage

  unfoldable pub add_stored_files : List StoredFile → LocalStorage → List StoredFile × LocalStorage
  add_stored_files entries = change_at (storage_key normalise wallet) (λ list. list ++ entries)

  unfoldable pub update_stored_file :
      String → Updates → LocalStorage → List StoredFile × LocalStorage
  unfolding get_stored_files
  update_stored_file id updates storage =
      let list = get_stored_files storage in
      write_at (storage_key normalise wallet) list (update_first id updates list) storage

  unfoldable pub extend_stored_files :
      (String → ℕ → String) → List String → ℕ → LocalStorage → List StoredFile × LocalStorage
  extend_stored_files add_months ids months = change_at (storage_key normalise wallet) (
      map_files (λ e.
        if not (is_listed ids e)
        then e
        else record e { expires_at = add_months e.expires_at months }))

  unfoldable pub remove_stored_file : String → LocalStorage → List StoredFile × LocalStorage
  remove_stored_file id = change_at (storage_key normalise wallet) (filter (λ e. not (has_id id e)))

  unfoldable pub remove_stored_files : List String → LocalStorage → List StoredFile × LocalStorage
  remove_stored_files ids =
      change_at (storage_key normalise wallet) (filter (λ e. not (is_listed ids e)))
