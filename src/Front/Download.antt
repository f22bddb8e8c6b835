-- ===== src/Front/Download.antt =====
-- Getting a file back from the providers' servers: front/src/lib/downloadFromProvider.js, and the
-- button of front/src/pages/MyFiles.jsx that asks for it. The servers' answers, and what is a URL, are
-- arguments.
pub mod Laws
pub mod Stored
use community_storage.Base.{
  ℕ, String, Bool, true, false, not, Option, none, some, List, [], ◌∷◌, get_or, is_same, Result, ok,
  abort, ◌>>=◌, if◌then◌else◌,
}
use community_storage.Front.Upload.{UploadError, http, message, error_text, error_or}
use community_storage.Front.MyFiles.{StoredFile}

-- `res.ok`, `res.status`, the field `error` of the body where it is JSON and has it, and the body,
-- whose reading may throw.
pub record DownloadResponse : Type 0 where
  pub is_ok : Bool
  pub status : ℕ
  pub json_error : Option String
  pub blob : Result String (List ℕ)

-- `is_url` tells whether `new URL` takes a base address; `get` is
-- `GET {base_url}/download?namespace=community&id={id}`.
pub record Servers : Type 0 where
  pub is_url : String → Bool
  pub get : (base_url id : String) → Result String DownloadResponse

-- `{ ok: true, blob }` or `{ ok: false, error }`
pub data Received : Type 0 where
  received : List ℕ → Received
  refused : UploadError → Received

abbrev received_or : Result String (List ℕ) → Received
received_or (ok content) = received content
received_or (abort e) = refused (message (error_text e))

abbrev response_error : DownloadResponse → UploadError
response_error res = error_or res.status res.json_error

abbrev answer_of : Result String DownloadResponse → Received
answer_of (abort e) = refused (message (error_text e))
answer_of (ok res) = if res.is_ok then received_or res.blob else refused (response_error res)

-- The address is parsed before the `try`, so one that is no URL throws.
unfoldable pub download_file_from_provider :
    Servers → (base_url storage_id : String) → Result String Received
download_file_from_provider servers base_url storage_id =
    if servers.is_url base_url
    then ok (answer_of (servers.get base_url storage_id))
    else abort "Invalid URL"

-- A file that the browser saves.
pub record SavedFile : Type 0 where
  pub name : String
  pub content : List ℕ

-- `{ ok: true }`, with what was saved, or `{ ok: false, error }`
pub data Saved : Type 0 where
  saved : SavedFile → Saved
  not_saved : String → Saved

-- `fileName || 'fichier'`
abbrev pub name_or_default : String → String
name_or_default name = if is_same name "" then "fichier" else name

abbrev saved_or : String → Received → Result String Saved → Result String Saved
saved_or file_name (received content) rest =
    ok (saved (record { name = name_or_default file_name; content = content }))
saved_or file_name (refused _) rest = rest

-- The loop over the servers.
unfoldable pub save_from_first :
    Servers → List String → (storage_id file_name : String) → Result String Saved
save_from_first servers [] storage_id file_name =
    ok (not_saved "Impossible de récupérer le fichier depuis les providers.")
save_from_first servers (base_url ∷ base_urls) storage_id file_name =
    let rest = save_from_first servers base_urls storage_id file_name in
    download_file_from_provider servers base_url storage_id >>= λ result.
    saved_or file_name result rest

unfoldable pub download_and_save_from_provider :
    Servers → List String → (storage_id file_name : String) → Result String Saved
unfolding save_from_first
download_and_save_from_provider servers [] storage_id file_name =
    ok (not_saved "Aucun provider connu pour ce fichier.")
download_and_save_from_provider servers (url ∷ urls) storage_id file_name =
    save_from_first servers (url ∷ urls) storage_id file_name

-- `uploadedTo` and `id` are there: the file comes from a server, or else a text stands for it.
abbrev pub can_download : StoredFile → Bool
can_download entry = elim entry.uploaded_to [
  | none ↦ false
  | some urls ↦ elim urls [ [] ↦ false | url ∷ rest ↦ not (is_same entry.id "") ]
]

-- What the button saves; `placeholder` is the content of the text that describes an entry.
unfoldable pub handle_download :
    Servers → (placeholder : StoredFile → List ℕ) → StoredFile → Result String Saved
unfolding download_and_save_from_provider
handle_download servers placeholder entry =
    if can_download entry
    then download_and_save_from_provider servers (get_or [] entry.uploaded_to) entry.id
        (name_or_default entry.name)
    else ok (saved (record { name = name_or_default entry.name; content = placeholder entry }))
