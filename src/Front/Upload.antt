-- ===== src/Front/Upload.antt =====
-- Sending a file to the providers' servers: front/src/lib/uploadToProvider.js. The hash, the wallet's
-- signature and the server's answer are arguments. An endpoint is a URL: one that is none throws before
-- the `try` of the source, which is left out.
pub mod Laws
use mathlib.Core.List.{map}
use community_storage.Base.{
  ℕ, String, Bool, true, false, not, Option, none, some, List, [], ◌∷◌, get_or, is_same, Result, ok,
  abort, ◌>>=◌, if◌then◌else◌,
}

pub record File : Type 0 where
  pub name : String
  pub size : ℕ
  pub content : List ℕ

-- The address whose files are uploaded, and `sign`: the signature and the public key, or an exception.
pub record Signer : Type 0 where
  pub address : String
  pub sign : String → Result String (String × String)

-- `X-Massa-Address`, `X-Massa-Signature` and `X-Massa-Public-Key`.
pub record SignedHeaders : Type 0 where
  pub address : String
  pub signature : String
  pub public_key : String

-- `POST {base_url}/upload?namespace=community&id={id}`
pub record UploadRequest : Type 0 where
  pub base_url : String
  pub id : String
  pub body : List ℕ
  pub signed : Option SignedHeaders

-- `res.ok`, `res.status`, and the fields `error` and `id` of the body, where it is JSON and has them.
pub record Response : Type 0 where
  pub is_ok : Bool
  pub status : ℕ
  pub json_error : Option String
  pub json_id : Option String

pub data UploadError : Type 0 where
  http : ℕ → UploadError
  message : String → UploadError

-- `{ ok: true, id }` or `{ ok: false, error }`
pub data Sent : Type 0 where
  accepted : String → Sent
  refused : UploadError → Sent

-- The server, the hash with its hexadecimal form, and `String.prototype.trim`.
pub record Network : Type 0 where
  pub post : UploadRequest → Result String Response
  pub hash_hex : List ℕ → String
  pub trim : String → String

-- `e?.message || 'Erreur réseau'`
abbrev pub error_text : String → String
error_text e = if is_same e "" then "Erreur réseau" else e

-- `if (json.error) err = json.error`, before which `err` is the status.
abbrev pub error_or : ℕ → Option String → UploadError
error_or status none = http status
error_or status (some e) = if is_same e "" then http status else message e

-- `data.id || storageId`
abbrev filled_or : String → Option String → String
filled_or d none = d
filled_or d (some id) = if is_same id "" then d else id

abbrev error_of : Response → UploadError
error_of res = error_or res.status res.json_error

-- What an answer of the server means, or the exception that came in its place.
unfoldable pub answer_of : String → Result String Response → Sent
answer_of storage_id (abort e) = refused (message (error_text e))
answer_of storage_id (ok res) =
    if res.is_ok then accepted (filled_or storage_id res.json_id) else refused (error_of res)

-- An address that is empty counts as no signer.
unfoldable pub headers_of : Network → Option Signer → File → Result String (Option SignedHeaders)
headers_of net none file = ok none
headers_of net (some signer) file = if is_same signer.address "" then ok none else do
  (signature, public_key) ← signer.sign (net.hash_hex file.content)
  ok (
      some (record {
        address = net.trim signer.address;
        signature = signature;
        public_key = public_key;
      }))

unfoldable pub upload_file_to_provider :
    Network → Option Signer → File → (storage_id base_url : String) → Sent
unfolding headers_of
upload_file_to_provider net signer file storage_id base_url = answer_of storage_id do
  signed ← headers_of net signer file
  net.post (record { base_url = base_url; id = storage_id; body = file.content; signed = signed })

-- `{ succeeded, failed }`
pub record Uploads : Type 0 where
  pub succeeded : List String
  pub failed : List (String × UploadError)

abbrev pub succeeded_of : List (String × Sent) → List String
succeeded_of [] = []
succeeded_of ((url, accepted _) ∷ results) = url ∷ succeeded_of results
succeeded_of ((url, refused _) ∷ results) = succeeded_of results

abbrev pub failed_of : List (String × Sent) → List (String × UploadError)
failed_of [] = []
failed_of ((url, accepted _) ∷ results) = failed_of results
failed_of ((url, refused error) ∷ results) = (url, error) ∷ failed_of results

-- The results stand in the order of the endpoints, in whatever order they arrive.
unfoldable pub upload_file_to_providers :
    Network → Option Signer → File → String → List String → Uploads
unfolding upload_file_to_provider
upload_file_to_providers net signer file storage_id endpoints =
    let results =
      map (λ base_url. (base_url, upload_file_to_provider net signer file storage_id base_url))
        endpoints in
    record { succeeded = succeeded_of results; failed = failed_of results }
