-- ===== src/Front/Upload/Laws.antt =====
-- What the lists of providers that took a file and that did not have to do with the answers.
use mathlib.Core.List.{map}
use community_storage.Base.{
  ◌≡◌, refl, String, Bool, true, false, not, List, [], ◌∷◌, keep, Option, if◌then◌else◌,
}
use community_storage.Front.Upload.{
  Network, Signer, File, Sent, accepted, refused, UploadError, succeeded_of, failed_of,
  upload_file_to_provider, upload_file_to_providers,
}

abbrev pub took : Sent → Bool
took (accepted _) = true
took (refused _) = false

abbrev pub urls : List (String × UploadError) → List String
urls [] = []
urls ((url, _) ∷ rest) = url ∷ urls rest

succeeded_of-cons :
    (url : String) (r : Sent) (rest : List (String × Sent))
    → succeeded_of ((url, r) ∷ rest)
      ≡ (if took r then url ∷ succeeded_of rest else succeeded_of rest)
succeeded_of-cons url (accepted _) rest = refl
succeeded_of-cons url (refused _) rest = refl

failed_of-cons :
    (url : String) (r : Sent) (rest : List (String × Sent))
    → urls (failed_of ((url, r) ∷ rest))
      ≡ (if not (took r) then url ∷ urls (failed_of rest) else urls (failed_of rest))
failed_of-cons url (accepted _) rest = refl
failed_of-cons url (refused _) rest = refl

module _ (send : String → Sent) where
  abbrev results : List String → List (String × Sent)
  results = map (λ url. (url, send url))

  succeeded_of-keep :
      (endpoints : List String)
      → succeeded_of (results endpoints) ≡ keep (λ url. took (send url)) endpoints
  succeeded_of-keep [] = refl
  succeeded_of-keep (url ∷ rest) =
      rw (succeeded_of-cons url (send url) (results rest), succeeded_of-keep rest) refl

  failed_of-keep :
      (endpoints : List String)
      → urls (failed_of (results endpoints)) ≡ keep (λ url. not (took (send url))) endpoints
  failed_of-keep [] = refl
  failed_of-keep (url ∷ rest) =
      rw (failed_of-cons url (send url) (results rest), failed_of-keep rest) refl

module _ (net : Network) (signer : Option Signer) (file : File) (id : String) where
  abbrev pub was_taken : String → Bool
  was_taken url = took (upload_file_to_provider net signer file id url)

  -- Those that took the file, and those that did not, each in the order of the endpoints.
  pub uploads-keep :
      (endpoints : List String)
      → let uploads = upload_file_to_providers net signer file id endpoints in
        (uploads.succeeded ≡ keep was_taken endpoints)
        × (urls uploads.failed ≡ keep (λ url. not (was_taken url)) endpoints)
  unfolding upload_file_to_providers
  uploads-keep endpoints =
      let send = upload_file_to_provider net signer file id in
      (succeeded_of-keep send endpoints, failed_of-keep send endpoints)
