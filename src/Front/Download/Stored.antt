-- ===== src/Front/Download/Stored.antt =====
-- From the page that stores files to the button that gets them back.
use community_storage.Base.{
  ◌≡◌, ◌≢◌, refl, ℕ, String, true, List, [], ◌∷◌, Option, none, some, includes, is_some, get_or, ok,
  arith,
}
use community_storage.Structs.Args.{ArgsCodec}
use community_storage.Front.MyFiles.{StoredFile}
use community_storage.Front.Upload.{File}
use community_storage.Front.Upload.Laws.{was_taken}
use community_storage.Front.Client.Rpc.{Chain}
use community_storage.Front.Store.{World, Page, handle_confirm_store}
use community_storage.Front.Store.Confirmed.{Remembers, AllRemembered, confirm-remembers}
use community_storage.Front.Download.{
  Servers, received, saved, name_or_default, can_download, download_file_from_provider,
  download_and_save_from_provider, save_from_first, handle_download,
}
use community_storage.Front.Download.Laws.{
  GivesOrFails, name_or_default_twice, save_from_first-available,
}

-- The servers that took the file give it back or fail, and one that the entry names gives it back.
pub record Available (w : World) (servers : Servers) (f : File) (e : StoredFile) : Type 0 where
  pub has_id : e.id ≢ ""
  pub kept :
      (url : String)
      → was_taken w.network w.signer f e.id url ≡ true
      → GivesOrFails servers e.id f.content url
  pub source : String
  pub listed : includes (get_or [] e.uploaded_to) source ≡ true
  pub gives : download_file_from_provider servers source e.id ≡ ok (received f.content)

abbrev pub AllAvailable : World → Servers → List File → List StoredFile → Type 0
AllAvailable w servers (f ∷ files) (e ∷ entries) =
    Available w servers f e × AllAvailable w servers files entries
AllAvailable w servers _ _ = Unit

module _ (w : World) (servers : Servers) (placeholder : StoredFile → List ℕ) where
  -- The button of each entry saves its file, under the name of the file.
  abbrev pub AllDownloaded : List File → List StoredFile → Type 0
  AllDownloaded [] [] = Unit
  AllDownloaded (f ∷ files) (e ∷ entries) =
      (handle_download servers placeholder e
        ≡ ok (saved (record { name = name_or_default f.name; content = f.content })))
      × AllDownloaded files entries
  AllDownloaded _ _ = ⊥

  -- A list in which something is found is not empty.
  listed-download :
      (urls : List String) (id name : String) (source : String)
      → includes urls source ≡ true
      → download_and_save_from_provider servers urls id name ≡ save_from_first servers urls id name
  unfolding download_and_save_from_provider
  listed-download [] id name source h = cc
  listed-download (u ∷ us) id name source h = refl

  listed-can_download :
      (e : StoredFile) (o : Option (List String)) (source : String)
      → e.uploaded_to ≡ o
      → includes (get_or [] o) source ≡ true
      → e.id ≢ ""
      → can_download e ≡ true
  listed-can_download e none source same h ne = cc
  listed-can_download e (some []) source same h ne = cc
  listed-can_download e (some (u ∷ us)) source same h ne = rw same (ground arith)

  Available-downloaded :
      (page : Page) (f : File) (e : StoredFile)
      → Remembers w page f e
      → Available w servers f e
      → handle_download servers placeholder e
        ≡ ok (saved (record { name = name_or_default f.name; content = f.content }))
  unfolding handle_download
  Available-downloaded page f e r a =
      let urls = get_or [] e.uploaded_to in
      let name = name_or_default e.name in
      rw
        (
          listed-can_download e e.uploaded_to a.source refl a.listed a.has_id,
          listed-download urls e.id name a.source a.listed,
          save_from_first-available servers e.id name f.content urls
              (λ url h. a.kept url (r.taken url h).1) a.source a.listed a.gives,
          name_or_default_twice e.name,
          r.named,
        )
        refl

  all-downloaded :
      (page : Page) (files : List File) (entries : List StoredFile)
      → AllRemembered w page files entries
      → AllAvailable w servers files entries
      → AllDownloaded files entries
  all-downloaded page [] [] r a = tt
  all-downloaded page (f ∷ files) (e ∷ entries) (r, rs) (a, as_) =
      (Available-downloaded page f e r a, all-downloaded page files entries rs as_)
  all-downloaded page [] (e ∷ entries) r a = absurd r
  all-downloaded page (f ∷ files) [] r a = absurd r

-- After the page has reported that files are stored, the button of every new entry saves the content
-- that was sent, under the file's name, also where servers of the entry fail. The address of the
-- wallet is known, and for each entry: it has an id, a server that took the file gives back its
-- content or fails without an exception, and one under `uploadedTo` gives it back.
pub stored-downloaded :
    (w : World) (C : ArgsCodec) (sc : Chain) (page : Page) (servers : Servers)
    (placeholder : StoredFile → List ℕ)
    → is_some page.address ≡ true
    → (handle_confirm_store w C sc page).done ≡ true
    → AllAvailable w servers page.files (handle_confirm_store w C sc page).added
    → AllDownloaded w servers placeholder page.files (handle_confirm_store w C sc page).added
stored-downloaded w C sc page servers placeholder known done available =
    all-downloaded w servers placeholder page page.files (handle_confirm_store w C sc page).added
      ((confirm-remembers w C sc page known).remembered done) available
