-- ===== src/Front/Store/Confirmed.antt =====
-- What confirming the storage of files comes to.
use community_storage.Base.{
  Option, includes-keep, keep-none, ◌≢◌, ℕ, ◌+◌, ◌≤◌, ◌≡◌, refl, ap, sym, ◌∙◌, String, Bool, ◌⊎◌,
  true, false, ◌&&◌, List, [], ◌∷◌, length, includes, get_or, is_some, ◌==◌, if◌then◌else◌, arith,
  Bool-cases, inl, inr, Result, ok, abort,
}
use community_storage.Structs.Args.{ArgsCodec}
use community_storage.Front.MyFiles.{StoredFile}
use community_storage.Front.Upload.{File, upload_file_to_providers}
use community_storage.Front.Upload.Laws.{uploads-keep, was_taken}
use community_storage.Front.Client
use community_storage.Front.Client.Rpc.{Chain}
use community_storage.Front.Client.Booking.{register_as_uploader_with_transfer, ContractCall}
use community_storage.Front.Store.{
  not_enough_capacity, cannot_call, effective_available, executed, after_booking, balance_too_low,
  connect_wallet, booking_failed, sent_call, Page, World, Notice, nobody_accepted, Confirmation,
  provider_endpoints, unless_empty, all_failed, entry, upload_all, uploaded_entries, plain_entries,
  send_files, book, handle_confirm_store, too_low, if_covered, stopped,
}

-- What an entry says of its file: every provider that it names took the file under its id.
pub record Remembers (w : World) (page : Page) (f : File) (e : StoredFile) : Type 0 where
  pub named : e.name ≡ f.name
  pub sized : e.size ≡ f.size
  pub chosen : e.providers ≡ page.selected
  pub taken :
      (url : String)
      → includes (get_or [] e.uploaded_to) url ≡ true
      → (includes (provider_endpoints page.providers page.selected) url ≡ true)
        × (was_taken w.network w.signer f e.id url ≡ true)

abbrev pub AllRemembered : World → Page → List File → List StoredFile → Type 0
AllRemembered w page [] [] = Unit
AllRemembered w page [] (e ∷ entries) = ⊥
AllRemembered w page (f ∷ files) [] = ⊥
AllRemembered w page (f ∷ files) (e ∷ entries) =
    Remembers w page f e × AllRemembered w page files entries

get_or-unless_empty : (xs : List String) → get_or [] (unless_empty xs) ≡ xs
get_or-unless_empty [] = refl
get_or-unless_empty (x ∷ xs) = refl

module _ (w : World) (page : Page) where
  uploaded-Remembers :
      (i : ℕ) (f : File)
      → let endpoints = provider_endpoints page.providers page.selected in
        let u = upload_file_to_providers w.network w.signer f (w.new_id i) endpoints in
        Remembers w page f (entry w page endpoints i f (unless_empty u.succeeded))
  uploaded-Remembers i f =
      let endpoints = provider_endpoints page.providers page.selected in
      let took_it = was_taken w.network w.signer f (w.new_id i) in
      let u = upload_file_to_providers w.network w.signer f (w.new_id i) endpoints in
      let kept =
        get_or-unless_empty u.succeeded
        ∙ (uploads-keep w.network w.signer f (w.new_id i) endpoints).0 in
      record {
        named = refl;
        sized = refl;
        chosen = refl;
        taken = λ url h.
            let found =
              sym (ap (λ xs. includes xs url) kept ∙ includes-keep took_it endpoints url) ∙ h in
            ground arith;
      }

  uploaded-AllRemembered :
      (i : ℕ) (files : List File)
      → let endpoints = provider_endpoints page.providers page.selected in
        AllRemembered w page files
          (uploaded_entries w page endpoints i files (upload_all w endpoints i files))
  unfolding uploaded_entries upload_all
  uploaded-AllRemembered i [] = tt
  uploaded-AllRemembered i (f ∷ files) =
      (uploaded-Remembers i f, uploaded-AllRemembered (i + 1) files)

  plain-AllRemembered :
      (i : ℕ) (files : List File) → AllRemembered w page files (plain_entries w page i files)
  unfolding plain_entries
  plain-AllRemembered i [] = tt
  plain-AllRemembered i (f ∷ files) = (
    record { named = refl; sized = refl; chosen = refl; taken = λ url h. cc },
    plain-AllRemembered (i + 1) files,
  )

  -- Each file, under the identifier that the page gives it, is refused by each of the endpoints.
  abbrev pub AllRefused : List String → ℕ → List File → Type 0
  AllRefused endpoints i [] = Unit
  AllRefused endpoints i (f ∷ files) =
      ((url : String)
        → includes endpoints url ≡ true
        → was_taken w.network w.signer f (w.new_id i) url ≡ false)
      × AllRefused endpoints (i + 1) files

  nobody-all_failed :
      (endpoints : List String) (i : ℕ) (files : List File)
      → AllRefused endpoints i files
      → all_failed (upload_all w endpoints i files) ≡ true
  unfolding upload_all
  nobody-all_failed endpoints i [] h = refl
  nobody-all_failed endpoints i (f ∷ files) (h, hs) =
      let id = w.new_id i in
      let nothing_kept =
        (uploads-keep w.network w.signer f id endpoints).0
        ∙ keep-none (was_taken w.network w.signer f id) endpoints h in
      let rest = nobody-all_failed endpoints (i + 1) files hs in ground arith

  nobody_sends :
      (calls : List ContractCall)
      → (length (provider_endpoints page.providers page.selected) == 0) ≡ false
      → all_failed (upload_all w (provider_endpoints page.providers page.selected) 0 page.files)
        ≡ true
      → send_files w page calls ≡ stopped calls (nobody_accepted ∷ [])
  unfolding send_files
  nobody_sends calls some_endpoint nobody = rw (some_endpoint, nobody) refl

  sent-AllRemembered :
      (calls : List ContractCall)
      → is_some page.address ≡ true
      → (send_files w page calls).done ≡ true
      → AllRemembered w page page.files (send_files w page calls).added
  unfolding send_files
  sent-AllRemembered calls known h =
      let endpoints = provider_endpoints page.providers page.selected in
      elim (Bool-cases (length endpoints == 0)) [
        | inl no_endpoint ↦ rw (no_endpoint, known) (plain-AllRemembered 0 page.files)
        | inr some_endpoint ↦ elim (Bool-cases (all_failed (upload_all w endpoints 0 page.files))) [
          | inl nobody ↦ let e = ap (λ r. r.done) (nobody_sends calls some_endpoint nobody) in cc
          | inr somebody ↦ rw (some_endpoint, somebody, known) (uploaded-AllRemembered 0 page.files)
        ]
      ]

  not_sent-added :
      (calls : List ContractCall)
      → (send_files w page calls).done ≡ false
      → (send_files w page calls).added ≡ []
  unfolding send_files
  not_sent-added calls h = ground arith

-- What is remembered, where the page reports success and where it does not.
pub record Honest (w : World) (page : Page) (result : Confirmation) : Type 0 where
  pub remembered : result.done ≡ true → AllRemembered w page page.files result.added
  pub nothing_left : result.done ≡ false → result.added ≡ []

module _ (w : World) (page : Page) where
  stopped-Honest :
      (calls : List ContractCall) (notices : List Notice) → Honest w page (stopped calls notices)
  stopped-Honest calls notices = record { remembered = λ h. cc; nothing_left = λ _. refl }

  if-Honest :
      (b : Bool) (x y : Confirmation)
      → Honest w page x
      → Honest w page y
      → Honest w page (if b then x else y)
  if-Honest true x y hx hy = hx
  if-Honest false x y hx hy = hy

  if_covered-Honest :
      (balance : Result String (Option ℕ)) (total : ℕ) (rest : Confirmation)
      → Honest w page rest
      → Honest w page (if_covered w balance total rest)
  if_covered-Honest (abort e) total rest h = stopped-Honest [] []
  if_covered-Honest (ok balance) total rest h =
      if-Honest _ _ _ (stopped-Honest [] (balance_too_low ∷ [])) h

  -- A booking that ends in a refusal ends in an honest one.
  HonestChoice : Confirmation ⊎ List ContractCall → Type 0
  HonestChoice (inl c) = Honest w page c
  HonestChoice (inr _) = Unit

  goes_on : (calls : List ContractCall) → HonestChoice (inr calls)
  unfolding HonestChoice
  goes_on calls = tt

  stops :
      (calls : List ContractCall) (notices : List Notice)
      → HonestChoice (inl (stopped calls notices))
  unfolding HonestChoice
  stops calls notices = stopped-Honest calls notices

  if-HonestChoice :
      (b : Bool) (x y : Confirmation ⊎ List ContractCall)
      → HonestChoice x
      → HonestChoice y
      → HonestChoice (if b then x else y)
  if-HonestChoice true x y hx hy = hx
  if-HonestChoice false x y hx hy = hy

  executed-HonestChoice :
      (call : ContractCall) (e : Result String (Unit {0})) → HonestChoice (executed call e)
  executed-HonestChoice call (abort m) = stops (call ∷ []) (booking_failed m ∷ [])
  executed-HonestChoice call (ok _) = goes_on (call ∷ [])

  sent_call-HonestChoice : (r : Result String ContractCall) → HonestChoice (sent_call w r)
  sent_call-HonestChoice (abort m) = stops [] (booking_failed m ∷ [])
  sent_call-HonestChoice (ok call) = executed-HonestChoice call (w.execute call)

  book-HonestChoice : (C : ArgsCodec) (sc : Chain) → HonestChoice (book w C sc page)
  unfolding book
  book-HonestChoice C sc =
      let need = page.booking.need_to_book in
      let effective = effective_available (Client.get_global_storage_usage C sc) page.booking in
      if-HonestChoice _ _ _ (goes_on []) (
        if-HonestChoice _ _ _ (stops [] (cannot_call ∷ [])) (
          if-HonestChoice _ _ _ (stops [] (not_enough_capacity need effective ∷ []))
            (sent_call-HonestChoice (register_as_uploader_with_transfer C sc page.can_call need))))

  after_booking-Honest :
      (b : Confirmation ⊎ List ContractCall)
      → HonestChoice b
      → is_some page.address ≡ true
      → Honest w page (after_booking w page b)
  unfolding HonestChoice
  after_booking-Honest (inl c) h known = h
  after_booking-Honest (inr calls) h known = record {
    remembered = sent-AllRemembered w page calls known;
    nothing_left = not_sent-added w page calls;
  }

-- Where the page reports that the files are stored, each of them is remembered by one entry, in
-- order, with its name, its size and the selected providers, and every provider under `uploadedTo`
-- is an endpoint of a selected provider and took the file under the entry's id; where it does not,
-- nothing is remembered. A wallet's address is known.
pub confirm-remembers :
    (w : World) (C : ArgsCodec) (sc : Chain) (page : Page)
    → is_some page.address ≡ true
    → Honest w page (handle_confirm_store w C sc page)
unfolding handle_confirm_store
confirm-remembers w C sc page known = if-Honest w page _ _ _ (stopped-Honest w page [] []) (
    if-Honest w page _ _ _ (stopped-Honest w page [] (connect_wallet ∷ [])) (
      let rest =
        after_booking-Honest w page (book w C sc page) (book-HonestChoice w page C sc) known in
      if-Honest w page _ _ _ (if_covered-Honest w page page.balance _ _ rest) rest))

length-of_ne_nil : (xs : List String) → xs ≢ [] → (length xs == 0) ≡ false
length-of_ne_nil [] h = absurd (h refl)
length-of_ne_nil (x ∷ xs) h = ground arith

has_files : (fs : List File) → fs ≢ [] → (length fs == 0) ≡ false
has_files [] h = absurd (h refl)
has_files (f ∷ fs) h = ground arith

-- When every endpoint of the selected providers refuses every file of the page, under the identifier
-- that the page gives the file, a wallet that had to book is charged all the same: the call with its
-- coins stays sent, the message is the one that says that nothing was charged, and nothing is
-- remembered. The page has files, enough selected providers and at least one endpoint among them, the
-- wallet is connected, the balance that it answers, if any, suffices, and the booking was sent.
pub charged-without_upload :
    (w : World) (C : ArgsCodec) (sc : Chain) (page : Page) (balance : Option ℕ)
    {call : ContractCall}
    → page.files ≢ []
    → page.replication_count ≤ length page.selected
    → (page.connected && page.has_account) ≡ true
    → page.balance ≡ ok balance
    → too_low w balance page.booking.booking_nano ≡ false
    → book w C sc page ≡ inr (call ∷ [])
    → provider_endpoints page.providers page.selected ≢ []
    → AllRefused w page (provider_endpoints page.providers page.selected) 0 page.files
    → handle_confirm_store w C sc page ≡ stopped (call ∷ []) (nobody_accepted ∷ [])
unfolding handle_confirm_store
charged-without_upload w C sc page balance {call} files enough ready answered rich sent
      some_endpoint refused_by_all =
    let endpoints = provider_endpoints page.providers page.selected in
    let some_ = length-of_ne_nil endpoints some_endpoint in
    let nobody = nobody-all_failed w page endpoints 0 page.files refused_by_all in
    let uploaded = nobody_sends w page (call ∷ []) some_ nobody in
    let begun = has_files page.files files in
    rw (sent, begun, ready, answered, rich) (ground (arith, enough, uploaded))
