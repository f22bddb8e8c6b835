-- ===== src/Front/Store.antt =====
-- Storing files: front/src/pages/StoreFiles.jsx. The page's state and what it asks of the wallet, the
-- contract and the servers are arguments of its functions.
pub mod Selected
pub mod Capacity
pub mod Confirmed
use Prim.Native.Nat.{◌/◌}
use mathlib.Core.List.{map}
use community_storage.Base.{
  inr, inl, ◌⊎◌, ℕ, suc, ◌+◌, ◌*◌, String, Bool, true, false, not, ◌&&◌, ◌||◌, Option, none, some,
  List, [], ◌∷◌, ltb, leb, ◌==◌, if◌then◌else◌, is_some, is_same, get_or, keep, take, length,
  Result, ok, abort, assert, ◌>>=◌, ◌>>◌,
}
use community_storage.Structs.Args.{ArgsCodec}
use community_storage.Registry.Views.{StorageUsage}
use community_storage.Front.Client
use community_storage.Front.Client.{StorageProvider}
use community_storage.Front.Client.Rpc.{Chain}
use community_storage.Front.Client.Booking.{ContractCall, register_as_uploader_with_transfer}
use community_storage.Front.Upload.{File, Signer, Network, Uploads, upload_file_to_providers}
use community_storage.Front.MyFiles.{StoredFile}

-- `p.endpoint` as a condition.
abbrev pub has_endpoint : Option String → Bool
has_endpoint none = false
has_endpoint (some e) = not (is_same e "")

-- `eligibleProviders`: `blocked` is the set of the wallet's blocklist, of addresses in lower case.
unfoldable pub is_eligible :
    (lower : String → String) → (blocked : String → Bool) → StorageProvider → Bool
is_eligible lower blocked p =
    not (blocked (lower p.address)) && (has_endpoint p.endpoint && ltb 0 p.available_gb)

-- `sort` with the larger capacity first; equal ones keep their order.
unfoldable pub insert_provider : StorageProvider → List StorageProvider → List StorageProvider
insert_provider p [] = p ∷ []
insert_provider p (q ∷ rest) =
    if ltb p.available_gb q.available_gb then q ∷ insert_provider p rest else p ∷ q ∷ rest

unfoldable pub sort_providers : List StorageProvider → List StorageProvider
unfolding insert_provider
sort_providers [] = []
sort_providers (p ∷ rest) = insert_provider p (sort_providers rest)

unfoldable pub auto_selected :
    (String → String)
    → (String → Bool)
    → (replication_count : ℕ) → List StorageProvider
    → List String
unfolding is_eligible sort_providers
auto_selected lower blocked replication_count providers =
    map (λ p. p.address)
      (take replication_count (sort_providers (keep (is_eligible lower blocked) providers)))

-- The cost of the booking that is shown when the dialog opens.
pub record UploaderBooking : Type 0 where
  pub need_to_book : ℕ
  pub booking_nano : ℕ
  pub booked_gb : ℕ

abbrev pub total_bytes : List File → ℕ
total_bytes [] = 0
total_bytes (f ∷ files) = f.size + total_bytes files

-- `Math.max(1, Math.ceil(totalBytes / 1e9))`, exact for the sizes that a page can hold.
abbrev pub need_booking_gb : ℕ → ℕ
need_booking_gb bytes = let gb = (bytes + 999_999_999) / 1_000_000_000 in if ltb gb 1 then 1 else gb

unfoldable pub booking_for : (files : List File) → (booked_gb price_per_gb : ℕ) → UploaderBooking
booking_for files booked_gb price_per_gb =
    let need_gb = need_booking_gb (total_bytes files) in
    let need_to_book = if ltb booked_gb need_gb then need_gb else 0 in
    record {
      need_to_book = need_to_book;
      booking_nano = need_to_book * price_per_gb;
      booked_gb = booked_gb;
    }

-- The page when the user confirms. `balance` is what `account.balance(true)` answers, which may be
-- nothing, or an exception.
pub record Page : Type 0 where
  pub files : List File
  pub providers : List StorageProvider
  pub selected : List String
  pub replication_count : ℕ
  pub duration_months : ℕ
  pub connected : Bool
  pub has_account : Bool
  pub can_call : Bool
  pub balance : Result String (Option ℕ)
  pub address : Option String
  pub booking : UploaderBooking

-- The wallet, the servers, the clock and `crypto.randomUUID`.
pub record World : Type 0 where
  pub execute : ContractCall → Result String (Unit {0})
  pub network : Network
  pub signer : Option Signer
  pub now : String
  pub expires : ℕ → String
  pub new_id : ℕ → String

-- The messages that the page shows.
pub data Notice : Type 0 where
  connect_wallet balance_too_low cannot_call nobody_accepted some_failed : Notice
  not_enough_capacity : (need effective : ℕ) → Notice
  booking_failed : String → Notice

-- The calls that were sent with coins, what was shown, the entries that are added to the wallet's
-- files, and whether the dialog is closed and the files are cleared.
pub record Confirmation : Type 0 where
  pub calls : List ContractCall
  pub notices : List Notice
  pub added : List StoredFile
  pub done : Bool

abbrev pub stopped : List ContractCall → List Notice → Confirmation
stopped calls notices = record { calls = calls; notices = notices; added = []; done = false }

-- `providers.find((p) => p.address === addr)?.endpoint`
abbrev pub endpoint_of : List StorageProvider → String → Option String
endpoint_of [] a = none
endpoint_of (p ∷ rest) a = if is_same p.address a then p.endpoint else endpoint_of rest a

abbrev with_endpoint : Option String → List String → List String
with_endpoint none rest = rest
with_endpoint (some e) rest = if is_same e "" then rest else e ∷ rest

abbrev pub provider_endpoints : List StorageProvider → List String → List String
provider_endpoints providers [] = []
provider_endpoints providers (a ∷ selected) =
    with_endpoint (endpoint_of providers a) (provider_endpoints providers selected)

abbrev pub effective_available : StorageUsage → UploaderBooking → ℕ
effective_available usage booking =
    if ltb 0 booking.booked_gb then usage.available_gb + booking.booked_gb else usage.available_gb

-- `list.length ? list : undefined`
abbrev pub unless_empty : List String → Option (List String)
unless_empty [] = none
unless_empty (x ∷ xs) = some (x ∷ xs)

abbrev pub all_failed : List Uploads → Bool
all_failed [] = true
all_failed (u ∷ rest) = (length u.succeeded == 0) && all_failed rest

abbrev pub any_failed : List Uploads → Bool
any_failed [] = false
any_failed (u ∷ rest) = ltb 0 (length u.failed) || any_failed rest

-- The end of `callSC`.
abbrev pub executed : ContractCall → Result String (Unit {0}) → Confirmation ⊎ List ContractCall
executed call (abort e) = inl (stopped (call ∷ []) (booking_failed e ∷ []))
executed call (ok _) = inr (call ∷ [])

module _ (w : World) where
  -- The call is sent, or what failed before or in it is shown.
  abbrev pub sent_call : Result String ContractCall → Confirmation ⊎ List ContractCall
  sent_call (abort e) = inl (stopped [] (booking_failed e ∷ []))
  sent_call (ok call) = executed call (w.execute call)

  -- Step 0: the booking, where one is needed.
  unfoldable pub book : ArgsCodec → Chain → Page → Confirmation ⊎ List ContractCall
  book C sc page =
      let need = page.booking.need_to_book in
      let effective = effective_available (Client.get_global_storage_usage C sc) page.booking in
      if not (ltb 0 need)
      then inr []
      else if not page.can_call
      then inl (stopped [] (cannot_call ∷ []))
      else if ltb effective need
      then inl (stopped [] (not_enough_capacity need effective ∷ []))
      else sent_call (register_as_uploader_with_transfer C sc page.can_call need)

  abbrev pub entry : Page → List String → (i : ℕ) → File → Option (List String) → StoredFile
  entry page endpoints i file uploaded_to = record {
    id = w.new_id i;
    name = file.name;
    size = file.size;
    replication_count = page.replication_count;
    duration_months = page.duration_months;
    providers = page.selected;
    provider_endpoints = unless_empty endpoints;
    uploaded_at = w.now;
    expires_at = w.expires page.duration_months;
    uploader_address = get_or "" page.address;
    uploaded_to = uploaded_to;
  }

  unfoldable pub upload_all : List String → (i : ℕ) → List File → List Uploads
  upload_all endpoints i [] = []
  upload_all endpoints i (file ∷ files) =
      upload_file_to_providers w.network w.signer file (w.new_id i) endpoints
      ∷ upload_all endpoints (i + 1) files

  -- The entries with `uploadedTo`, once the files are sent.
  unfoldable pub uploaded_entries :
      Page → List String → (i : ℕ) → List File → List Uploads → List StoredFile
  uploaded_entries page endpoints i (file ∷ files) (u ∷ uploads) =
      entry page endpoints i file (unless_empty u.succeeded)
      ∷ uploaded_entries page endpoints (i + 1) files uploads
  uploaded_entries page endpoints i _ _ = []

  -- The entries where no endpoint is known: nothing is sent.
  unfoldable pub plain_entries : Page → (i : ℕ) → List File → List StoredFile
  plain_entries page i [] = []
  plain_entries page i (file ∷ files) = entry page [] i file none ∷ plain_entries page (i + 1) files

  -- `if (address) addStoredFiles(address, entries)`, then the page is left.
  abbrev pub finished : Page → List ContractCall → List Notice → List StoredFile → Confirmation
  finished page calls notices entries = record {
    calls = calls;
    notices = notices;
    added = if is_some page.address then entries else [];
    done = true;
  }

  -- Step 1: the files are sent, and remembered if a provider took one.
  unfoldable pub send_files : Page → List ContractCall → Confirmation
  unfolding plain_entries upload_all uploaded_entries
  send_files page calls =
      let endpoints = provider_endpoints page.providers page.selected in
      let uploads = upload_all endpoints 0 page.files in
      if length endpoints == 0
      then finished page calls [] (plain_entries page 0 page.files)
      else if all_failed uploads
      then stopped calls (nobody_accepted ∷ [])
      else finished page calls (if any_failed uploads then some_failed ∷ [] else [])
          (uploaded_entries page endpoints 0 page.files uploads)

  abbrev pub after_booking : Page → Confirmation ⊎ List ContractCall → Confirmation
  after_booking page (inl refusal) = refusal
  after_booking page (inr calls) = send_files page calls

  abbrev pub too_low : Option ℕ → ℕ → Bool
  too_low none total = false
  too_low (some balance) total = ltb balance total

  -- The balance is asked for where there is something to pay; an exception leaves the function.
  abbrev pub if_covered : Result String (Option ℕ) → ℕ → Confirmation → Confirmation
  if_covered (abort e) total rest = stopped [] []
  if_covered (ok balance) total rest =
      if too_low balance total then stopped [] (balance_too_low ∷ []) else rest

  unfoldable pub handle_confirm_store : ArgsCodec → Chain → Page → Confirmation
  unfolding book send_files
  handle_confirm_store C sc page =
      let total_to_pay = page.booking.booking_nano in
      if (length page.files == 0) || ltb (length page.selected) page.replication_count
      then stopped [] []
      else if not (page.connected && page.has_account)
      then stopped [] (connect_wallet ∷ [])
      else let rest = after_booking page (book C sc page) in
        if ltb 0 total_to_pay then if_covered page.balance total_to_pay rest else rest
