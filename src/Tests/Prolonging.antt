-- ===== src/Tests/Prolonging.antt =====
-- The extension of a selected file.
use community_storage.Base.{
  ◌+◌, ◌*◌, ◌≡◌, ◌≤◌, Option, get_or, refl, String, true, none, some, [], ◌∷◌, ok, abort, empty,
  String_discrete,
}
use community_storage.Front.MyFiles.{StoredFile, extend_stored_files}
use community_storage.Front.FilesPage.{
  payment_refused, needs_payment, has_address, FilesPage, Surroundings, compute_extend_payment,
  entries_to_extend, handle_extend_selected, handle_extend_confirm,
}
use community_storage.Front.FilesPage.Payment.{
  sum_shares, count_shared, count_shares, extend_payment-bounds,
}
use community_storage.Front.FilesPage.Extended.{extend-paid}

abbrev film : StoredFile
film = record {
  id = "1";
  name = "film";
  size = 5;
  replication_count = 2;
  duration_months = 1;
  providers = "north" ∷ "south" ∷ [];
  provider_endpoints = none;
  uploaded_at = "2026-01-01";
  expires_at = "2026-02-01";
  uploader_address = "user";
  uploaded_to = none;
}

abbrev env : Surroundings
env = record {
  normalise = λ s. s;
  add_months = λ date months. "2026-03-01";
  price = λ e months. 101 * months;
  pay = λ total. ok tt;
}

abbrev page : FilesPage
page = record {
  list = film ∷ [];
  selected_ids = "1" ∷ [];
  extend_months = 1;
  extend_confirm = none;
  address = some "user";
  connected = true;
  has_account = true;
  storage = empty;
  toast = none;
}

-- 101 nanoMAS for two providers: each has 50.
shares :
    compute_extend_payment env.price (film ∷ []) 1
    ≡ record { total_nano = 101; by_provider = ("north", 50) ∷ ("south", 50) ∷ [] }
unfolding compute_extend_payment String_discrete
shares = refl

extend_payment-bounds_example :
    let p = compute_extend_payment env.price (film ∷ []) 1 in
    (sum_shares p.by_provider ≤ p.total_nano)
    × (p.total_nano + count_shared (film ∷ [])
        ≤ sum_shares p.by_provider + count_shares (film ∷ []))
extend_payment-bounds_example = extend_payment-bounds env.price (film ∷ []) 1

selected_entry : entries_to_extend page.list page.selected_ids ≡ film ∷ []
unfolding entries_to_extend String_discrete
selected_entry = refl

costs :
    needs_payment
      (compute_extend_payment env.price (entries_to_extend page.list page.selected_ids) 1)
    ≡ true
costs = rw (selected_entry, shares) refl

known : has_address page.address ≡ true
unfolding String_discrete
known = refl

extend-paid_example :
    let payment =
      compute_extend_payment env.price (entries_to_extend page.list page.selected_ids) 1 in
    let asked = handle_extend_selected env page in
    let done = handle_extend_confirm env asked in
    (asked.storage ≡ page.storage)
    × ((message : Option String)
        → env.pay payment.total_nano ≡ abort message
        → (done.storage ≡ page.storage)
          × (done.extend_confirm ≡ asked.extend_confirm)
          × (done.toast ≡ some (get_or payment_refused message)))
    × (env.pay payment.total_nano ≡ ok tt
        → (done.storage
            ≡ (extend_stored_files env.normalise page.address env.add_months page.selected_ids 1
                page.storage).1)
          × (done.extend_confirm ≡ none)
          × (done.selected_ids ≡ []))
extend-paid_example = extend-paid env page refl costs refl known
