-- ===== src/Tests/Storing.antt =====
-- Storing a file on the chain of a run with one provider.
use mathlib.Core.List.{Mem, Perm, map}
use community_storage.Base.{
  ◌≡◌, ◌≢◌, ◌≤◌, refl, String, Bool, true, false, none, some, List, [], ◌∷◌, ◌++◌, ok, arith,
  length, keep, inr, String_discrete,
}
use community_storage.Structs.Args.{read}
use community_storage.Registry.{
  get_total_booked_gb_across_uploaders, is_paused, get_booked_uploader_gb,
  get_uploader_price_per_gb,
}
use community_storage.Registry.Views.{get_global_storage_usage_view, get_uploader_price_per_gb_view}
use community_storage.Registry.Uploaders.{register_as_uploader, booked}
use community_storage.Registry.Views.Bytes.{
  uploader_price_per_gb_bytes, global_storage_usage_bytes, argument,
}
use community_storage.Front.Client.{StorageProvider}
use community_storage.Front.Client
use community_storage.Front.Client.Rpc.{served}
use community_storage.Front.Client.Booking.{ContractCall, register_as_uploader_with_transfer}
use community_storage.Front.Upload.{headers_of, answer_of, File, Network, upload_file_to_provider}
use community_storage.Front.Upload.Laws.{was_taken}
use community_storage.Front.Store.{
  Page, World, booking_for, book, handle_confirm_store, stopped, nobody_accepted, auto_selected,
  is_eligible, provider_endpoints,
}
use community_storage.Front.Store.Capacity.{book-accepted}
use community_storage.Front.Store.Confirmed.{Honest, confirm-remembers, charged-without_upload}
use community_storage.Front.Store.Selected.{auto_selected-best}
use community_storage.Tests.{contract, one_provider, paying}
use community_storage.Tests.Runs.{one_provider-Reach}
use community_storage.Tests.Codec.{codec}
use community_storage.Tests.Clients.{told}

abbrev pub offer_north : StorageProvider
offer_north = record {
  address = "north";
  allocated_gb = 10;
  used_gb = 0;
  available_gb = 10;
  endpoint = some "http://north";
  p2p_addrs = none;
}

abbrev pub offer_south : StorageProvider
offer_south = record offer_north { address = "south"; available_gb = 20 }

abbrev pub film : File
film = record { name = "film"; size = 2_500_000_000; content = 1 ∷ 2 ∷ [] }

-- A server that answers every upload with this status.
abbrev pub network : Bool → Network
network is_ok = record {
  post = λ request. ok (record { is_ok = is_ok; status = 403; json_error = none; json_id = none });
  hash_hex = λ content. "ab";
  trim = λ s. s;
}

abbrev pub world : Bool → World
world is_ok = record {
  execute = λ call. ok tt;
  network = network is_ok;
  signer = none;
  now = "2026-01-01";
  expires = λ months. "2026-02-01";
  new_id = λ i. "id";
}

abbrev pub page : Page
page = record {
  files = film ∷ [];
  providers = offer_north ∷ [];
  selected = "north" ∷ [];
  replication_count = 1;
  duration_months = 1;
  connected = true;
  has_account = true;
  can_call = true;
  balance = ok (some 5_000_000);
  address = some "user";
  booking = record { need_to_book = 3; booking_nano = 3_000_000; booked_gb = 0 };
}

abbrev pub booking_call : ContractCall
booking_call = record {
  func = "registerAsUploader";
  parameter = codec.add_u64 [] 3;
  coins = 3_000_000;
}

running : is_paused one_provider ≡ false
unfolding contract
running = refl

fresh :
    page.booking
    ≡ booking_for page.files
        (get_booked_uploader_gb one_provider "user")
        (get_uploader_price_per_gb one_provider)
unfolding contract booking_for
fresh = refl

unbooked :
    (get_booked_uploader_gb one_provider "user" ≡ 0)
    × (get_total_booked_gb_across_uploaders one_provider ≡ 0)
    × (get_uploader_price_per_gb one_provider ≡ 1_000_000)
unfolding contract
unbooked = (refl, refl, refl)

-- The page books three gigabytes for the film.
pub booking_sent :
    (is_ok : Bool)
    → book (world is_ok) codec (served codec told one_provider) page ≡ inr (booking_call ∷ [])
unfolding contract book Client.get_global_storage_usage Client.get_uploader_price_per_gb
    Client.usage_reading register_as_uploader_with_transfer served global_storage_usage_bytes
    uploader_price_per_gb_bytes get_global_storage_usage_view get_uploader_price_per_gb_view read
booking_sent is_ok = refl

book-accepted_example :
    register_as_uploader
      (paying "user" 6 3_000_000)
      (argument (codec.next_u64 booking_call.parameter 0))
      one_provider
    ≡ ok (booked (paying "user" 6 3_000_000) 3 one_provider)
book-accepted_example =
    book-accepted (world true) codec told page (paying "user" 6 3_000_000) one_provider-Reach
      running fresh (omega (arith, unbooked)) (omega (arith, unbooked)) (omega (arith, unbooked))
      (omega arith) refl (booking_sent true)

confirm-remembers_example :
    Honest
      (world true)
      page
      (handle_confirm_store (world true) codec (served codec told one_provider) page)
confirm-remembers_example =
    confirm-remembers (world true) codec (served codec told one_provider) page refl

nobody_takes : (f : File) (id url : String) → was_taken (network false) none f id url ≡ false
unfolding upload_file_to_provider answer_of headers_of
nobody_takes f id url = refl

one_endpoint : provider_endpoints page.providers page.selected ≡ "http://north" ∷ []
unfolding String_discrete
one_endpoint = refl

some_endpoint : provider_endpoints page.providers page.selected ≢ []
some_endpoint e = let f = one_endpoint in cc

charged-without_upload_example :
    handle_confirm_store (world false) codec (served codec told one_provider) page
    ≡ stopped (booking_call ∷ []) (nobody_accepted ∷ [])
charged-without_upload_example =
    charged-without_upload (world false) codec (served codec told one_provider) page
      (some 5_000_000) (λ e. cc) (omega arith) refl refl refl (booking_sent false) some_endpoint
      (λ url h. nobody_takes film "id" url, tt)

-- With both providers and one replica the larger one is chosen.
larger_one : auto_selected (λ a. a) (λ a. false) 1 (offer_north ∷ offer_south ∷ []) ≡ "south" ∷ []
unfolding auto_selected String_discrete
larger_one = refl

auto_selected-best_example :
    let eligible = keep (is_eligible (λ a. a) (λ a. false)) (offer_north ∷ offer_south ∷ []) in
    (chosen : List StorageProvider) × (others : List StorageProvider) × (auto_selected
        (λ a. a)
        (λ a. false)
        1
        (offer_north ∷ offer_south ∷ [])
      ≡ map (λ p. p.address) chosen)
    × Perm (chosen ++ others) eligible
    × (1 ≤ length eligible → length chosen ≡ 1)
    × ((p : StorageProvider) → Mem p chosen → is_eligible (λ a. a) (λ a. false) p ≡ true)
    × ((p q : StorageProvider) → Mem p chosen → Mem q others → q.available_gb ≤ p.available_gb)
auto_selected-best_example =
    auto_selected-best (λ a. a) (λ a. false) 1 (offer_north ∷ offer_south ∷ [])
