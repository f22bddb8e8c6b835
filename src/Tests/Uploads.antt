-- ===== src/Tests/Uploads.antt =====
-- Bookings and usage at a contract that is at work.
use community_storage.Base.{
  ◌+◌, ◌<◌, ◌≤◌, ◌≡◌, ◌↔◌, refl, String, some, ok, arith, is_same, if◌then◌else◌, mul64, u64_mod,
}
use community_storage.State.{State}
use community_storage.Registry.{
  get_uploader_price_per_gb, get_booked_uploader_gb, get_total_booked_gb_across_uploaders,
  get_total_allocated_gb_across_providers, get_uploader_usage,
}
use community_storage.Registry.Uploaders.{
  new_total_booked, register_as_uploader, record_file_upload, remove_file_upload,
}
use community_storage.Registry.Uploaders.Booking.{register_as_uploader-capacity}
use community_storage.Registry.Uploaders.Usage.{record-remove, record_iff_allowed}
use community_storage.Registry.Views.{get_is_allowed_uploader}
use community_storage.Tests.{contract, by, paying, at_work, state_of}

abbrev booked_more : State
booked_more =
    state_of at_work (register_as_uploader (paying "other" 6 25_000_000) (some 25) at_work)

booking_runs : register_as_uploader (paying "other" 6 25_000_000) (some 25) at_work ≡ ok booked_more
unfolding contract
booking_runs = refl

small : get_booked_uploader_gb at_work "other" < u64_mod
unfolding contract
small = omega arith

register_as_uploader-capacity_example :
    (mul64 25 (get_uploader_price_per_gb at_work) ≤ 25_000_000)
    × ((a : String)
        → get_booked_uploader_gb booked_more a
          ≡ (if is_same "other" a then 25 else get_booked_uploader_gb at_work a))
    × (get_total_booked_gb_across_uploaders booked_more ≡ new_total_booked at_work "other" 25)
    × (get_total_booked_gb_across_uploaders booked_more
        ≤ get_total_allocated_gb_across_providers booked_more)
register_as_uploader-capacity_example =
    register_as_uploader-capacity (paying "other" 6 25_000_000) 25 at_work small booking_runs

abbrev uploaded : State
uploaded = state_of at_work (record_file_upload (by "server" 6) (some "user") (some 500) at_work)

abbrev deleted : State
deleted = state_of uploaded (remove_file_upload (by "server" 7) (some "user") (some 500) uploaded)

upload_runs : record_file_upload (by "server" 6) (some "user") (some 500) at_work ≡ ok uploaded
unfolding contract
upload_runs = refl

deletion_runs : remove_file_upload (by "server" 7) (some "user") (some 500) uploaded ≡ ok deleted
unfolding contract
deletion_runs = refl

room : get_uploader_usage at_work "user" + 500 < u64_mod
unfolding contract
room = omega arith

record-remove_example : get_uploader_usage deleted "user" ≡ get_uploader_usage at_work "user"
record-remove_example =
    record-remove (by "server" 6) (by "server" 7) "user" 500 at_work room upload_runs deletion_runs
      "user"

record_iff_allowed_example :
    ((u : State) × (record_file_upload (by "server" 6) (some "user") (some 500) at_work ≡ ok u))
    ↔ (get_is_allowed_uploader (some "user") at_work ≡ ok 1)
unfolding contract
record_iff_allowed_example =
    record_iff_allowed (by "server" 6) "user" 500 at_work refl refl (omega arith)
