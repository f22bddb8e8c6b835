-- ===== src/Tests/Indexes.antt =====
-- A provider and an uploader, at the end of a run of the contract.
use community_storage.Base.{◌≡◌, ◌%◌, refl, String, some, IsDistinct, includes, is_some, u64_mod}
use community_storage.State.{State}
use community_storage.Registry.{
  get_node, get_node_index, get_uploader_index, get_booked_uploader_gb,
  get_total_allocated_gb_across_providers, get_total_booked_gb_across_uploaders,
}
use community_storage.Registry.Uploaders.Totals.{sum_of}
use community_storage.Registry.Calls.{Reach, next, booking_request}
use community_storage.Registry.Calls.Indexes.Sums.{offered, Reach-capacity, Reach-booked}
use community_storage.Tests.{contract, paying, one_provider, then_call}
use community_storage.Tests.Runs.{one_provider-Reach}

abbrev reserved : State
reserved = then_call (paying "user" 5 6_000_000) (booking_request (some 6)) one_provider

reserved-Reach : Reach reserved
unfolding contract
reserved-Reach =
    next (paying "user" 5 6_000_000) (booking_request (some 6)) one_provider-Reach refl refl

reserved_totals :
    (get_total_allocated_gb_across_providers reserved ≡ 10)
    × (get_total_booked_gb_across_uploaders reserved ≡ 6)
unfolding contract
reserved_totals = (refl, refl)

Reach-capacity_example :
    ((a : String) → includes (get_node_index reserved) a ≡ is_some (get_node reserved a))
    × IsDistinct (get_node_index reserved)
    × (get_total_allocated_gb_across_providers reserved
        ≡ sum_of (λ a. offered (get_node reserved a)) (get_node_index reserved) % u64_mod)
Reach-capacity_example = Reach-capacity reserved-Reach

Reach-booked_example :
    ((a : String)
      → includes (get_uploader_index reserved) a ≡ is_some (reserved.uploader_bookings a))
    × IsDistinct (get_uploader_index reserved)
    × (get_total_booked_gb_across_uploaders reserved
        ≡ sum_of (get_booked_uploader_gb reserved) (get_uploader_index reserved) % u64_mod)
Reach-booked_example = Reach-booked reserved-Reach
