-- ===== src/Tests/Answers.antt =====
-- The entry points that read, at a contract that is at work.
use community_storage.Base.{◌≡◌, ◌≤◌, ◌<◌, ◌+◌, refl, some, [], ◌∷◌, ok, arith, u64_mod}
use community_storage.Structs.{StorageConfig, new_config, new_stats}
use community_storage.State.{State}
use community_storage.Registry.{get_booked_uploader_gb}
use community_storage.Registry.Nodes.{register_storage_node, update_provider_metadata}
use community_storage.Registry.Challenges.{issue_challenge}
use community_storage.Registry.Uploaders.{register_as_uploader, record_file_upload}
use community_storage.Registry.Admin.{
  update_config, set_uploader_price_per_gb_admin, add_storage_admin, remove_storage_admin,
}
use community_storage.Registry.Views.{
  get_node_info, get_booked_uploader_gb_view, get_global_storage_usage_view,
  get_uploader_usage_view, get_period_stats_view,
}
use community_storage.Registry.Views.Answers.{booking-shown}
use community_storage.Tests.{contract, by, paying, at_work, state_of, north}

abbrev joined : State
joined = state_of at_work (
    register_storage_node (by "east" 6) (some 30) (some "https://east") (some ("p2p" ∷ [])) at_work)

joined_runs :
    register_storage_node (by "east" 6) (some 30) (some "https://east") (some ("p2p" ∷ [])) at_work
    ≡ ok joined
unfolding contract
joined_runs = refl

abbrev asked : State
asked =
    state_of at_work (
      issue_challenge (by "admin" 6) (some "second") (some "north") (some "chunk") (some 9) at_work)

asked_runs :
    issue_challenge (by "admin" 6) (some "second") (some "north") (some "chunk") (some 9) at_work
    ≡ ok asked
unfolding contract
asked_runs = refl

north_shown : get_node_info (some "north") at_work ≡ ok north
unfolding contract get_node_info
north_shown = refl

sixth_shown : get_period_stats_view (some 6) at_work ≡ ok (new_stats 6)
unfolding contract get_period_stats_view
sixth_shown = refl

abbrev tight : StorageConfig
tight = record new_config { max_allocated_gb = 5 }

abbrev tightened : State
tightened = state_of at_work (update_config (by "admin" 6) (some tight) at_work)

tightened_runs : update_config (by "admin" 6) (some tight) at_work ≡ ok tightened
unfolding contract
tightened_runs = refl

abbrev dearer : State
dearer = state_of at_work (set_uploader_price_per_gb_admin (by "admin" 6) (some 77) at_work)

dearer_runs : set_uploader_price_per_gb_admin (by "admin" 6) (some 77) at_work ≡ ok dearer
unfolding contract
dearer_runs = refl

abbrev larger : State
larger = state_of at_work (register_as_uploader (paying "user" 6 25_000_000) (some 25) at_work)

larger_runs : register_as_uploader (paying "user" 6 25_000_000) (some 25) at_work ≡ ok larger
unfolding contract
larger_runs = refl

small : get_booked_uploader_gb at_work "user" < u64_mod
unfolding contract
small = omega arith

booking-shown_example :
    (get_booked_uploader_gb_view (some "user") larger ≡ ok 25)
    × ((get_global_storage_usage_view larger).total_booked_gb
        ≤ (get_global_storage_usage_view larger).total_allocated_gb)
    × ((get_global_storage_usage_view larger).available_gb
          + (get_global_storage_usage_view larger).total_booked_gb
        ≡ (get_global_storage_usage_view larger).total_allocated_gb)
booking-shown_example = booking-shown (paying "user" 6 25_000_000) 25 at_work small larger_runs

abbrev joined_staff : State
joined_staff = state_of at_work (add_storage_admin (by "admin" 6) (some "mirror") at_work)

abbrev left_staff : State
left_staff =
    state_of joined_staff (remove_storage_admin (by "admin" 6) (some "mirror") joined_staff)

joined_staff_runs : add_storage_admin (by "admin" 6) (some "mirror") at_work ≡ ok joined_staff
unfolding contract
joined_staff_runs = refl

left_staff_runs : remove_storage_admin (by "admin" 6) (some "mirror") joined_staff ≡ ok left_staff
unfolding contract
left_staff_runs = refl

abbrev moved : State
moved =
    state_of at_work
      (update_provider_metadata (by "north" 6) (some "https://north") (some []) at_work)

moved_runs :
    update_provider_metadata (by "north" 6) (some "https://north") (some []) at_work ≡ ok moved
unfolding contract
moved_runs = refl

abbrev filed : State
filed = state_of at_work (record_file_upload (by "server" 6) (some "user") (some 500) at_work)

filed_runs : record_file_upload (by "server" 6) (some "user") (some 500) at_work ≡ ok filed
unfolding contract
filed_runs = refl

usage_before : get_uploader_usage_view (some "user") at_work ≡ ok 0
unfolding contract get_uploader_usage_view
usage_before = refl
