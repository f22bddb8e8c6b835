-- ===== src/Registry/Uploaders.antt =====
-- Uploader booking and usage in smartContract/assembly/contracts/storage-registry.ts.
pub mod Totals
pub mod Booking
pub mod Usage
use community_storage.Base.{
  ℕ, ◌-◌, String, not, ◌||◌, Option, List, [], ◌∷◌, ◌++◌, ltb, leb, if◌then◌else◌, includes, add64,
  sub64, mul64, ok, assert, expect, ◌>>=◌, ◌>>◌,
}
use community_storage.State.{
  State, Context, Outcome, argument_missing, amount_gb_is_zero, insufficient_payment,
  insufficient_capacity, caller_is_not_storage_admin, file_size_is_zero, uploader_not_allowed,
  uploader_booked, file_upload_recorded, file_upload_removed,
}
use community_storage.Registry.{
  generate_event, get_uploader_price_per_gb, get_total_allocated_gb_across_providers,
  get_total_booked_gb_across_uploaders, get_booked_uploader_gb, set_booked_uploader_gb,
  get_uploader_index, set_uploader_index, get_uploader_usage, set_uploader_usage, is_storage_admin,
  assert_not_paused,
}

-- `newTotalBookedGb` of `registerAsUploader`.
unfoldable pub new_total_booked : State → String → ℕ → ℕ
unfolding get_total_booked_gb_across_uploaders get_booked_uploader_gb get_uploader_index
new_total_booked s caller amount_gb =
    if includes (get_uploader_index s) caller
    then add64 (sub64 (get_total_booked_gb_across_uploaders s) (get_booked_uploader_gb s caller))
        amount_gb
    else add64 (get_total_booked_gb_across_uploaders s) amount_gb

-- `availableGb` of `registerAsUploader` and of `getGlobalStorageUsageView`.
unfoldable pub available_gb : ℕ → ℕ → ℕ
available_gb total_allocated_gb total_booked_gb =
    if ltb total_booked_gb total_allocated_gb then total_allocated_gb - total_booked_gb else 0

unfoldable pub push_uploader_index : String → List String → State → State
unfolding set_uploader_index
push_uploader_index caller index s =
    if not (includes index caller) then set_uploader_index (index ++ caller ∷ []) s else s

-- The writes of `registerAsUploader`, after its assertions.
unfoldable pub booked : Context → ℕ → State → State
booked ctx amount_gb s =
    let existing_gb = get_booked_uploader_gb s ctx.caller in
    let s1 =
      push_uploader_index ctx.caller (get_uploader_index s)
        (set_booked_uploader_gb ctx.caller amount_gb s) in
    generate_event (uploader_booked ctx.caller amount_gb (ltb 0 existing_gb)) s1

unfoldable pub register_as_uploader : Context → Option ℕ → State → Outcome
register_as_uploader ctx amount_gb? s = do
  assert_not_paused s
  amount_gb ← expect amount_gb? (argument_missing "amountGb")
  assert (ltb 0 amount_gb) amount_gb_is_zero
  let price_per_gb = get_uploader_price_per_gb s
  let required_payment = mul64 amount_gb price_per_gb
  assert (leb required_payment ctx.transferred_coins)
      (insufficient_payment required_payment amount_gb price_per_gb)
  let total_allocated_gb = get_total_allocated_gb_across_providers s
  let total_booked_gb = get_total_booked_gb_across_uploaders s
  assert (leb (new_total_booked s ctx.caller amount_gb) total_allocated_gb) (
      insufficient_capacity amount_gb (available_gb total_allocated_gb total_booked_gb)
        total_allocated_gb total_booked_gb)
  ok (booked ctx amount_gb s)

-- The writes of `recordFileUpload`, after its assertions.
unfoldable pub recorded : String → ℕ → State → State
recorded uploader_address file_size_bytes s =
    let current_usage = get_uploader_usage s uploader_address in
    let new_usage = add64 current_usage file_size_bytes in
    generate_event (file_upload_recorded uploader_address file_size_bytes new_usage)
      (set_uploader_usage uploader_address new_usage s)

unfoldable pub record_file_upload : Context → Option String → Option ℕ → State → Outcome
record_file_upload ctx uploader_address? file_size_bytes? s = do
  assert_not_paused s
  assert (is_storage_admin s ctx.caller) caller_is_not_storage_admin
  uploader_address ← expect uploader_address? (argument_missing "uploaderAddress")
  file_size_bytes ← expect file_size_bytes? (argument_missing "fileSizeBytes")
  assert (ltb 0 file_size_bytes) file_size_is_zero
  assert (is_storage_admin s uploader_address || ltb 0 (get_booked_uploader_gb s uploader_address))
      uploader_not_allowed
  ok (recorded uploader_address file_size_bytes s)

-- The writes of `removeFileUpload`, after its assertions.
unfoldable pub removed : String → ℕ → State → State
removed uploader_address file_size_bytes s =
    let current_usage = get_uploader_usage s uploader_address in
    let new_usage =
      if ltb file_size_bytes current_usage then current_usage - file_size_bytes else 0 in
    generate_event (file_upload_removed uploader_address file_size_bytes new_usage)
      (set_uploader_usage uploader_address new_usage s)

unfoldable pub remove_file_upload : Context → Option String → Option ℕ → State → Outcome
remove_file_upload ctx uploader_address? file_size_bytes? s = do
  assert_not_paused s
  assert (is_storage_admin s ctx.caller) caller_is_not_storage_admin
  uploader_address ← expect uploader_address? (argument_missing "uploaderAddress")
  file_size_bytes ← expect file_size_bytes? (argument_missing "fileSizeBytes")
  assert (ltb 0 file_size_bytes) file_size_is_zero
  ok (removed uploader_address file_size_bytes s)
