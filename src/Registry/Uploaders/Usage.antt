-- ===== src/Registry/Uploaders/Usage.antt =====
-- The usage that storage servers record for an uploader.
use community_storage.Base.{
  ℕ, ◌+◌, ◌-◌, ◌<◌, ◌≡◌, ◌↔◌, String, true, false, some, arith, is_same, if◌then◌else◌, add64,
  add64-eq-add, u64_mod, ok,
}
use community_storage.State.{State, Context}
use community_storage.Registry.{
  generate_event, is_paused, assert_not_paused, is_storage_admin, get_uploader_usage,
  set_uploader_usage,
}
use community_storage.Registry.Uploaders.{recorded, record_file_upload, removed, remove_file_upload}
use community_storage.Registry.Views.{get_is_allowed_uploader}

module _ (uploader : String) (size : ℕ) (s : State) (a : String) where
  recorded_usage : get_uploader_usage (recorded uploader size s) a ≡ (
      if is_same uploader a
      then add64 (get_uploader_usage s uploader) size
      else get_uploader_usage s a)
  unfolding recorded set_uploader_usage generate_event get_uploader_usage
  recorded_usage = ground arith

  removed_usage : get_uploader_usage (removed uploader size s) a ≡ (
      if is_same uploader a then get_uploader_usage s uploader - size else get_uploader_usage s a)
  unfolding removed set_uploader_usage generate_event get_uploader_usage
  removed_usage = ground arith

record_file_upload-eq :
    (ctx : Context) (uploader : String) (size : ℕ) (s : State) {u : State}
    → record_file_upload ctx (some uploader) (some size) s ≡ ok u
    → u ≡ recorded uploader size s
unfolding record_file_upload
record_file_upload-eq ctx uploader size s h = ground arith

remove_file_upload-eq :
    (ctx : Context) (uploader : String) (size : ℕ) (s : State) {u : State}
    → remove_file_upload ctx (some uploader) (some size) s ≡ ok u
    → u ≡ removed uploader size s
unfolding remove_file_upload
remove_file_upload-eq ctx uploader size s h = ground arith

-- Removing a file that was recorded gives back every uploader's usage, if the recording did not pass
-- 2^64 bytes.
pub record-remove :
    (ctx ctx' : Context) (uploader : String) (size : ℕ) (s : State) {u v : State}
    → get_uploader_usage s uploader + size < u64_mod
    → record_file_upload ctx (some uploader) (some size) s ≡ ok u
    → remove_file_upload ctx' (some uploader) (some size) u ≡ ok v
    → (a : String) → get_uploader_usage v a ≡ get_uploader_usage s a
record-remove ctx ctx' uploader size s {u} {v} room h h' a =
    let recorded_u = record_file_upload-eq ctx uploader size s h in
    let removed_v = remove_file_upload-eq ctx' uploader size u h' in
    ground (
      arith,
      recorded_usage uploader size s a,
      recorded_usage uploader size s uploader,
      removed_usage uploader size u a,
      add64-eq-add (get_uploader_usage s uploader) size,
    )

-- Removing a file subtracts its size from the uploader's usage, which never goes below zero:
-- removing more than is recorded leaves 0. No other uploader's usage changes.
pub remove_floor :
    (ctx : Context) (uploader : String) (size : ℕ) (s : State) {u : State}
    → remove_file_upload ctx (some uploader) (some size) s ≡ ok u
    → (a : String)
    → get_uploader_usage u a ≡ (
        if is_same uploader a then get_uploader_usage s uploader - size else get_uploader_usage s a)
remove_floor ctx uploader size s h a =
    rw (remove_file_upload-eq ctx uploader size s h) (removed_usage uploader size s a)

-- A storage admin may record a file that is not empty, while the contract is not paused, exactly for
-- the addresses that `getIsAllowedUploader` answers 1 for.
pub record_iff_allowed :
    (ctx : Context) (uploader : String) (size : ℕ) (s : State)
    → is_paused s ≡ false
    → is_storage_admin s ctx.caller ≡ true
    → 0 < size
    → ((u : State) × (record_file_upload ctx (some uploader) (some size) s ≡ ok u))
      ↔ (get_is_allowed_uploader (some uploader) s ≡ ok 1)
unfolding record_file_upload assert_not_paused get_is_allowed_uploader
record_iff_allowed ctx uploader size s open_ admin pos =
    (λ (u, h). ground arith, λ e. (recorded uploader size s, ground arith))
