-- ===== src/Registry/Views/Answers.antt =====
-- What the entry points that read answer after the entry points that write.
use community_storage.Base.{
  ℕ, [], ◌∷◌, ◌++◌, ◌≤◌, ◌≡◌, String, true, false, some, List, includes, is_same, add64, mul64,
  IsU64, ◌==◌, ◌+◌, ◌<◌, ok, arith,
}
use community_storage.Structs.{StorageNode, PeriodStats, StorageConfig, new_node, new_challenge}
use community_storage.State.{State, Context}
use community_storage.Registry.{
  generate_event, get_config, set_config, get_node, set_node, get_node_index, set_node_index,
  get_challenge, set_challenge, get_period_stats, set_period_stats, is_storage_admin,
  set_uploader_price_per_gb, get_uploader_price_per_gb, get_booked_uploader_gb, get_uploader_usage,
  set_uploader_usage,
}
use community_storage.Registry.Nodes.{
  register_storage_node, registered, push_node_index, push_node_slot, count_registered,
  store_metadata, set_provider_metadata, update_provider_metadata,
}
use community_storage.Registry.Challenges.{issue_challenge, issued, count_issued}
use community_storage.Registry.Uploaders.{
  register_as_uploader, available_gb, record_file_upload, recorded,
}
use community_storage.Registry.Uploaders.Booking.{register_as_uploader-capacity}
use community_storage.Registry.Admin.{
  set_uploader_price_per_gb_admin, update_config, add_storage_admin, remove_storage_admin,
}
use community_storage.Registry.Views.{
  get_node_info, get_registered_addresses_view, calculate_pending_rewards, get_challenge_info,
  get_uploader_price_per_gb_view, get_booked_uploader_gb_view, get_global_storage_usage_view,
  get_provider_metadata_view, get_uploader_usage_view, get_period_stats_view, get_config_view,
  get_is_storage_admin,
}

includes-push : (xs : List String) (a : String) → includes (xs ++ a ∷ []) a ≡ true
includes-push [] a = ground arith
includes-push (x ∷ xs) a = ground (arith, includes-push xs a)

register_storage_node-eq :
    (ctx : Context) (gb : ℕ) (endpoint : String) (p2p_addrs : List String) (s : State) {u : State}
    → register_storage_node ctx (some gb) (some endpoint) (some p2p_addrs) s ≡ ok u
    → u ≡ registered ctx gb endpoint p2p_addrs s
unfolding register_storage_node
register_storage_node-eq ctx gb endpoint p2p_addrs s h = ground arith

-- A provider that has registered is shown with the allocation it asked for, active, without
-- challenges and without rewards, and its address is listed.
pub register-shown :
    (ctx : Context) (gb : ℕ) (endpoint : String) (p2p_addrs : List String) (s : State) {u : State}
    → register_storage_node ctx (some gb) (some endpoint) (some p2p_addrs) s ≡ ok u
    → (get_node_info (some ctx.caller) u ≡ ok (new_node ctx.caller gb ctx.current_period))
      × (calculate_pending_rewards (some ctx.caller) u ≡ ok 0)
      × (includes (get_registered_addresses_view u) ctx.caller ≡ true)
unfolding registered push_node_index push_node_slot count_registered store_metadata
    set_provider_metadata set_node set_node_index get_node_index get_node get_node_info
    calculate_pending_rewards get_registered_addresses_view
register-shown ctx gb endpoint p2p_addrs s h =
    let e = register_storage_node-eq ctx gb endpoint p2p_addrs s h in
    rw e (ground arith, ground arith, grind (arith, includes-push))

issue_challenge-eq :
    (ctx : Context) (id a chunk : String) (nonce : ℕ) (s : State) {u : State}
    → issue_challenge ctx (some id) (some a) (some chunk) (some nonce) s ≡ ok u
    → (n : StorageNode) × (get_node s a ≡ some n) × (u ≡ issued ctx id a chunk nonce n s)
unfolding issue_challenge
issue_challenge-eq ctx id a chunk nonce s h = ground arith

-- A challenge that was issued is shown open, with the terms it was issued on and the deadline that
-- the configured timeout sets; its node counts one challenge more than before; the other challenges
-- are shown as before. The node stands under its own address.
pub issue-shown :
    (ctx : Context) (id a chunk : String) (nonce : ℕ) (s : State) (n : StorageNode) {u : State}
    → get_node_info (some a) s ≡ ok n
    → n.address ≡ a
    → issue_challenge ctx (some id) (some a) (some chunk) (some nonce) s ≡ ok u
    → (get_challenge_info (some id) u
        ≡ ok (
            new_challenge id a chunk nonce ctx.current_period
              (add64 ctx.timestamp (get_config_view s).challenge_response_timeout)))
      × (get_node_info (some a) u
          ≡ ok (record n {
            total_challenges = add64 n.total_challenges 1;
            last_challenged_period = ctx.current_period;
          }))
      × ((other : String)
          → is_same id other ≡ false
          → get_challenge_info (some other) u ≡ get_challenge_info (some other) s)
unfolding issued count_issued set_challenge set_node set_period_stats generate_event get_node
    get_challenge get_node_info get_challenge_info get_config_view
issue-shown ctx id a chunk nonce s n shown own h =
    let (m, found, e) = issue_challenge-eq ctx id a chunk nonce s h in
    rw e (ground arith, ground arith, λ other apart. ground arith)

-- The limits that the admin sets are the ones that are shown and applied: after `updateConfig`, a
-- provider registers only with an allocation between the two limits.
pub limits_applied :
    (ctx : Context) (c : StorageConfig) (s : State) {t : State}
    → update_config ctx (some c) s ≡ ok t
    → (get_config_view t ≡ c)
      × ((provider : Context) (gb : ℕ) (endpoint : String) (p2p_addrs : List String) (u : State)
          → register_storage_node provider (some gb) (some endpoint) (some p2p_addrs) t ≡ ok u
          → (c.min_allocated_gb ≤ gb) × (gb ≤ c.max_allocated_gb))
unfolding update_config set_config generate_event get_config_view get_config register_storage_node
limits_applied ctx c s h = (ground arith, λ provider gb endpoint p2p_addrs u k. ground arith)

-- The price that the admin sets is shown and charged: after `setUploaderPricePerGbAdmin`, which
-- refuses a price of 0, a booking succeeds only with the coins for it, the product being modulo
-- 2^64.
pub price-charged :
    (ctx : Context) (price : ℕ) (s : State) {t : State}
    → set_uploader_price_per_gb_admin ctx (some price) s ≡ ok t
    → (get_uploader_price_per_gb_view t ≡ price)
      × (0 < price)
      × ((uploader : Context) (gb : ℕ) (u : State)
          → register_as_uploader uploader (some gb) t ≡ ok u
          → mul64 gb price ≤ uploader.transferred_coins)
unfolding set_uploader_price_per_gb_admin set_uploader_price_per_gb generate_event
    get_uploader_price_per_gb_view get_uploader_price_per_gb register_as_uploader
price-charged ctx price s h = (ground arith, ground arith, λ uploader gb u k. ground arith)

-- After a booking the caller is shown with the amount that it booked, and the usage that is shown
-- for all is consistent: no more is booked than is allocated, and what is available makes up the
-- difference. The caller's old booking is 64 bits wide.
pub booking-shown :
    (ctx : Context) (gb : ℕ) (s : State) {u : State}
    → IsU64 (get_booked_uploader_gb s ctx.caller)
    → register_as_uploader ctx (some gb) s ≡ ok u
    → (get_booked_uploader_gb_view (some ctx.caller) u ≡ ok gb)
      × ((get_global_storage_usage_view u).total_booked_gb
          ≤ (get_global_storage_usage_view u).total_allocated_gb)
      × ((get_global_storage_usage_view u).available_gb
            + (get_global_storage_usage_view u).total_booked_gb
          ≡ (get_global_storage_usage_view u).total_allocated_gb)
unfolding get_booked_uploader_gb_view get_global_storage_usage_view available_gb
booking-shown ctx gb s small h =
    let (paid, bookings, total, room) = register_as_uploader-capacity ctx gb s small h in
    let mine = bookings ctx.caller in (ground arith, room, ground arith)

-- Adding a storage admin and then removing it are shown at once, for the address alone: every other
-- address is answered as before.
pub storage_admin-shown :
    (ctx : Context) (a : String) (s : State) {t u : State}
    → add_storage_admin ctx (some a) s ≡ ok t
    → remove_storage_admin ctx (some a) t ≡ ok u
    → (get_is_storage_admin (some a) t ≡ ok 1)
      × (get_is_storage_admin (some a) u ≡ ok 0)
      × ((other : String)
          → is_same a other ≡ false
          → (get_is_storage_admin (some other) t ≡ get_is_storage_admin (some other) s)
            × (get_is_storage_admin (some other) u ≡ get_is_storage_admin (some other) s))
unfolding add_storage_admin remove_storage_admin generate_event get_is_storage_admin
    is_storage_admin
storage_admin-shown ctx a s h k =
    (ground arith, ground arith, λ other apart. (ground arith, ground arith))

-- The metadata that a registered provider stores is shown for it at once, and the metadata of the
-- others, and all nodes, are shown as before.
pub metadata-shown :
    (ctx : Context) (endpoint : String) (p2p_addrs : List String) (s : State) {u : State}
    → update_provider_metadata ctx (some endpoint) (some p2p_addrs) s ≡ ok u
    → (get_provider_metadata_view (some ctx.caller) u
        ≡ ok (record { endpoint = endpoint; p2p_addrs = p2p_addrs }))
      × ((other : String)
          → is_same ctx.caller other ≡ false
          → get_provider_metadata_view (some other) u ≡ get_provider_metadata_view (some other) s)
      × ((a : String) → get_node_info (some a) u ≡ get_node_info (some a) s)
unfolding update_provider_metadata set_provider_metadata generate_event get_provider_metadata_view
    get_node_info get_node
metadata-shown ctx endpoint p2p_addrs s h =
    (ground arith, λ other apart. ground arith, λ a. ground arith)

-- The usage that is shown for an uploader after a file was recorded is the sum, modulo 2^64, of the
-- usage shown before and the size; the others are shown as before.
pub usage-shown :
    (ctx : Context) (uploader : String) (size used : ℕ) (s : State) {u : State}
    → record_file_upload ctx (some uploader) (some size) s ≡ ok u
    → get_uploader_usage_view (some uploader) s ≡ ok used
    → (get_uploader_usage_view (some uploader) u ≡ ok (add64 used size))
      × ((other : String)
          → is_same uploader other ≡ false
          → get_uploader_usage_view (some other) u ≡ get_uploader_usage_view (some other) s)
unfolding record_file_upload recorded set_uploader_usage generate_event get_uploader_usage_view
    get_uploader_usage
usage-shown ctx uploader size used s h k = (ground arith, λ other apart. ground arith)

-- An issued challenge is shown as one more in the statistics of its period; the other periods are
-- shown as before. The statistics of the period stand under its own number.
pub issue_stats-shown :
    (ctx : Context) (id a chunk : String) (nonce : ℕ) (s : State) (t : PeriodStats) {u : State}
    → get_period_stats_view (some ctx.current_period) s ≡ ok t
    → t.period ≡ ctx.current_period
    → issue_challenge ctx (some id) (some a) (some chunk) (some nonce) s ≡ ok u
    → (get_period_stats_view (some ctx.current_period) u
        ≡ ok (record t { challenges_issued = add64 t.challenges_issued 1 }))
      × ((other : ℕ)
          → (ctx.current_period == other) ≡ false
          → get_period_stats_view (some other) u ≡ get_period_stats_view (some other) s)
unfolding issued count_issued set_challenge set_node set_period_stats generate_event
    get_period_stats get_period_stats_view
issue_stats-shown ctx id a chunk nonce s t shown own h =
    let (m, found, e) = issue_challenge-eq ctx id a chunk nonce s h in
    rw e (ground arith, λ other apart. ground arith)
