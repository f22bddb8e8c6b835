-- ===== src/Registry.antt =====
-- The helper functions of smartContract/assembly/contracts/storage-registry.ts: reads and writes
-- of the storage, the totals over providers and uploaders, and the tests on the caller.
pub mod Nodes
pub mod Challenges
pub mod Rewards
pub mod Uploaders
pub mod Admin
pub mod Views
pub mod Calls
use community_storage.Base.{
  ℕ, String, Bool, false, not, ◌||◌, Option, none, some, List, [], ◌∷◌, ◌++◌, set, del, is_some,
  get_or, leb, ◌==◌, if◌then◌else◌, is_same, includes, String_discrete, ℕ_discrete, add64, Result,
  assert,
}
use community_storage.Structs.{
  StorageNode, Challenge, PeriodStats, new_stats, StorageConfig, new_config,
}
use community_storage.State.{
  State, Context, Event, Error, contract_is_paused, caller_is_not_admin, caller_is_not_challenger,
}

abbrev pub default_uploader_price_per_gb : ℕ
default_uploader_price_per_gb = 1_000_000

-- `generateEvent`
unfoldable pub generate_event : Event → State → State
generate_event e s = record s { events = s.events ++ e ∷ [] }

unfoldable pub get_total_nodes : State → ℕ
get_total_nodes s = get_or 0 s.total_nodes

unfoldable pub set_total_nodes : ℕ → State → State
set_total_nodes count s = record s { total_nodes = some count }

-- `Storage.set(stringToBytes(nodeIndexKey(index)), stringToBytes(address))`
unfoldable pub set_node_slot : ℕ → String → State → State
set_node_slot index address s = record s { node_slots = set ℕ_discrete s.node_slots index address }

unfoldable pub get_node_address_at_internal : State → ℕ → String
unfolding get_total_nodes
get_node_address_at_internal s index =
    if leb (get_total_nodes s) index then "" else get_or "" (s.node_slots index)

unfoldable pub is_storage_admin : State → String → Bool
is_storage_admin s address = is_some (s.storage_admins address)

unfoldable pub get_uploader_price_per_gb : State → ℕ
get_uploader_price_per_gb s = get_or default_uploader_price_per_gb s.uploader_price_per_gb

unfoldable pub set_uploader_price_per_gb : ℕ → State → State
set_uploader_price_per_gb price_per_gb s = record s { uploader_price_per_gb = some price_per_gb }

unfoldable pub get_booked_uploader_gb : State → String → ℕ
get_booked_uploader_gb s address = get_or 0 (s.uploader_bookings address)

unfoldable pub set_booked_uploader_gb : String → ℕ → State → State
set_booked_uploader_gb address gb s =
    if gb == 0
    then record s { uploader_bookings = del String_discrete s.uploader_bookings address }
    else record s { uploader_bookings = set String_discrete s.uploader_bookings address gb }

unfoldable pub get_uploader_index : State → List String
get_uploader_index s = get_or [] s.uploader_index

unfoldable pub set_uploader_index : List String → State → State
set_uploader_index addresses s = record s { uploader_index = some addresses }

unfoldable pub get_uploader_usage : State → String → ℕ
get_uploader_usage s address = get_or 0 (s.uploader_usage address)

unfoldable pub set_uploader_usage : String → ℕ → State → State
set_uploader_usage address bytes s =
    if bytes == 0
    then record s { uploader_usage = del String_discrete s.uploader_usage address }
    else record s { uploader_usage = set String_discrete s.uploader_usage address bytes }

unfoldable pub get_config : State → StorageConfig
get_config s = get_or new_config s.config

unfoldable pub set_config : StorageConfig → State → State
set_config config s = record s { config = some config }

unfoldable pub get_node : State → String → Option StorageNode
get_node s address = s.nodes address

unfoldable pub set_node : StorageNode → State → State
set_node node s = record s { nodes = set String_discrete s.nodes node.address node }

unfoldable pub get_node_index : State → List String
get_node_index s = get_or [] s.node_index

unfoldable pub set_node_index : List String → State → State
set_node_index addresses s = record s { node_index = some addresses }

unfoldable pub get_challenge : State → String → Option Challenge
get_challenge s id = s.challenges id

unfoldable pub set_challenge : Challenge → State → State
set_challenge challenge s = record s {
  challenges = set String_discrete s.challenges challenge.id challenge;
}

unfoldable pub get_period_stats : State → ℕ → PeriodStats
get_period_stats s period = get_or (new_stats period) (s.periods period)

unfoldable pub set_period_stats : PeriodStats → State → State
set_period_stats stats s = record s { periods = set ℕ_discrete s.periods stats.period stats }

-- One round of the loop of `getTotalAllocatedGbAcrossProviders`.
unfoldable pub add_allocated : Option StorageNode → ℕ → ℕ
add_allocated none total = total
add_allocated (some node) total = if not node.active then total else add64 total node.allocated_gb

unfoldable pub sum_allocated : State → List String → ℕ → ℕ
unfolding get_node add_allocated
sum_allocated s [] total = total
sum_allocated s (a ∷ rest) total = sum_allocated s rest (add_allocated (get_node s a) total)

unfoldable pub get_total_allocated_gb_across_providers : State → ℕ
unfolding get_node_index sum_allocated
get_total_allocated_gb_across_providers s = sum_allocated s (get_node_index s) 0

-- The loop of `getTotalBookedGbAcrossUploaders`: `seen` holds the entries before this one.
unfoldable pub sum_booked : State → List String → List String → ℕ → ℕ
unfolding get_booked_uploader_gb
sum_booked s seen [] total = total
sum_booked s seen (a ∷ rest) total =
    sum_booked s (seen ++ a ∷ []) rest
      (if includes seen a then total else add64 total (get_booked_uploader_gb s a))

unfoldable pub get_total_booked_gb_across_uploaders : State → ℕ
unfolding get_uploader_index sum_booked
get_total_booked_gb_across_uploaders s = sum_booked s [] (get_uploader_index s) 0

abbrev is_text : String → Option String → Bool
is_text t none = false
is_text t (some v) = is_same v t

unfoldable pub is_admin : State → String → Bool
is_admin s address = is_text address s.admin

unfoldable pub is_challenger : State → String → Bool
is_challenger s address = is_some (s.challengers address)

unfoldable pub is_paused : State → Bool
is_paused s = is_text "true" s.paused

unfoldable pub assert_not_paused : State → Result Error (Unit {0})
unfolding is_paused
assert_not_paused s = assert (not (is_paused s)) contract_is_paused

unfoldable pub assert_admin : Context → State → Result Error (Unit {0})
unfolding is_admin
assert_admin ctx s = assert (is_admin s ctx.caller) caller_is_not_admin

unfoldable pub assert_challenger : Context → State → Result Error (Unit {0})
unfolding is_admin is_challenger
assert_challenger ctx s =
    assert (is_challenger s ctx.caller || is_admin s ctx.caller) caller_is_not_challenger
