-- ===== src/Front/Client.antt =====
-- The contract client, front/src/contract/storageRegistry.js.
pub mod Rpc
pub mod Decode
pub mod Served
pub mod Providers
pub mod Fallback
pub mod Booking
use community_storage.Base.{
  ℕ, zero, suc, ◌+◌, ◌-◌, String, Bool, false, not, ◌||◌, Option, none, some, List, [], ◌∷◌, ◌++◌,
  length, ltb, ◌==◌, if◌then◌else◌, is_some, is_same, Result, ok, abort, expect, ◌>>=◌, ◌>>◌,
}
use community_storage.Structs.{PeriodStats, new_stats, StorageConfig, new_config}
use community_storage.Structs.Args.{ArgsCodec, Reading, at_offset, failed, read, ◌▷◌}
use community_storage.State.{ProviderMetadata}
use community_storage.Registry.Views.{StorageUsage}
use community_storage.Registry.Views.Bytes.{argument}
use Rpc.{View, Answer, Chain}

-- The object that `getNodeInfo` returns.
pub record NodeInfo : Type 0 where
  pub address : String
  pub allocated_gb : ℕ
  pub registered_period : ℕ
  pub total_challenges : ℕ
  pub passed_challenges : ℕ
  pub pending_rewards : ℕ
  pub last_challenged_period : ℕ
  pub staked_amount : ℕ
  pub active : Bool

abbrev pub no_info : NodeInfo
no_info = record {
  address = "";
  allocated_gb = 0;
  registered_period = 0;
  total_challenges = 0;
  passed_challenges = 0;
  pending_rewards = 0;
  last_challenged_period = 0;
  staked_amount = 0;
  active = false;
}

-- An entry of `getStorageProviders`.
pub record StorageProvider : Type 0 where
  pub address : String
  pub allocated_gb : ℕ
  pub used_gb : ℕ
  pub available_gb : ℕ
  pub endpoint : Option String
  pub p2p_addrs : Option (List String)

abbrev pub no_metadata : ProviderMetadata
no_metadata = record { endpoint = ""; p2p_addrs = [] }

abbrev pub no_usage : StorageUsage
no_usage = record { total_allocated_gb = 0; total_booked_gb = 0; available_gb = 0 }

-- `if (res.info?.error) throw new Error(res.info.error)`
abbrev pub throw_error : Answer → Result String (Unit {0})
throw_error res = elim res.error [ none ↦ ok tt | some message ↦ abort message ]

-- An object whose fields are read one by one with `out.next…()`, each of which may throw.
abbrev pub complete : {T : Type 0} → Reading T → Result String T
complete (at_offset t _) = ok t
complete (failed _ name) = abort name

-- `try { … } catch (_) { return d }`
abbrev pub attempt : {A : Type 0} → A → Result String A → A
attempt d (ok a) = a
attempt d (abort _) = d

-- `x || undefined` on a text, and `xs?.length ? xs : undefined` on a list.
abbrev pub text_or_none : String → Option String
text_or_none t = if is_same t "" then none else some t

abbrev pub list_or_none : List String → Option (List String)
list_or_none [] = none
list_or_none (x ∷ xs) = some (x ∷ xs)

-- The entry that `getStorageProviders` pushes: no field `usedGb` is read, so nothing counts as used.
unfoldable pub provider_entry : String → NodeInfo → ProviderMetadata → StorageProvider
provider_entry address info metadata =
    let used_gb : ℕ = 0 in
    let available_gb = info.allocated_gb - used_gb in
    record {
      address = address;
      allocated_gb = info.allocated_gb;
      used_gb = used_gb;
      available_gb = if ltb 0 available_gb then available_gb else info.allocated_gb;
      endpoint = text_or_none metadata.endpoint;
      p2p_addrs = list_or_none metadata.p2p_addrs;
    }

module _ (C : ArgsCodec) where
  -- `out.nextU64()` as the only field of an answer.
  abbrev pub only_u64 : List ℕ → Result String ℕ
  only_u64 value = expect (argument (C.next_u64 value 0)) "nextU64"

  -- The fields of an answer, in the order in which they are read.
  unfoldable pub node_info_reading : List ℕ → Reading NodeInfo
  node_info_reading value =
      at_offset no_info 0
      ▷ read (C.next_string value) "address" (λ v n. record n { address = v })
      ▷ read (C.next_u64 value) "allocatedGb" (λ v n. record n { allocated_gb = v })
      ▷ read (C.next_u64 value) "registeredPeriod" (λ v n. record n { registered_period = v })
      ▷ read (C.next_u64 value) "totalChallenges" (λ v n. record n { total_challenges = v })
      ▷ read (C.next_u64 value) "passedChallenges" (λ v n. record n { passed_challenges = v })
      ▷ read (C.next_u64 value) "pendingRewards" (λ v n. record n { pending_rewards = v })
      ▷ read (C.next_u64 value) "lastChallengedPeriod"
          (λ v n. record n { last_challenged_period = v })
      ▷ read (C.next_u64 value) "stakedAmount" (λ v n. record n { staked_amount = v })
      ▷ read (C.next_bool value) "active" (λ v n. record n { active = v })

  unfoldable pub usage_reading : List ℕ → Reading StorageUsage
  usage_reading value =
      at_offset no_usage 0
      ▷ read (C.next_u64 value) "totalAllocatedGb" (λ v u. record u { total_allocated_gb = v })
      ▷ read (C.next_u64 value) "totalBookedGb" (λ v u. record u { total_booked_gb = v })
      ▷ read (C.next_u64 value) "availableGb" (λ v u. record u { available_gb = v })

  unfoldable pub metadata_reading : List ℕ → Reading ProviderMetadata
  metadata_reading value =
      at_offset no_metadata 0
      ▷ read (C.next_string value) "endpoint" (λ v m. record m { endpoint = v })
      ▷ read (C.next_strings value) "p2pAddrs" (λ v m. record m { p2p_addrs = v })

module _ (C : ArgsCodec) (sc : Chain) where
  unfoldable pub get_config : Result String StorageConfig
  get_config = do
    res ← sc View.config []
    throw_error res
    complete (
        at_offset new_config 0
        ▷ read (C.next_u64 res.value) "rewardPerGbPerPeriod"
            (λ v c. record c { reward_per_gb_per_period = v })
        ▷ read (C.next_u64 res.value) "minAllocatedGb" (λ v c. record c { min_allocated_gb = v })
        ▷ read (C.next_u64 res.value) "maxAllocatedGb" (λ v c. record c { max_allocated_gb = v })
        ▷ read (C.next_u64 res.value) "challengeResponseTimeout"
            (λ v c. record c { challenge_response_timeout = v })
        ▷ read (C.next_u64 res.value) "rewardDistributionPeriod"
            (λ v c. record c { reward_distribution_period = v }))

  unfoldable pub get_total_nodes : Result String ℕ
  get_total_nodes = do res ← sc View.total_nodes []; throw_error res; only_u64 C res.value

  unfoldable pub get_period_stats : ℕ → Result String PeriodStats
  get_period_stats period = do
    res ← sc View.period_stats (C.add_u64 [] period)
    throw_error res
    complete (
        at_offset (new_stats 0) 0
        ▷ read (C.next_u64 res.value) "period" (λ v t. record t { period = v })
        ▷ read (C.next_u64 res.value) "totalGbStored" (λ v t. record t { total_gb_stored = v })
        ▷ read (C.next_u64 res.value) "totalRewardsDistributed"
            (λ v t. record t { total_rewards_distributed = v })
        ▷ read (C.next_u64 res.value) "activeNodes" (λ v t. record t { active_nodes = v })
        ▷ read (C.next_u64 res.value) "challengesIssued" (λ v t. record t { challenges_issued = v })
        ▷ read (C.next_u64 res.value) "challengesPassed" (λ v t. record t { challenges_passed = v })
        ▷ read (C.next_bool res.value) "rewardsDistributed"
            (λ v t. record t { rewards_distributed = v }))

  unfoldable pub get_node_info : String → Result String (Option NodeInfo)
  get_node_info address = do
    res ← sc View.node_info (C.add_string [] address)
    if is_some res.error
        then ok none
        else do info ← complete (node_info_reading C res.value); ok (some info)

  unfoldable pub calculate_pending_rewards : String → Result String ℕ
  calculate_pending_rewards address = do
    res ← sc View.pending_rewards (C.add_string [] address)
    throw_error res
    only_u64 C res.value

  unfoldable pub get_node_address_at : ℕ → Result String String
  get_node_address_at index = do
    res ← sc View.node_address_at (C.add_u64 [] index)
    if is_some res.error then ok "" else expect (argument (C.next_string res.value 0)) "nextString"

  unfoldable pub get_registered_addresses : List String
  get_registered_addresses = attempt [] do
    res ← sc View.registered_addresses []
    if is_some res.error || (length res.value == 0)
        then ok []
        else expect (argument (C.next_strings res.value 0)) "nextArray"

  unfoldable pub get_is_allowed_uploader : String → Bool
  get_is_allowed_uploader address = attempt false do
    res ← sc View.is_allowed_uploader (C.add_string [] address)
    if is_some res.error || ltb (length res.value) 8
        then ok false
        else do n ← only_u64 C res.value; ok (n == 1)

  unfoldable pub get_booked_uploader_gb : String → ℕ
  get_booked_uploader_gb address = attempt 0 do
    res ← sc View.booked_uploader_gb (C.add_string [] address)
    if is_some res.error || ltb (length res.value) 8 then ok 0 else only_u64 C res.value

  unfoldable pub get_global_storage_usage : StorageUsage
  get_global_storage_usage = attempt no_usage do
    res ← sc View.global_storage_usage []
    if is_some res.error || ltb (length res.value) 8
        then ok no_usage
        else complete (usage_reading C res.value)

  unfoldable pub get_uploader_price_per_gb : ℕ
  get_uploader_price_per_gb = attempt 0 do
    res ← sc View.uploader_price_per_gb []
    if is_some res.error || ltb (length res.value) 8 then ok 0 else only_u64 C res.value

  unfoldable pub get_provider_metadata : String → ProviderMetadata
  get_provider_metadata address = attempt no_metadata do
    res ← sc View.provider_metadata (C.add_string [] address)
    if is_some res.error || (length res.value == 0)
        then ok no_metadata
        else complete (metadata_reading C res.value)

  -- The loop over the indexes, `left` of which remain.
  unfoldable pub addresses_from : (left i : ℕ) → Result String (List String)
  addresses_from zero i = ok []
  addresses_from (suc left) i = do
    addr ← get_node_address_at i
    rest ← addresses_from left (i + 1)
    ok (if is_same addr "" then rest else addr ∷ rest)

  unfoldable pub provider_addresses : Result String (List String)
  provider_addresses =
      if length get_registered_addresses == 0
      then (get_total_nodes >>= λ n. addresses_from n 0)
      else ok get_registered_addresses

  -- `if (!info || !info.active) continue; … list.push(…)`
  unfoldable pub pushed : String → Option NodeInfo → List StorageProvider → List StorageProvider
  pushed address none rest = rest
  pushed address (some info) rest =
      if not info.active
      then rest
      else provider_entry address info (get_provider_metadata address) ∷ rest

  unfoldable pub list_providers : List String → Result String (List StorageProvider)
  list_providers [] = ok []
  list_providers (address ∷ addresses) = do
    info ← get_node_info address
    rest ← list_providers addresses
    ok (pushed address info rest)

  unfoldable pub get_storage_providers : Result String (List StorageProvider)
  get_storage_providers = do addresses ← provider_addresses; list_providers addresses
