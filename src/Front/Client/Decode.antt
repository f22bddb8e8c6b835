-- ===== src/Front/Client/Decode.antt =====
-- Reading back what stands in an answer of the contract, or in the arguments of a call.
use mathlib.Core.List.{append-nil, append_assoc}
use community_storage.Base.{
  true, false, ◌>>=◌, ◌+◌, Bool, ℕ, ◌≡◌, refl, sym, ap, ◌∙◌, subst, String, some, List, [], ◌++◌,
  arith, IsU64, Result, ok, ltb, ◌<◌, ◌≤◌, ◌==◌, if◌then◌else◌, length, length-append,
}
use community_storage.Structs.{StorageNode, StorageConfig, PeriodStats, new_config, new_stats}
use community_storage.Structs.RoundTrip.Config.{IsStorageConfigU64, config_round_trip}
use community_storage.Structs.RoundTrip.Stats.{IsPeriodStatsU64, stats_round_trip}
use community_storage.Structs.Args.{
  ArgsCodec, Reading, at_offset, Before, Before-start, next_string-Before, next_u64-Before,
  next_strings-Before, Reads, Reads-start, Reads-string, Reads-u64, Reads-bool, Reads-strings,
}
use community_storage.Structs.Serialize.{
  serialize_node, serialize_config, deserialize_config, serialize_stats, deserialize_stats,
}
use community_storage.Structs.RoundTrip.Node.{IsStorageNodeU64, serialize_node-append}
use community_storage.State.{ProviderMetadata}
use community_storage.Registry.Views.{StorageUsage, flag}
use community_storage.Registry.Views.Bytes.{argument}
use community_storage.Front.Client.{
  NodeInfo, no_info, complete, attempt, only_u64, no_metadata, no_usage, metadata_reading,
  usage_reading, node_info_reading,
}

-- What the page shows of a node: under `stakedAmount` it shows the last rewarded period.
abbrev pub shown : StorageNode → NodeInfo
shown n = record {
  address = n.address;
  allocated_gb = n.allocated_gb;
  registered_period = n.registered_period;
  total_challenges = n.total_challenges;
  passed_challenges = n.passed_challenges;
  pending_rewards = n.pending_rewards;
  last_challenged_period = n.last_challenged_period;
  staked_amount = n.last_rewarded_period;
  active = n.active;
}

pub complete-Reads :
    {T : Type 0} {r : Reading T} {d : List ℕ} {t : T} {rest : List ℕ}
    → Reads r d t rest
    → complete r ≡ ok t
complete-Reads p = ap complete p.result

module _ (C : ArgsCodec) where
  -- One value, alone in an answer or among the arguments.
  alone : (e : List ℕ) → Before e 0 (e ++ [])
  alone e = subst (λ d. Before d 0 (e ++ [])) (append-nil e) (Before-start [] (e ++ []))

  pub argument-string : (v : String) → argument (C.next_string (C.add_string [] v) 0) ≡ some v
  argument-string v =
      rw (C.add_string_lem, next_string-Before C [] v (alone (C.enc_string v)), argument) refl

  pub argument-u64 : (v : ℕ) → IsU64 v → argument (C.next_u64 (C.add_u64 [] v) 0) ≡ some v
  argument-u64 v h =
      rw (C.add_u64_lem, next_u64-Before C [] v h (alone (C.enc_u64 v)), argument) refl

  pub argument-bytes : (v : ℕ) → IsU64 v → argument (C.next_u64 (C.u64_to_bytes v) 0) ≡ some v
  argument-bytes v h =
      rw (C.u64_to_bytes_lem, next_u64-Before C [] v h (alone (C.enc_u64 v)), argument) refl

  pub argument-strings :
      (v : List String) → argument (C.next_strings (C.add_strings [] v) 0) ≡ some v
  argument-strings v =
      rw (C.add_strings_lem, next_strings-Before C [] v (alone (C.enc_strings v)), argument) refl

  whole_node :
      (n : StorageNode)
      → C.enc_string n.address
          ++ (C.enc_u64 n.allocated_gb
              ++ (C.enc_u64 n.registered_period
                  ++ (C.enc_u64 n.total_challenges
                      ++ (C.enc_u64 n.passed_challenges
                          ++ (C.enc_u64 n.pending_rewards
                              ++ (C.enc_u64 n.last_challenged_period
                                  ++ (C.enc_u64 n.last_rewarded_period
                                      ++ (C.enc_bool n.active ++ []))))))))
        ≡ serialize_node C n
  whole_node n = sym (serialize_node-append C n []) ∙ append-nil (serialize_node C n)

  pub shown-Reads :
      (n : StorageNode)
      → IsStorageNodeU64 n
      → Reads (node_info_reading C (serialize_node C n)) (serialize_node C n) (shown n) []
  unfolding node_info_reading
  shown-Reads n fits =
      subst (λ d. Reads (node_info_reading C d) d (shown n) []) (whole_node n)
        (Reads-bool C "active" _ n.active (λ v x. record x { active = v })
          (Reads-u64 C "stakedAmount" _ n.last_rewarded_period
            (λ v x. record x { staked_amount = v }) fits.last_rewarded_period_fits
            (Reads-u64 C "lastChallengedPeriod" _ n.last_challenged_period
              (λ v x. record x { last_challenged_period = v }) fits.last_challenged_period_fits
              (Reads-u64 C "pendingRewards" _ n.pending_rewards
                (λ v x. record x { pending_rewards = v }) fits.pending_rewards_fits
                (Reads-u64 C "passedChallenges" _ n.passed_challenges
                  (λ v x. record x { passed_challenges = v }) fits.passed_challenges_fits
                  (Reads-u64 C "totalChallenges" _ n.total_challenges
                    (λ v x. record x { total_challenges = v }) fits.total_challenges_fits
                    (Reads-u64 C "registeredPeriod" _ n.registered_period
                      (λ v x. record x { registered_period = v }) fits.registered_period_fits
                      (Reads-u64 C "allocatedGb" _ n.allocated_gb
                        (λ v x. record x { allocated_gb = v }) fits.allocated_gb_fits
                        (Reads-string C "address" _ n.address (λ v x. record x { address = v })
                          (Reads-start no_info [] _))))))))))

-- What the client makes of an answer that must not be empty.
pub nonempty_answer :
    {A : Type 0} (d x : A) (value : List ℕ) (r : Result String A)
    → 0 < length value
    → r ≡ ok x
    → attempt d (if length value == 0 then ok d else r) ≡ x
nonempty_answer d x value r p e = ground arith

pub long_answer :
    {A : Type 0} (d x : A) (value : List ℕ) (r : Result String A)
    → 8 ≤ length value
    → r ≡ ok x
    → attempt d (if ltb (length value) 8 then ok d else r) ≡ x
long_answer d x value r p e = ground arith

module _ (C : ArgsCodec) where
  metadata-Reads :
      (m : ProviderMetadata)
      → Reads
          (metadata_reading C (C.enc_string m.endpoint ++ (C.enc_strings m.p2p_addrs ++ [])))
          (C.enc_string m.endpoint ++ (C.enc_strings m.p2p_addrs ++ []))
          m
          []
  unfolding metadata_reading
  metadata-Reads m =
      Reads-strings C "p2pAddrs" _ m.p2p_addrs (λ v x. record x { p2p_addrs = v })
        (Reads-string C "endpoint" _ m.endpoint (λ v x. record x { endpoint = v })
          (Reads-start no_metadata [] _))

  pub metadata_read :
      (m : ProviderMetadata)
      → let value = C.add_strings (C.add_string [] m.endpoint) m.p2p_addrs in
        attempt no_metadata
          (if length value == 0 then ok no_metadata else complete (metadata_reading C value))
        ≡ m
  metadata_read m =
      let value = C.add_strings (C.add_string [] m.endpoint) m.p2p_addrs in
      let e = C.enc_string m.endpoint in
      let f = C.enc_strings m.p2p_addrs in
      let split : value ≡ e ++ (f ++ []) = simp (C.add_string_lem, C.add_strings_lem, append-nil) in
      rw split (
        nonempty_answer no_metadata m (e ++ (f ++ [])) _
          (omega (arith, length-append {0} e (f ++ []), C.length-enc_string m.endpoint))
          (complete-Reads (metadata-Reads m)))

  usage-Reads :
      (u : StorageUsage)
      → IsU64 u.total_allocated_gb
      → IsU64 u.total_booked_gb
      → IsU64 u.available_gb
      → let value =
          C.enc_u64 u.total_allocated_gb
          ++ (C.enc_u64 u.total_booked_gb ++ (C.enc_u64 u.available_gb ++ [])) in
        Reads (usage_reading C value) value u []
  unfolding usage_reading
  usage-Reads u ha hb hc =
      Reads-u64 C "availableGb" _ u.available_gb (λ v x. record x { available_gb = v }) hc
        (Reads-u64 C "totalBookedGb" _ u.total_booked_gb (λ v x. record x { total_booked_gb = v })
          hb
          (Reads-u64 C "totalAllocatedGb" _ u.total_allocated_gb
            (λ v x. record x { total_allocated_gb = v }) ha (Reads-start no_usage [] _)))

  pub usage_read :
      (u : StorageUsage)
      → IsU64 u.total_allocated_gb
      → IsU64 u.total_booked_gb
      → IsU64 u.available_gb
      → let value =
          C.add_u64
            (C.add_u64 (C.add_u64 [] u.total_allocated_gb) u.total_booked_gb)
            u.available_gb in
        attempt no_usage
          (if ltb (length value) 8 then ok no_usage else complete (usage_reading C value))
        ≡ u
  usage_read u ha hb hc =
      let a = C.enc_u64 u.total_allocated_gb in
      let b = C.enc_u64 u.total_booked_gb in
      let c = C.enc_u64 u.available_gb in
      let value =
        C.add_u64 (C.add_u64 (C.add_u64 [] u.total_allocated_gb) u.total_booked_gb)
          u.available_gb in
      let split : value ≡ a ++ (b ++ (c ++ [])) = simp (C.add_u64_lem, append-nil, append_assoc) in
      rw split (
        long_answer no_usage u (a ++ (b ++ (c ++ []))) _
          (omega
            (arith, length-append {0} a (b ++ (c ++ [])), C.length-enc_u64 u.total_allocated_gb))
          (complete-Reads (usage-Reads u ha hb hc)))

  -- One number in an answer of eight bytes.
  pub number_read :
      (n : ℕ)
      → IsU64 n
      → attempt 0
          (if ltb (length (C.u64_to_bytes n)) 8 then ok 0 else only_u64 C (C.u64_to_bytes n))
        ≡ n
  number_read n h =
      long_answer 0 n (C.u64_to_bytes n) _
        (omega (arith, ap length (C.u64_to_bytes_lem n), C.length-enc_u64 n))
        (rw (argument-bytes C n h) refl)

  pub flag_read :
      (b : Bool)
      → let value = C.u64_to_bytes (flag b) in
        attempt false
          (if ltb (length value) 8 then ok false else only_u64 C value >>= λ n. ok (n == 1))
        ≡ b
  flag_read b =
      let small : IsU64 (flag b) = ground arith in
      long_answer false b (C.u64_to_bytes (flag b)) _
        (omega (arith, ap length (C.u64_to_bytes_lem (flag b)), C.length-enc_u64 (flag b)))
        (rw (argument-bytes C (flag b) small) (ap ok (same b)))
    where
      same : (x : Bool) → (flag x == 1) ≡ x
      same true = refl
      same false = refl

  pub config_read :
      (c : StorageConfig)
      → IsStorageConfigU64 c
      → complete (deserialize_config C new_config (serialize_config C c) 0) ≡ ok c
  config_read c fits = ap complete (
      subst
        (λ d. deserialize_config C new_config d 0 ≡ at_offset c (0 + length (serialize_config C c)))
        (append-nil (serialize_config C c)) (config_round_trip C new_config c [] [] fits))

  pub stats_read :
      (t : PeriodStats)
      → IsPeriodStatsU64 t
      → complete (deserialize_stats C (new_stats 0) (serialize_stats C t) 0) ≡ ok t
  stats_read t fits = ap complete (
      subst
        (λ d.
          deserialize_stats C (new_stats 0) d 0 ≡ at_offset t (0 + length (serialize_stats C t)))
        (append-nil (serialize_stats C t)) (stats_round_trip C (new_stats 0) t [] [] fits))
