-- ===== src/Structs/RoundTrip/Stats.antt =====
-- Writing and reading the class of smartContract/assembly/structs/PeriodStats.ts.
use community_storage.Base.{ℕ, ◌+◌, ◌≡◌, List, ◌++◌, length, IsU64}
use mathlib.Core.List.{append_assoc}
use community_storage.Structs.{PeriodStats}
use community_storage.Structs.Args.{
  ArgsCodec, at_offset, Reads, Reads-start, Reads-u64, Reads-bool, Reads-end,
}
use community_storage.Structs.Serialize.{serialize_stats, deserialize_stats}

-- The number fields of a `PeriodStats` fit 64 bits.
pub record IsPeriodStatsU64 (t : PeriodStats) : Type 0 where
  pub period_fits : IsU64 t.period
  pub total_gb_stored_fits : IsU64 t.total_gb_stored
  pub total_rewards_distributed_fits : IsU64 t.total_rewards_distributed
  pub active_nodes_fits : IsU64 t.active_nodes
  pub challenges_issued_fits : IsU64 t.challenges_issued
  pub challenges_passed_fits : IsU64 t.challenges_passed

module _ (C : ArgsCodec) where
  serialize_stats-append :
      (t : PeriodStats) (rest : List ℕ)
      → serialize_stats C t ++ rest
        ≡ C.enc_u64 t.period
          ++ (C.enc_u64 t.total_gb_stored
              ++ (C.enc_u64 t.total_rewards_distributed
                  ++ (C.enc_u64 t.active_nodes
                      ++ (C.enc_u64 t.challenges_issued
                          ++ (C.enc_u64 t.challenges_passed
                              ++ (C.enc_bool t.rewards_distributed ++ rest))))))
  unfolding serialize_stats
  serialize_stats-append t rest = simp (C.add_u64_lem, C.add_bool_lem, append_assoc)

  stats-Reads :
      (this t : PeriodStats) (b rest : List ℕ)
      → IsPeriodStatsU64 t
      → Reads
          (deserialize_stats C this (b ++ (serialize_stats C t ++ rest)) (length b))
          (b ++ (serialize_stats C t ++ rest))
          t
          rest
  unfolding deserialize_stats
  stats-Reads this t b rest fits = rw (serialize_stats-append t rest) (
      Reads-bool C "rewardsDistributed" _ t.rewards_distributed
        (λ v x. record x { rewards_distributed = v })
        (Reads-u64 C "challengesPassed" _ t.challenges_passed
          (λ v x. record x { challenges_passed = v }) fits.challenges_passed_fits
          (Reads-u64 C "challengesIssued" _ t.challenges_issued
            (λ v x. record x { challenges_issued = v }) fits.challenges_issued_fits
            (Reads-u64 C "activeNodes" _ t.active_nodes (λ v x. record x { active_nodes = v })
              fits.active_nodes_fits
              (Reads-u64 C "totalRewardsDistributed" _ t.total_rewards_distributed
                (λ v x. record x { total_rewards_distributed = v })
                fits.total_rewards_distributed_fits
                (Reads-u64 C "totalGbStored" _ t.total_gb_stored
                  (λ v x. record x { total_gb_stored = v }) fits.total_gb_stored_fits
                  (Reads-u64 C "period" _ t.period (λ v x. record x { period = v }) fits.period_fits
                    (Reads-start this b _))))))))

  -- Any object of the class `PeriodStats` whose numbers fit 64 bits is read back from where it was
  -- written, wherever that is, whatever object the fields are read into; the offset that is
  -- returned stands right behind it.
  pub stats_round_trip :
      (this t : PeriodStats) (b rest : List ℕ)
      → IsPeriodStatsU64 t
      → deserialize_stats C this (b ++ (serialize_stats C t ++ rest)) (length b)
        ≡ at_offset t (length b + length (serialize_stats C t))
  stats_round_trip this t b rest fits =
      Reads-end b (serialize_stats C t) rest (stats-Reads this t b rest fits)
