-- ===== src/Structs/RoundTrip/Config.antt =====
-- Writing and reading the class of smartContract/assembly/structs/StorageConfig.ts.
use community_storage.Base.{ℕ, ◌+◌, ◌≡◌, List, ◌++◌, length, IsU64}
use mathlib.Core.List.{append_assoc}
use community_storage.Structs.{StorageConfig}
use community_storage.Structs.Args.{ArgsCodec, at_offset, Reads, Reads-start, Reads-u64, Reads-end}
use community_storage.Structs.Serialize.{serialize_config, deserialize_config}

-- The number fields of a `StorageConfig` fit 64 bits.
pub record IsStorageConfigU64 (c : StorageConfig) : Type 0 where
  pub reward_per_gb_per_period_fits : IsU64 c.reward_per_gb_per_period
  pub min_allocated_gb_fits : IsU64 c.min_allocated_gb
  pub max_allocated_gb_fits : IsU64 c.max_allocated_gb
  pub challenge_response_timeout_fits : IsU64 c.challenge_response_timeout
  pub reward_distribution_period_fits : IsU64 c.reward_distribution_period

module _ (C : ArgsCodec) where
  serialize_config-append :
      (c : StorageConfig) (rest : List ℕ)
      → serialize_config C c ++ rest
        ≡ C.enc_u64 c.reward_per_gb_per_period
          ++ (C.enc_u64 c.min_allocated_gb
              ++ (C.enc_u64 c.max_allocated_gb
                  ++ (C.enc_u64 c.challenge_response_timeout
                      ++ (C.enc_u64 c.reward_distribution_period ++ rest))))
  unfolding serialize_config
  serialize_config-append c rest = simp (C.add_u64_lem, append_assoc)

  config-Reads :
      (this c : StorageConfig) (b rest : List ℕ)
      → IsStorageConfigU64 c
      → Reads
          (deserialize_config C this (b ++ (serialize_config C c ++ rest)) (length b))
          (b ++ (serialize_config C c ++ rest))
          c
          rest
  unfolding deserialize_config
  config-Reads this c b rest fits = rw (serialize_config-append c rest) (
      Reads-u64 C "rewardDistributionPeriod" _ c.reward_distribution_period
        (λ v x. record x { reward_distribution_period = v }) fits.reward_distribution_period_fits
        (Reads-u64 C "challengeResponseTimeout" _ c.challenge_response_timeout
          (λ v x. record x { challenge_response_timeout = v }) fits.challenge_response_timeout_fits
          (Reads-u64 C "maxAllocatedGb" _ c.max_allocated_gb
            (λ v x. record x { max_allocated_gb = v }) fits.max_allocated_gb_fits
            (Reads-u64 C "minAllocatedGb" _ c.min_allocated_gb
              (λ v x. record x { min_allocated_gb = v }) fits.min_allocated_gb_fits
              (Reads-u64 C "rewardPerGbPerPeriod" _ c.reward_per_gb_per_period
                (λ v x. record x { reward_per_gb_per_period = v })
                fits.reward_per_gb_per_period_fits (Reads-start this b _))))))

  -- Any object of the class `StorageConfig` whose numbers fit 64 bits is read back from where it was
  -- written, wherever that is, whatever object the fields are read into; the offset that is
  -- returned stands right behind it.
  pub config_round_trip :
      (this c : StorageConfig) (b rest : List ℕ)
      → IsStorageConfigU64 c
      → deserialize_config C this (b ++ (serialize_config C c ++ rest)) (length b)
        ≡ at_offset c (length b + length (serialize_config C c))
  config_round_trip this c b rest fits =
      Reads-end b (serialize_config C c) rest (config-Reads this c b rest fits)
