-- ===== src/Structs/Serialize.antt =====
-- `serialize` and `deserialize` of the classes of smartContract/assembly/structs.
use community_storage.Base.{ℕ, List, []}
use community_storage.Structs.{StorageNode, Challenge, PeriodStats, StorageConfig}
use community_storage.Structs.Args.{ArgsCodec, Reading, at_offset, read, ◌▷◌}

module _ (C : ArgsCodec) where
  unfoldable pub serialize_node : StorageNode → List ℕ
  serialize_node n =
      []
      ▷ (λ a. C.add_string a n.address)
      ▷ (λ a. C.add_u64 a n.allocated_gb)
      ▷ (λ a. C.add_u64 a n.registered_period)
      ▷ (λ a. C.add_u64 a n.total_challenges)
      ▷ (λ a. C.add_u64 a n.passed_challenges)
      ▷ (λ a. C.add_u64 a n.pending_rewards)
      ▷ (λ a. C.add_u64 a n.last_challenged_period)
      ▷ (λ a. C.add_u64 a n.last_rewarded_period)
      ▷ (λ a. C.add_bool a n.active)

  unfoldable pub deserialize_node : StorageNode → List ℕ → ℕ → Reading StorageNode
  deserialize_node this data_ offset =
      at_offset this offset
      ▷ read (C.next_string data_) "address" (λ v n. record n { address = v })
      ▷ read (C.next_u64 data_) "allocatedGb" (λ v n. record n { allocated_gb = v })
      ▷ read (C.next_u64 data_) "registeredPeriod" (λ v n. record n { registered_period = v })
      ▷ read (C.next_u64 data_) "totalChallenges" (λ v n. record n { total_challenges = v })
      ▷ read (C.next_u64 data_) "passedChallenges" (λ v n. record n { passed_challenges = v })
      ▷ read (C.next_u64 data_) "pendingRewards" (λ v n. record n { pending_rewards = v })
      ▷ read (C.next_u64 data_) "lastChallengedPeriod"
          (λ v n. record n { last_challenged_period = v })
      ▷ read (C.next_u64 data_) "lastRewardedPeriod" (λ v n. record n { last_rewarded_period = v })
      ▷ read (C.next_bool data_) "active" (λ v n. record n { active = v })

  unfoldable pub serialize_challenge : Challenge → List ℕ
  serialize_challenge c =
      []
      ▷ (λ a. C.add_string a c.id)
      ▷ (λ a. C.add_string a c.node_address)
      ▷ (λ a. C.add_string a c.chunk_id)
      ▷ (λ a. C.add_u64 a c.nonce)
      ▷ (λ a. C.add_u64 a c.issued_period)
      ▷ (λ a. C.add_u64 a c.deadline)
      ▷ (λ a. C.add_bool a c.resolved)
      ▷ (λ a. C.add_bool a c.passed)

  unfoldable pub deserialize_challenge : Challenge → List ℕ → ℕ → Reading Challenge
  deserialize_challenge this data_ offset =
      at_offset this offset
      ▷ read (C.next_string data_) "id" (λ v c. record c { id = v })
      ▷ read (C.next_string data_) "nodeAddress" (λ v c. record c { node_address = v })
      ▷ read (C.next_string data_) "chunkId" (λ v c. record c { chunk_id = v })
      ▷ read (C.next_u64 data_) "nonce" (λ v c. record c { nonce = v })
      ▷ read (C.next_u64 data_) "issuedPeriod" (λ v c. record c { issued_period = v })
      ▷ read (C.next_u64 data_) "deadline" (λ v c. record c { deadline = v })
      ▷ read (C.next_bool data_) "resolved" (λ v c. record c { resolved = v })
      ▷ read (C.next_bool data_) "passed" (λ v c. record c { passed = v })

  unfoldable pub serialize_stats : PeriodStats → List ℕ
  serialize_stats t =
      []
      ▷ (λ a. C.add_u64 a t.period)
      ▷ (λ a. C.add_u64 a t.total_gb_stored)
      ▷ (λ a. C.add_u64 a t.total_rewards_distributed)
      ▷ (λ a. C.add_u64 a t.active_nodes)
      ▷ (λ a. C.add_u64 a t.challenges_issued)
      ▷ (λ a. C.add_u64 a t.challenges_passed)
      ▷ (λ a. C.add_bool a t.rewards_distributed)

  unfoldable pub deserialize_stats : PeriodStats → List ℕ → ℕ → Reading PeriodStats
  deserialize_stats this data_ offset =
      at_offset this offset
      ▷ read (C.next_u64 data_) "period" (λ v t. record t { period = v })
      ▷ read (C.next_u64 data_) "totalGbStored" (λ v t. record t { total_gb_stored = v })
      ▷ read (C.next_u64 data_) "totalRewardsDistributed"
          (λ v t. record t { total_rewards_distributed = v })
      ▷ read (C.next_u64 data_) "activeNodes" (λ v t. record t { active_nodes = v })
      ▷ read (C.next_u64 data_) "challengesIssued" (λ v t. record t { challenges_issued = v })
      ▷ read (C.next_u64 data_) "challengesPassed" (λ v t. record t { challenges_passed = v })
      ▷ read (C.next_bool data_) "rewardsDistributed" (λ v t. record t { rewards_distributed = v })

  unfoldable pub serialize_config : StorageConfig → List ℕ
  serialize_config c =
      []
      ▷ (λ a. C.add_u64 a c.reward_per_gb_per_period)
      ▷ (λ a. C.add_u64 a c.min_allocated_gb)
      ▷ (λ a. C.add_u64 a c.max_allocated_gb)
      ▷ (λ a. C.add_u64 a c.challenge_response_timeout)
      ▷ (λ a. C.add_u64 a c.reward_distribution_period)

  unfoldable pub deserialize_config : StorageConfig → List ℕ → ℕ → Reading StorageConfig
  deserialize_config this data_ offset =
      at_offset this offset
      ▷ read (C.next_u64 data_) "rewardPerGbPerPeriod"
          (λ v c. record c { reward_per_gb_per_period = v })
      ▷ read (C.next_u64 data_) "minAllocatedGb" (λ v c. record c { min_allocated_gb = v })
      ▷ read (C.next_u64 data_) "maxAllocatedGb" (λ v c. record c { max_allocated_gb = v })
      ▷ read (C.next_u64 data_) "challengeResponseTimeout"
          (λ v c. record c { challenge_response_timeout = v })
      ▷ read (C.next_u64 data_) "rewardDistributionPeriod"
          (λ v c. record c { reward_distribution_period = v })
