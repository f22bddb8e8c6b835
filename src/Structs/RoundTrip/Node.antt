-- ===== src/Structs/RoundTrip/Node.antt =====
-- Writing and reading the class of smartContract/assembly/structs/StorageNode.ts.
use community_storage.Base.{ℕ, ◌+◌, ◌≡◌, List, ◌++◌, length, IsU64}
use mathlib.Core.List.{append_assoc}
use community_storage.Structs.{StorageNode}
use community_storage.Structs.Args.{
  ArgsCodec, at_offset, Reads, Reads-start, Reads-string, Reads-u64, Reads-bool, Reads-end,
}
use community_storage.Structs.Serialize.{serialize_node, deserialize_node}

-- The number fields of a `StorageNode` fit 64 bits.
pub record IsStorageNodeU64 (n : StorageNode) : Type 0 where
  pub allocated_gb_fits : IsU64 n.allocated_gb
  pub registered_period_fits : IsU64 n.registered_period
  pub total_challenges_fits : IsU64 n.total_challenges
  pub passed_challenges_fits : IsU64 n.passed_challenges
  pub pending_rewards_fits : IsU64 n.pending_rewards
  pub last_challenged_period_fits : IsU64 n.last_challenged_period
  pub last_rewarded_period_fits : IsU64 n.last_rewarded_period

module _ (C : ArgsCodec) where
  pub serialize_node-append :
      (n : StorageNode) (rest : List ℕ)
      → serialize_node C n ++ rest
        ≡ C.enc_string n.address
          ++ (C.enc_u64 n.allocated_gb
              ++ (C.enc_u64 n.registered_period
                  ++ (C.enc_u64 n.total_challenges
                      ++ (C.enc_u64 n.passed_challenges
                          ++ (C.enc_u64 n.pending_rewards
                              ++ (C.enc_u64 n.last_challenged_period
                                  ++ (C.enc_u64 n.last_rewarded_period
                                      ++ (C.enc_bool n.active ++ rest))))))))
  unfolding serialize_node
  serialize_node-append n rest =
      simp (C.add_string_lem, C.add_u64_lem, C.add_bool_lem, append_assoc)

  node-Reads :
      (this n : StorageNode) (b rest : List ℕ)
      → IsStorageNodeU64 n
      → Reads
          (deserialize_node C this (b ++ (serialize_node C n ++ rest)) (length b))
          (b ++ (serialize_node C n ++ rest))
          n
          rest
  unfolding deserialize_node
  node-Reads this n b rest fits = rw (serialize_node-append n rest) (
      Reads-bool C "active" _ n.active (λ v x. record x { active = v })
        (Reads-u64 C "lastRewardedPeriod" _ n.last_rewarded_period
          (λ v x. record x { last_rewarded_period = v }) fits.last_rewarded_period_fits
          (Reads-u64 C "lastChallengedPeriod" _ n.last_challenged_period
            (λ v x. record x { last_challenged_period = v }) fits.last_challenged_period_fits
            (Reads-u64 C "pendingRewards" _ n.pending_rewards
              (λ v x. record x { pending_rewards = v }) fits.pending_rewards_fits
              (Reads-u64 C "passedChallenges" _ n.passed_challenges
                (λ v x. record x { passed_challenges = v }) fits.passed_challenges_fits
                (Reads-u64 C "totalChallenges" _ n.total_challenges
                  (λ v x. record x { total_challenges = v }) fits.total_challenges_fits
                  (Reads-u64 C "registeredPeriod" _ n.registered_period
                    (λ v x. record x { registered_period = v }) fits.registered_period_fits
                    (Reads-u64 C "allocatedGb" _ n.allocated_gb
                      (λ v x. record x { allocated_gb = v }) fits.allocated_gb_fits
                      (Reads-string C "address" _ n.address (λ v x. record x { address = v })
                        (Reads-start this b _))))))))))

  -- Any object of the class `StorageNode` whose numbers fit 64 bits is read back from where it was
  -- written, wherever that is, whatever object the fields are read into; the offset that is
  -- returned stands right behind it.
  pub node_round_trip :
      (this n : StorageNode) (b rest : List ℕ)
      → IsStorageNodeU64 n
      → deserialize_node C this (b ++ (serialize_node C n ++ rest)) (length b)
        ≡ at_offset n (length b + length (serialize_node C n))
  node_round_trip this n b rest fits =
      Reads-end b (serialize_node C n) rest (node-Reads this n b rest fits)
