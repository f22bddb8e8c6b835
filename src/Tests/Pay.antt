-- ===== src/Tests/Pay.antt =====
-- Rewards at a contract that is at work.
use community_storage.Base.{
  ◌%◌, ◌<◌, ◌≤◌, ◌≡◌, refl, String, true, false, ◌||◌, some, List, [], ◌∷◌, ok, abort, is_same,
  includes, if◌then◌else◌, u64_mod,
}
use community_storage.Structs.{StorageNode}
use community_storage.State.{State, no_rewards_to_claim}
use community_storage.Registry.{
  get_config, get_node, get_period_stats, is_paused, is_challenger, is_admin,
}
use community_storage.Registry.Rewards.{distribute_rewards, claim_rewards}
use community_storage.Registry.Rewards.Payments.{
  pay, iterate, occurrences, total_due, distribute_rewards-pays,
}
use community_storage.Registry.Rewards.Claims.{claim_rewards-pays, distribute_rewards-gate}
use community_storage.Tests.{contract, by, at_work, state_of}
use community_storage.Tests.Runs.{at_work-IsKeyed}

abbrev both : List String
both = "north" ∷ "south" ∷ []

abbrev rewarded : State
rewarded = state_of at_work (distribute_rewards (by "admin" 6) (some 5) (some both) at_work)

distribution_runs : distribute_rewards (by "admin" 6) (some 5) (some both) at_work ≡ ok rewarded
unfolding contract
distribution_runs = refl

distribute_rewards-pays_example :
    ((a : String)
      → get_node rewarded a
        ≡ iterate
            (occurrences both a)
            (pay (get_config at_work).reward_per_gb_per_period 5)
            (get_node at_work a))
    × ((get_period_stats rewarded 5).total_rewards_distributed
        ≡ total_due (get_config at_work).reward_per_gb_per_period at_work both % u64_mod)
distribute_rewards-pays_example =
    distribute_rewards-pays (by "admin" 6) 5 both at_work at_work-IsKeyed distribution_runs

distribute_rewards-gate_example :
    (is_paused at_work ≡ false)
    × ((is_challenger at_work "admin" || is_admin at_work "admin") ≡ true)
    × ((get_period_stats at_work 5).rewards_distributed ≡ false)
    × ((a : String) (n : StorageNode)
        → includes both a ≡ true
        → get_node at_work a ≡ some n
        → n.active ≡ true
        → n.last_challenged_period ≡ 5)
distribute_rewards-gate_example =
    distribute_rewards-gate (by "admin" 6) 5 both at_work distribution_runs

abbrev paid : State
paid = state_of at_work (claim_rewards (by "north" 6) at_work)

claim_runs : claim_rewards (by "north" 6) at_work ≡ ok paid
unfolding contract
claim_runs = refl

claim_rewards-pays_example :
    ((n : StorageNode) × (get_node at_work "north" ≡ some n)
      × (0 < n.pending_rewards)
      × (n.pending_rewards ≤ 1_000_000_000)
      × (paid.transfers ≡ ("north", n.pending_rewards) ∷ [])
      × ((a : String)
          → get_node paid a ≡ (
              if is_same "north" a
              then some (record n { pending_rewards = 0 })
              else get_node at_work a)))
    × (claim_rewards (by "north" 7) paid ≡ abort no_rewards_to_claim)
claim_rewards-pays_example =
    claim_rewards-pays (by "north" 6) (by "north" 7) at_work at_work-IsKeyed claim_runs refl

-- The second provider is due 20 GB at the default rate; a second listing would pay it twice.
south_due : total_due 1_000_000 at_work both ≡ 20_000_000
unfolding contract
south_due = refl
