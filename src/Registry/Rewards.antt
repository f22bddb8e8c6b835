-- ===== src/Registry/Rewards.antt =====
-- Reward distribution in smartContract/assembly/contracts/storage-registry.ts.
pub mod Payments
pub mod Claims
use community_storage.Base.{
  ℕ, String, Bool, true, not, ◌&&◌, Option, none, some, List, [], ◌∷◌, ◌++◌, ltb, leb, ◌==◌,
  if◌then◌else◌, add64, mul64, ok, assert, expect, ◌>>=◌, ◌>>◌,
}
use community_storage.Structs.{StorageNode, PeriodStats}
use community_storage.State.{
  State, Context, Outcome, argument_missing, rewards_already_distributed, providers_not_challenged,
  node_not_registered, no_rewards_to_claim, insufficient_contract_balance, reward_skipped,
  rewards_distributed, rewards_claimed,
}
use community_storage.Registry.{
  generate_event, get_config, get_node, set_node, get_period_stats, set_period_stats,
  assert_not_paused, assert_challenger,
}

-- The assertion in the first loop of `distributeRewards`; inactive and unknown nodes are skipped.
unfoldable pub is_challenged : ℕ → Option StorageNode → Bool
is_challenged period none = true
is_challenged period (some node) =
    if not node.active then true else (node.last_challenged_period == period)

unfoldable pub all_challenged : State → ℕ → List String → Bool
unfolding get_node is_challenged
all_challenged s period [] = true
all_challenged s period (a ∷ rest) =
    is_challenged period (get_node s a) && all_challenged s period rest

-- The state and the two counters of the second loop.
pub record Payout : Type 0 where
  pub state : State
  pub total_distributed : ℕ
  pub node_count : ℕ

unfoldable pub add_reward : ℕ → ℕ → StorageNode → Payout → Payout
unfolding set_node
add_reward period reward node p =
    if ltb 0 reward
    then record {
      state =
          set_node
            (record node {
              pending_rewards = add64 node.pending_rewards reward;
              last_rewarded_period = period;
            })
            p.state;
      total_distributed = add64 p.total_distributed reward;
      node_count = add64 p.node_count 1;
    }
    else p

-- One round of the second loop, at the node that is stored.
unfoldable pub reward_node : ℕ → ℕ → String → Option StorageNode → Payout → Payout
unfolding add_reward generate_event
reward_node rate period address none p = p
reward_node rate period address (some node) p =
    if not node.active
    then p
    else if not (node.passed_challenges == node.total_challenges)
    then record p { state = generate_event (reward_skipped address) p.state }
    else add_reward period (mul64 node.allocated_gb rate) node p

unfoldable pub reward_all : ℕ → ℕ → List String → Payout → Payout
reward_all rate period [] p = p
reward_all rate period (a ∷ rest) p =
    reward_all rate period rest (reward_node rate period a (get_node p.state a) p)

-- The writes of `distributeRewards`, with the statistics that were read before the loops.
unfoldable pub distributed : ℕ → List String → PeriodStats → State → State
distributed period node_addresses stats s =
    let p =
      reward_all (get_config s).reward_per_gb_per_period period node_addresses
        (record { state = s; total_distributed = 0; node_count = 0 }) in
    let s1 =
      set_period_stats
        (record stats {
          total_rewards_distributed = p.total_distributed;
          rewards_distributed = true;
        })
        p.state in
    generate_event (rewards_distributed period p.total_distributed p.node_count) s1

unfoldable pub distribute_rewards : Context → Option ℕ → Option (List String) → State → Outcome
distribute_rewards ctx period? node_addresses? s = do
  assert_not_paused s
  assert_challenger ctx s
  period ← expect period? (argument_missing "period")
  node_addresses ← expect node_addresses? (argument_missing "nodeAddresses")
  let stats = get_period_stats s period
  assert (not stats.rewards_distributed) rewards_already_distributed
  assert (all_challenged s period node_addresses) providers_not_challenged
  ok (distributed period node_addresses stats s)

-- `transferCoins`, with which the contract pays out.
unfoldable pub transfer_coins : String → ℕ → State → State
transfer_coins to amount s = record s { transfers = s.transfers ++ (to, amount) ∷ [] }

-- The writes of `claimRewards`, at the stored node.
unfoldable pub claimed : Context → StorageNode → State → State
claimed ctx node s =
    let amount = node.pending_rewards in
    let s1 = set_node (record node { pending_rewards = 0 }) s in
    generate_event (rewards_claimed ctx.caller amount) (transfer_coins ctx.caller amount s1)

unfoldable pub claim_rewards : Context → State → Outcome
claim_rewards ctx s = do
  assert_not_paused s
  node ← expect (get_node s ctx.caller) node_not_registered
  assert (ltb 0 node.pending_rewards) no_rewards_to_claim
  assert (leb node.pending_rewards ctx.balance) insufficient_contract_balance
  ok (claimed ctx node s)
