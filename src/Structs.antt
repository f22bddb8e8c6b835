-- ===== src/Structs.antt =====
-- The classes of smartContract/assembly/structs, each as a record with its constructor.
pub mod Args
pub mod Serialize
pub mod RoundTrip
use community_storage.Base.{ℕ, String, Bool, true, false, ◌&&◌, ltb, ◌==◌, u64_max}

-- StorageNode.ts
pub record StorageNode : Type 0 where
  pub address : String
  pub allocated_gb : ℕ
  pub registered_period : ℕ
  pub total_challenges : ℕ
  pub passed_challenges : ℕ
  pub pending_rewards : ℕ
  pub last_challenged_period : ℕ
  pub last_rewarded_period : ℕ
  pub active : Bool

-- `new StorageNode(address, allocatedGb, registeredPeriod)`
abbrev pub new_node : String → ℕ → ℕ → StorageNode
new_node address allocated_gb registered_period = record {
  address = address;
  allocated_gb = allocated_gb;
  registered_period = registered_period;
  total_challenges = 0;
  passed_challenges = 0;
  pending_rewards = 0;
  last_challenged_period = u64_max;
  last_rewarded_period = registered_period;
  active = true;
}

unfoldable pub has_passed_current_challenge : StorageNode → ℕ → Bool
has_passed_current_challenge node current_period =
    (node.last_challenged_period == current_period)
    && (ltb 0 node.passed_challenges && (node.passed_challenges == node.total_challenges))

-- Challenge.ts
pub record Challenge : Type 0 where
  pub id : String
  pub node_address : String
  pub chunk_id : String
  pub nonce : ℕ
  pub issued_period : ℕ
  pub deadline : ℕ
  pub resolved : Bool
  pub passed : Bool

-- `new Challenge(id, nodeAddress, chunkId, nonce, issuedPeriod, deadline)`
abbrev pub new_challenge : String → String → String → ℕ → ℕ → ℕ → Challenge
new_challenge id node_address chunk_id nonce issued_period deadline = record {
  id = id;
  node_address = node_address;
  chunk_id = chunk_id;
  nonce = nonce;
  issued_period = issued_period;
  deadline = deadline;
  resolved = false;
  passed = false;
}

-- PeriodStats.ts
pub record PeriodStats : Type 0 where
  pub period : ℕ
  pub total_gb_stored : ℕ
  pub total_rewards_distributed : ℕ
  pub active_nodes : ℕ
  pub challenges_issued : ℕ
  pub challenges_passed : ℕ
  pub rewards_distributed : Bool

-- `new PeriodStats(period)`
abbrev pub new_stats : ℕ → PeriodStats
new_stats period = record {
  period = period;
  total_gb_stored = 0;
  total_rewards_distributed = 0;
  active_nodes = 0;
  challenges_issued = 0;
  challenges_passed = 0;
  rewards_distributed = false;
}

-- StorageConfig.ts
pub record StorageConfig : Type 0 where
  pub reward_per_gb_per_period : ℕ
  pub min_allocated_gb : ℕ
  pub max_allocated_gb : ℕ
  pub challenge_response_timeout : ℕ
  pub reward_distribution_period : ℕ

-- `new StorageConfig()`
abbrev pub new_config : StorageConfig
new_config = record {
  reward_per_gb_per_period = 1_000_000;
  min_allocated_gb = 1;
  max_allocated_gb = 1000;
  challenge_response_timeout = 60_000;
  reward_distribution_period = 100;
}
