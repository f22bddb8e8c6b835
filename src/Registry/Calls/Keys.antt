-- ===== src/Registry/Calls/Keys.antt =====
-- The keys of the stored nodes, challenges and periods: the writes `setNode`, `setChallenge` and
-- `setPeriodStats` take the key from the value.
pub mod Writes
pub mod Preserved
use community_storage.Base.{
  ℕ, ◌≡◌, String, some, none, arith, Option, Option-cases, inl, inr, refl, List, [], ◌∷◌,
}
use community_storage.Structs.{StorageNode, Challenge, PeriodStats, StorageConfig}
use community_storage.State.{State, Event, blank}
use community_storage.Registry.{
  generate_event, set_node, set_challenge, set_period_stats, set_node_index, set_node_slot,
  set_total_nodes, get_node, get_challenge, get_period_stats, set_booked_uploader_gb,
  set_uploader_index, set_uploader_usage, set_uploader_price_per_gb, set_config,
}
use community_storage.Registry.Nodes.{
  push_node_index, push_node_slot, count_registered, set_provider_metadata, store_metadata,
  recount_allocation, swap_out, remove_node_slot, count_unregistered,
}
use community_storage.Registry.Challenges.{
  count_issued, credit_node, count_passed, expire, expire_all,
}
use community_storage.Registry.Rewards.{Payout, add_reward, reward_node, reward_all, transfer_coins}
use community_storage.Registry.Uploaders.{push_uploader_index}

pub record IsKeyed (s : State) : Type 0 where
  pub node_key : (a : String) (n : StorageNode) → s.nodes a ≡ some n → n.address ≡ a
  pub challenge_key : (i : String) (c : Challenge) → s.challenges i ≡ some c → c.id ≡ i
  pub period_key : (p : ℕ) (t : PeriodStats) → s.periods p ≡ some t → t.period ≡ p

pub blank-IsKeyed : IsKeyed blank
blank-IsKeyed = record {
  node_key = λ a n e. cc;
  challenge_key = λ i c e. cc;
  period_key = λ p t e. cc;
}

module _ {s : State} (k : IsKeyed s) where
  pub generate_event-IsKeyed : (e : Event) → IsKeyed (generate_event e s)
  unfolding generate_event
  generate_event-IsKeyed e = record {
    node_key = k.node_key;
    challenge_key = k.challenge_key;
    period_key = k.period_key;
  }

  pub set_node-IsKeyed : (n : StorageNode) → IsKeyed (set_node n s)
  unfolding set_node
  set_node-IsKeyed n = record {
    node_key = λ a m e. ground (arith, k.node_key a m);
    challenge_key = k.challenge_key;
    period_key = k.period_key;
  }

  pub set_challenge-IsKeyed : (c : Challenge) → IsKeyed (set_challenge c s)
  unfolding set_challenge
  set_challenge-IsKeyed c = record {
    node_key = k.node_key;
    challenge_key = λ i d e. ground (arith, k.challenge_key i d);
    period_key = k.period_key;
  }

  pub set_period_stats-IsKeyed : (t : PeriodStats) → IsKeyed (set_period_stats t s)
  unfolding set_period_stats
  set_period_stats-IsKeyed t = record {
    node_key = k.node_key;
    challenge_key = k.challenge_key;
    period_key = λ p t' e. ground (arith, k.period_key p t');
  }

-- A state with the same three maps.
pub IsKeyed-same :
    {s t : State}
    → t.nodes ≡ s.nodes
    → t.challenges ≡ s.challenges
    → t.periods ≡ s.periods
    → IsKeyed s
    → IsKeyed t
IsKeyed-same n c p k = record {
  node_key = λ a m e. k.node_key a m (rw (← n) e);
  challenge_key = λ i d e. k.challenge_key i d (rw (← c) e);
  period_key = λ q t e. k.period_key q t (rw (← p) e);
}

-- The statistics of a period say which period they are of.
pub get_period_stats-period :
    (s : State) (period : ℕ) → IsKeyed s → (get_period_stats s period).period ≡ period
unfolding get_period_stats
get_period_stats-period s period k = elim (Option-cases (s.periods period)) [
  | inl missing ↦ rw missing
  | inr (t, found) ↦ ground (arith, k.period_key period t)
]
