-- ===== src/Registry/Calls/Keys/Writes.antt =====
-- The keys under each write that the entry points of the registry make.
use community_storage.Base.{
  ℕ, zero, suc, ◌+◌, ◌≡◌, refl, String, some, none, arith, Option, List, [], ◌∷◌, Bool, true, false,
  ltb, mul64, ◌==◌, Bool-cases, inl, inr,
}
use community_storage.Structs.{StorageNode, Challenge, PeriodStats}
use community_storage.State.{State, Context}
use community_storage.Registry.{
  generate_event, set_node_slot, get_node, get_challenge, get_total_nodes, set_total_nodes,
  set_booked_uploader_gb, set_uploader_usage,
}
use community_storage.Registry.Nodes.{
  push_node_index, push_node_slot, count_registered, set_provider_metadata, store_metadata,
  recount_allocation, swap_out, remove_node_slot, count_unregistered, registered, reallocated,
  unregistered,
}
use community_storage.Registry.Challenges.{
  count_issued, credit_node, count_passed, expire, expire_all, issued, proved,
}
use community_storage.Registry.Rewards.{
  Payout, reward_node, reward_all, transfer_coins, distributed, claimed,
}
use community_storage.Registry.Uploaders.{push_uploader_index, booked, recorded, removed}
use community_storage.Registry.Calls.Keys.{
  IsKeyed, IsKeyed-same, generate_event-IsKeyed, set_node-IsKeyed, set_challenge-IsKeyed,
  set_period_stats-IsKeyed,
}

pub swap_out-same :
    (a : String) (total left i : ℕ) (s : State)
    → ((swap_out a total left i s).nodes ≡ s.nodes)
      × ((swap_out a total left i s).challenges ≡ s.challenges)
      × ((swap_out a total left i s).periods ≡ s.periods)
unfolding swap_out set_node_slot
swap_out-same a total zero i s = (refl, refl, refl)
swap_out-same a total (suc left) i s = ground (arith, swap_out-same a total left (i + 1) s)

module _ {s : State} (k : IsKeyed s) where
  pub push_node_index-IsKeyed : (a : String) → IsKeyed (push_node_index a s)
  unfolding push_node_index
  push_node_index-IsKeyed a = IsKeyed-same (ground arith) (ground arith) (ground arith) k

  pub push_node_slot-IsKeyed : (a : String) → IsKeyed (push_node_slot a s)
  unfolding push_node_slot
  push_node_slot-IsKeyed a = IsKeyed-same refl refl refl k

  pub remove_node_slot-IsKeyed : (a : String) → IsKeyed (remove_node_slot a s)
  unfolding remove_node_slot set_total_nodes
  remove_node_slot-IsKeyed a =
      let total = get_total_nodes s in
      let same = swap_out-same a total total 0 s in IsKeyed-same same.0 same.1 same.2 k

  pub set_provider_metadata-IsKeyed :
      (a e : String) (ps : List String) → IsKeyed (set_provider_metadata a e ps s)
  unfolding set_provider_metadata
  set_provider_metadata-IsKeyed a e ps = IsKeyed-same refl refl refl k

  pub store_metadata-IsKeyed :
      (a : String) (gb : ℕ) (e : String) (ps : List String) → IsKeyed (store_metadata a gb e ps s)
  unfolding store_metadata
  store_metadata-IsKeyed a gb e ps = IsKeyed-same (ground arith) (ground arith) (ground arith) k

  pub transfer_coins-IsKeyed : (a : String) (n : ℕ) → IsKeyed (transfer_coins a n s)
  unfolding transfer_coins
  transfer_coins-IsKeyed a n = IsKeyed-same refl refl refl k

  pub booked-IsKeyed : (ctx : Context) (gb : ℕ) → IsKeyed (booked ctx gb s)
  unfolding booked push_uploader_index set_booked_uploader_gb generate_event
  booked-IsKeyed ctx gb = IsKeyed-same (ground arith) (ground arith) (ground arith) k

  pub recorded-IsKeyed : (a : String) (n : ℕ) → IsKeyed (recorded a n s)
  unfolding recorded set_uploader_usage generate_event
  recorded-IsKeyed a n = IsKeyed-same (ground arith) (ground arith) (ground arith) k

  pub removed-IsKeyed : (a : String) (n : ℕ) → IsKeyed (removed a n s)
  unfolding removed set_uploader_usage generate_event
  removed-IsKeyed a n = IsKeyed-same (ground arith) (ground arith) (ground arith) k

  pub count_registered-IsKeyed : (p gb : ℕ) → IsKeyed (count_registered p gb s)
  unfolding count_registered
  count_registered-IsKeyed p gb = set_period_stats-IsKeyed k _

  pub recount_allocation-IsKeyed : (p old gb : ℕ) → IsKeyed (recount_allocation p old gb s)
  unfolding recount_allocation
  recount_allocation-IsKeyed p old gb = set_period_stats-IsKeyed k _

  pub count_unregistered-IsKeyed : (p gb : ℕ) → IsKeyed (count_unregistered p gb s)
  unfolding count_unregistered
  count_unregistered-IsKeyed p gb = set_period_stats-IsKeyed k _

  pub count_issued-IsKeyed : (p : ℕ) → IsKeyed (count_issued p s)
  unfolding count_issued
  count_issued-IsKeyed p = set_period_stats-IsKeyed k _

  pub count_passed-IsKeyed : (p : ℕ) (valid : Bool) → IsKeyed (count_passed p valid s)
  unfolding count_passed
  count_passed-IsKeyed p valid = set_period_stats-IsKeyed k _

  pub credit_node-IsKeyed :
      (id a : String) (valid : Bool) (o : Option StorageNode) → IsKeyed (credit_node id a valid o s)
  unfolding credit_node
  credit_node-IsKeyed id a valid none = k
  credit_node-IsKeyed id a true (some n) = set_node-IsKeyed (generate_event-IsKeyed k _) _
  credit_node-IsKeyed id a false (some n) = set_node-IsKeyed (generate_event-IsKeyed k _) _

  pub expire-IsKeyed : (now : ℕ) (id : String) (o : Option Challenge) → IsKeyed (expire now id o s)
  unfolding expire
  expire-IsKeyed now id none = k
  expire-IsKeyed now id (some c) = elim (Bool-cases c.resolved) [
    | inl done ↦ rw done k
    | inr open_ ↦ elim (Bool-cases (ltb c.deadline now)) [
      | inl late ↦ rw (open_, late) (generate_event-IsKeyed (set_challenge-IsKeyed k _) _)
      | inr early ↦ rw (open_, early) k
    ]
  ]

pub expire_all-IsKeyed :
    (now : ℕ) (ids : List String) (s : State) → IsKeyed s → IsKeyed (expire_all now ids s)
unfolding expire_all
expire_all-IsKeyed now [] s k = k
expire_all-IsKeyed now (id ∷ ids) s k =
    expire_all-IsKeyed now ids _ (expire-IsKeyed k now id (get_challenge s id))

pub reward_node-IsKeyed :
    (rate period : ℕ) (a : String) (o : Option StorageNode) (p : Payout)
    → IsKeyed p.state
    → IsKeyed (reward_node rate period a o p).state
unfolding reward_node
reward_node-IsKeyed rate period a none p k = k
reward_node-IsKeyed rate period a (some n) p k = elim (Bool-cases n.active) [
  | inr idle ↦ rw idle k
  | inl act ↦ elim (Bool-cases (n.passed_challenges == n.total_challenges)) [
    | inr failed ↦ rw (act, failed) (generate_event-IsKeyed k _)
    | inl fine ↦ elim (Bool-cases (ltb 0 (mul64 n.allocated_gb rate))) [
      | inl paid ↦ rw (act, fine, paid) (set_node-IsKeyed k _)
      | inr unpaid ↦ rw (act, fine, unpaid) k
    ]
  ]
]

pub reward_all-IsKeyed :
    (rate period : ℕ) (as_ : List String) (p : Payout)
    → IsKeyed p.state
    → IsKeyed (reward_all rate period as_ p).state
unfolding reward_all
reward_all-IsKeyed rate period [] p k = k
reward_all-IsKeyed rate period (a ∷ as_) p k =
    reward_all-IsKeyed rate period as_ _
      (reward_node-IsKeyed rate period a (get_node p.state a) p k)

pub ruleset keyed_writes = (
  generate_event-IsKeyed, set_node-IsKeyed, set_challenge-IsKeyed, set_period_stats-IsKeyed,
  push_node_index-IsKeyed, push_node_slot-IsKeyed, remove_node_slot-IsKeyed,
  set_provider_metadata-IsKeyed, store_metadata-IsKeyed, transfer_coins-IsKeyed, booked-IsKeyed,
  recorded-IsKeyed, removed-IsKeyed, count_registered-IsKeyed, recount_allocation-IsKeyed,
  count_unregistered-IsKeyed, count_issued-IsKeyed, count_passed-IsKeyed, credit_node-IsKeyed,
  expire_all-IsKeyed, reward_all-IsKeyed,
)

-- The writes of the longer entry points, one after the other.
module _ {s : State} (k : IsKeyed s) where
  pub registered-IsKeyed :
      (ctx : Context) (gb : ℕ) (e : String) (ps : List String) → IsKeyed (registered ctx gb e ps s)
  unfolding registered
  registered-IsKeyed ctx gb e ps = search keyed_writes depth 8

  pub distributed-IsKeyed :
      (p : ℕ) (as_ : List String) (t : PeriodStats) → IsKeyed (distributed p as_ t s)
  unfolding distributed
  distributed-IsKeyed p as_ t =
      generate_event-IsKeyed (set_period_stats-IsKeyed (reward_all-IsKeyed _ p as_ _ k) _) _

  pub reallocated-IsKeyed :
      (ctx : Context) (gb : ℕ) (n : StorageNode) → IsKeyed (reallocated ctx gb n s)
  unfolding reallocated
  reallocated-IsKeyed ctx gb n = search keyed_writes

  pub unregistered-IsKeyed : (ctx : Context) (n : StorageNode) → IsKeyed (unregistered ctx n s)
  unfolding unregistered
  unregistered-IsKeyed ctx n = search keyed_writes depth 8

  pub issued-IsKeyed :
      (ctx : Context) (i a c : String) (nonce : ℕ) (n : StorageNode)
      → IsKeyed (issued ctx i a c nonce n s)
  unfolding issued
  issued-IsKeyed ctx i a c nonce n = search keyed_writes depth 8

  pub proved-IsKeyed :
      (ctx : Context) (i : String) (valid : Bool) (c : Challenge) → IsKeyed (proved ctx i valid c s)
  unfolding proved
  proved-IsKeyed ctx i valid c = search keyed_writes depth 8

  pub claimed-IsKeyed : (ctx : Context) (n : StorageNode) → IsKeyed (claimed ctx n s)
  unfolding claimed
  claimed-IsKeyed ctx n = search keyed_writes depth 8
