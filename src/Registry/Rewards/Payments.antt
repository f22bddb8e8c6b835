-- ===== src/Registry/Rewards/Payments.antt =====
-- What `distributeRewards` credits, against a description that does not follow its loops.
use community_storage.Base.{
  ℕ, zero, suc, ◌+◌, ◌%◌, ◌≡◌, refl, String, Bool, true, false, ◌&&◌, Option, none, some, List, [],
  ◌∷◌, arith, is_same, ltb, ◌==◌, if◌then◌else◌, add64, mul64, u64_mod, IsU64, ap, ◌∙◌,
  Option-cases, inl, inr, ok,
}
use community_storage.Structs.{StorageNode, PeriodStats}
use community_storage.State.{State, Context}
use community_storage.Registry.{
  generate_event, set_node, get_node, get_config, get_period_stats, set_period_stats,
}
use community_storage.Registry.Rewards.{
  Payout, reward_node, reward_all, distributed, distribute_rewards,
}
use community_storage.Registry.Calls.Keys.{IsKeyed, get_period_stats-period}
use community_storage.Registry.Calls.Keys.Writes.{reward_node-IsKeyed}

-- The reward that a node is due: nothing unless it is active and its two counters are equal.
abbrev pub due : ℕ → Option StorageNode → ℕ
due rate none = 0
due rate (some n) =
    if n.active && (n.passed_challenges == n.total_challenges) then mul64 n.allocated_gb rate else 0

-- A node after one payment of what it is due.
abbrev pub pay : ℕ → ℕ → Option StorageNode → Option StorageNode
pay rate period none = none
pay rate period (some n) =
    let reward = due rate (some n) in
    if ltb 0 reward
    then some (record n {
      pending_rewards = add64 n.pending_rewards reward;
      last_rewarded_period = period;
    })
    else some n

abbrev pub iterate {ℓ} : {A : Type ℓ} → ℕ → (A → A) → A → A
iterate zero f a = a
iterate (suc n) f a = iterate n f (f a)

-- How often an address is listed.
abbrev pub occurrences : List String → String → ℕ
occurrences [] a = 0
occurrences (x ∷ xs) a = if is_same x a then suc (occurrences xs a) else occurrences xs a

-- What the listed nodes are due together, a node that is listed twice counted twice.
abbrev pub total_due : ℕ → State → List String → ℕ
total_due rate s [] = 0
total_due rate s (a ∷ as_) = due rate (get_node s a) + total_due rate s as_

iterate-if :
    {A : Type 0} (c : Bool) (n : ℕ) (f : A → A) (x : A)
    → iterate n f (if c then f x else x) ≡ iterate (if c then suc n else n) f x
iterate-if true n f x = refl
iterate-if false n f x = refl

module _ (rate period : ℕ) where
  -- One round of the loop pays one node.
  reward_node-nodes :
      (a b : String) (p : Payout)
      → IsKeyed p.state
      → get_node (reward_node rate period a (get_node p.state a) p).state b
        ≡ (if is_same a b then pay rate period (get_node p.state b) else get_node p.state b)
  unfolding reward_node set_node get_node
  reward_node-nodes a b p k = elim (Option-cases (p.state.nodes a)) [
    | inl missing ↦ ground arith
    | inr (n, found) ↦ ground (arith, k.node_key a n)
  ]

  reward_node-total :
      (a : String) (o : Option StorageNode) (p : Payout)
      → (reward_node rate period a o p).total_distributed % u64_mod
        ≡ (p.total_distributed + due rate o) % u64_mod
  unfolding reward_node add64
  reward_node-total a none p = omega arith
  reward_node-total a (some n) p = ground arith

  due-pay : (o : Option StorageNode) → due rate (pay rate period o) ≡ due rate o
  due-pay none = refl
  due-pay (some n) = ground arith

  total_due-pay :
      (as_ : List String) (a : String) (s t : State)
      → ((b : String)
          → get_node t b ≡ (if is_same a b then pay rate period (get_node s b) else get_node s b))
      → total_due rate t as_ ≡ total_due rate s as_
  total_due-pay [] a s t h = refl
  total_due-pay (b ∷ as_) a s t h =
      ground (arith, h b, due-pay (get_node s b), total_due-pay as_ a s t h)

  pub reward_all-nodes :
      (as_ : List String) (b : String) (p : Payout)
      → IsKeyed p.state
      → get_node (reward_all rate period as_ p).state b
        ≡ iterate (occurrences as_ b) (pay rate period) (get_node p.state b)
  unfolding reward_all
  reward_all-nodes [] b p k = refl
  reward_all-nodes (a ∷ as_) b p k =
      let next = reward_node rate period a (get_node p.state a) p in
      let k' = reward_node-IsKeyed rate period a (get_node p.state a) p k in
      let here = reward_node-nodes a b p k in
      let later = reward_all-nodes as_ b next k' in
      later
      ∙ ap (iterate (occurrences as_ b) (pay rate period)) here
      ∙ iterate-if (is_same a b) (occurrences as_ b) (pay rate period) (get_node p.state b)

  reward_all-total :
      (as_ : List String) (p : Payout)
      → IsKeyed p.state
      → (reward_all rate period as_ p).total_distributed % u64_mod
        ≡ (p.total_distributed + total_due rate p.state as_) % u64_mod
  unfolding reward_all
  reward_all-total [] p k = omega arith
  reward_all-total (a ∷ as_) p k =
      let next = reward_node rate period a (get_node p.state a) p in
      let k' = reward_node-IsKeyed rate period a (get_node p.state a) p k in
      let here = reward_node-total a (get_node p.state a) p in
      let same = total_due-pay as_ a p.state next.state (λ b. reward_node-nodes a b p k) in
      let later = reward_all-total as_ next k' in omega arith

  total_distributed-IsU64 :
      (as_ : List String) (p : Payout)
      → IsU64 p.total_distributed
      → IsU64 (reward_all rate period as_ p).total_distributed
  unfolding reward_all
  total_distributed-IsU64 [] p h = h
  total_distributed-IsU64 (a ∷ as_) p h =
      total_distributed-IsU64 as_ _ (round a (get_node p.state a) p h)
    where
      round :
          (b : String) (o : Option StorageNode) (q : Payout)
          → IsU64 q.total_distributed
          → IsU64 (reward_node rate period b o q).total_distributed
      round b none q h' = unfold reward_node in h'
      round b (some n) q h' = unfold reward_node add64 in ground arith

-- What an aborting call leaves out: the writes are made only after all assertions.
pub distribute_rewards-eq :
    (ctx : Context) (period : ℕ) (addresses : List String) (s : State) {u : State}
    → distribute_rewards ctx (some period) (some addresses) s ≡ ok u
    → u ≡ distributed period addresses (get_period_stats s period) s
unfolding distribute_rewards
distribute_rewards-eq ctx period addresses s h = ground arith

module _ (period : ℕ) (addresses : List String) (t : PeriodStats) (s : State) where
  distributed-nodes :
      (a : String)
      → IsKeyed s
      → get_node (distributed period addresses t s) a
        ≡ iterate
            (occurrences addresses a)
            (pay (get_config s).reward_per_gb_per_period period)
            (get_node s a)
  unfolding distributed generate_event set_period_stats get_node
  distributed-nodes a k =
      reward_all-nodes (get_config s).reward_per_gb_per_period period addresses a
        (record { state = s; total_distributed = 0; node_count = 0 }) k

  distributed-stats :
      IsKeyed s
      → t.period ≡ period
      → (get_period_stats (distributed period addresses t s) period).total_rewards_distributed
        ≡ total_due (get_config s).reward_per_gb_per_period s addresses % u64_mod
  unfolding distributed generate_event set_period_stats get_period_stats
  distributed-stats k e =
      let rate = (get_config s).reward_per_gb_per_period in
      let p : Payout = record { state = s; total_distributed = 0; node_count = 0 } in
      let total = reward_all-total rate period addresses p k in
      let small = total_distributed-IsU64 rate period addresses p (omega arith) in ground arith

-- A distribution of rewards that does not abort credits each node with the reward that it is due,
-- once for each time that its address is listed, and changes no other node; it records for the
-- period what all the listed nodes are due together, modulo 2^64. All stands under its own key before
-- the distribution.
pub distribute_rewards-pays :
    (ctx : Context) (period : ℕ) (addresses : List String) (s : State) {u : State}
    → IsKeyed s
    → distribute_rewards ctx (some period) (some addresses) s ≡ ok u
    → let rate = (get_config s).reward_per_gb_per_period in
      ((a : String)
        → get_node u a ≡ iterate (occurrences addresses a) (pay rate period) (get_node s a))
      × ((get_period_stats u period).total_rewards_distributed
          ≡ total_due rate s addresses % u64_mod)
distribute_rewards-pays ctx period addresses s k h =
    let stats = get_period_stats s period in
    rw (distribute_rewards-eq ctx period addresses s h) (
      (λ a. distributed-nodes period addresses stats s a k),
      distributed-stats period addresses stats s k (get_period_stats-period s period k),
    )
