-- ===== src/Registry/Rewards/Claims.antt =====
-- `claimRewards`, and the conditions under which `distributeRewards` pays at all.
use community_storage.Base.{
  ℕ, ◌<◌, ◌≤◌, ◌≡◌, refl, ◌∙◌, String, true, false, ◌||◌, some, List, [], ◌∷◌, ◌++◌, arith, is_same,
  includes, if◌then◌else◌, ok, abort,
}
use community_storage.Structs.{StorageNode}
use community_storage.State.{State, Context, no_rewards_to_claim}
use community_storage.Registry.{
  generate_event, get_node, set_node, is_paused, assert_not_paused, assert_challenger,
  get_period_stats, is_challenger, is_admin,
}
use community_storage.Registry.Rewards.{
  is_challenged, all_challenged, distribute_rewards, claimed, claim_rewards, transfer_coins,
}
use community_storage.Registry.Calls.Keys.{IsKeyed}
use community_storage.Registry.Calls.Success.{claim_rewards-ok}

claimed_effect :
    (ctx : Context) (n : StorageNode) (s : State)
    → n.address ≡ ctx.caller
    → ((claimed ctx n s).transfers ≡ s.transfers ++ (ctx.caller, n.pending_rewards) ∷ [])
      × ((a : String)
          → get_node (claimed ctx n s) a ≡ (
              if is_same ctx.caller a
              then some (record n { pending_rewards = 0 })
              else get_node s a))
unfolding claimed transfer_coins generate_event set_node get_node
claimed_effect ctx n s e = (refl, λ a. ground arith)

zero_refuses :
    (ctx : Context) (n : StorageNode) (s : State)
    → get_node s ctx.caller ≡ some n
    → n.pending_rewards ≡ 0
    → is_paused s ≡ false
    → claim_rewards ctx s ≡ abort no_rewards_to_claim
unfolding claim_rewards assert_not_paused
zero_refuses ctx n s found empty open_ = ground arith

claimed_open :
    (ctx : Context) (n : StorageNode) (s : State) → is_paused (claimed ctx n s) ≡ is_paused s
unfolding claimed transfer_coins generate_event set_node is_paused
claimed_open ctx n s = refl

-- A claim that does not abort pays the caller exactly its pending rewards, in one transfer that the
-- balance covers, sets them to 0 and changes no other node; a second claim right after it aborts.
-- All stands under its own key before the claim.
pub claim_rewards-pays :
    (ctx ctx' : Context) (s : State) {u : State}
    → IsKeyed s
    → claim_rewards ctx s ≡ ok u
    → ctx'.caller ≡ ctx.caller
    → ((n : StorageNode) × (get_node s ctx.caller ≡ some n)
        × (0 < n.pending_rewards)
        × (n.pending_rewards ≤ ctx.balance)
        × (u.transfers ≡ s.transfers ++ (ctx.caller, n.pending_rewards) ∷ [])
        × ((a : String)
            → get_node u a ≡ (
                if is_same ctx.caller a
                then some (record n { pending_rewards = 0 })
                else get_node s a)))
      × (claim_rewards ctx' u ≡ abort no_rewards_to_claim)
claim_rewards-pays ctx ctx' s {u} k h same =
    let (n, p) = claim_rewards-ok ctx s h in
    let key : n.address ≡ ctx.caller = unfold get_node in k.node_key ctx.caller n p.1 in
    let effect = claimed_effect ctx n s key in
    let gone : get_node u ctx.caller ≡ some (record n { pending_rewards = 0 }) =
      rw p.4 (ground (arith, effect.1 ctx.caller)) in
    let open_ : is_paused u ≡ false = rw p.4 (claimed_open ctx n s ∙ p.0) in
    (
      (n, p.1, p.2, p.3, rw p.4 effect.0, rw p.4 effect.1),
      zero_refuses ctx' (record n { pending_rewards = 0 }) u (rw same gone) refl open_,
    )

-- `all_challenged` is the test of the first loop, as a statement about each listed address.
all_challenged-each :
    (period : ℕ) (as_ : List String) (s : State) (a : String) (n : StorageNode)
    → all_challenged s period as_ ≡ true
    → includes as_ a ≡ true
    → get_node s a ≡ some n
    → n.active ≡ true
    → n.last_challenged_period ≡ period
unfolding all_challenged is_challenged
all_challenged-each period [] s a n h i found act = cc
all_challenged-each period (b ∷ as_) s a n h i found act =
    ground (arith, all_challenged-each period as_ s a n)

-- Rewards are distributed only by a challenger or the admin, while the contract is not paused, for a
-- period that is not settled, and only if every active node that is listed was last challenged in
-- that period.
pub distribute_rewards-gate :
    (ctx : Context) (period : ℕ) (as_ : List String) (s : State) {u : State}
    → distribute_rewards ctx (some period) (some as_) s ≡ ok u
    → (is_paused s ≡ false)
      × ((is_challenger s ctx.caller || is_admin s ctx.caller) ≡ true)
      × ((get_period_stats s period).rewards_distributed ≡ false)
      × ((a : String) (n : StorageNode)
          → includes as_ a ≡ true
          → get_node s a ≡ some n
          → n.active ≡ true
          → n.last_challenged_period ≡ period)
distribute_rewards-gate ctx period as_ s h =
    let g = gate h in (g.0, g.1, g.2, λ a n. all_challenged-each period as_ s a n g.3)
  where
    gate :
        {u : State}
        → distribute_rewards ctx (some period) (some as_) s ≡ ok u
        → (is_paused s ≡ false)
          × ((is_challenger s ctx.caller || is_admin s ctx.caller) ≡ true)
          × ((get_period_stats s period).rewards_distributed ≡ false)
          × (all_challenged s period as_ ≡ true)
    gate h' = unfold distribute_rewards assert_not_paused assert_challenger in ground arith
