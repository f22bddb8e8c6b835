-- ===== src/Registry/Calls/History/Writes.antt =====
-- The history of the registry under the writes of each entry point.
use community_storage.Base.{
  ℕ, zero, suc, ◌≡◌, refl, ◌∙◌, String, Bool, false, Option, none, some, List, [], ◌∷◌, arith,
  Option-cases, inl, inr,
}
use community_storage.Structs.{StorageNode, Challenge}
use community_storage.State.{State, Context}
use community_storage.Registry.{
  generate_event, set_node, set_challenge, set_period_stats, get_node, get_challenge,
  get_period_stats, set_total_nodes, get_total_nodes, get_config,
}
use community_storage.Registry.Nodes.{
  push_node_index, push_node_slot, count_registered, store_metadata, registered, reallocated,
  recount_allocation, unregistered, count_unregistered, remove_node_slot,
}
use community_storage.Registry.Challenges.{
  issued, count_issued, credit_node, count_passed, proved, expire, expire_all,
}
use community_storage.Registry.Rewards.{
  Payout, reward_node, reward_all, distributed, claimed, transfer_coins,
}
use community_storage.Registry.Calls.Keys.{IsKeyed}
use community_storage.Registry.Calls.Keys.Writes.{swap_out-same, expire-IsKeyed}
use community_storage.Registry.Rewards.Payments.{pay, iterate, occurrences, reward_all-nodes}
use community_storage.Registry.Calls.History.{Extends, Extends-refl, Extends-trans, is_retired}

module _ (s : State) (k : IsKeyed s) where
  pub Extends-registered :
      (ctx : Context) (gb : ℕ) (e : String) (ps : List String)
      → get_node s ctx.caller ≡ none
      → Extends s (registered ctx gb e ps s)
  unfolding registered store_metadata count_registered push_node_index push_node_slot set_node
      get_node get_period_stats
  Extends-registered ctx gb e ps fresh = record {
    settled = λ p h. grind (arith, k.period_key);
    resolved = λ i h. ground arith;
    kept = λ i h. ground arith;
    retired = λ a h. ground arith;
  }

  pub Extends-reallocated :
      (ctx : Context) (gb : ℕ) (n : StorageNode)
      → get_node s ctx.caller ≡ some n
      → Extends s (reallocated ctx gb n s)
  unfolding reallocated recount_allocation set_node generate_event get_node get_period_stats
  Extends-reallocated ctx gb n e = record {
    settled = λ p h. grind (arith, k.period_key);
    resolved = λ i h. refl;
    kept = λ i h. refl;
    retired = λ a h. grind (arith, k.node_key);
  }

  pub Extends-issued :
      (ctx : Context) (i a c : String) (nonce : ℕ) (n : StorageNode)
      → get_node s a ≡ some n
      → get_challenge s i ≡ none
      → Extends s (issued ctx i a c nonce n s)
  unfolding issued count_issued set_node set_challenge generate_event get_node get_challenge
      get_period_stats
  Extends-issued ctx i a c nonce n e fresh = record {
    settled = λ p h. grind (arith, k.period_key);
    resolved = λ j h. ground arith;
    kept = λ j h. ground arith;
    retired = λ b h. grind (arith, k.node_key);
  }

  pub Extends-proved :
      (ctx : Context) (i : String) (valid : Bool) (c : Challenge)
      → get_challenge s i ≡ some c
      → c.resolved ≡ false
      → Extends s (proved ctx i valid c s)
  unfolding proved credit_node count_passed set_challenge get_node get_challenge get_period_stats
  Extends-proved ctx i valid c e open_ = record {
    settled = λ p h. grind (arith, k.period_key);
    resolved = λ j h. grind (arith, k.challenge_key);
    kept = λ j h. grind (arith, k.challenge_key);
    retired = λ b h. grind (arith, k.node_key);
  }

  pub Extends-claimed :
      (ctx : Context) (n : StorageNode)
      → get_node s ctx.caller ≡ some n
      → Extends s (claimed ctx n s)
  unfolding claimed transfer_coins set_node generate_event get_node get_period_stats
  Extends-claimed ctx n e = record {
    settled = λ p h. h;
    resolved = λ i h. refl;
    kept = λ i h. refl;
    retired = λ a h. grind (arith, k.node_key);
  }

  pub Extends-unregistered :
      (ctx : Context) (n : StorageNode)
      → get_node s ctx.caller ≡ some n
      → Extends s (unregistered ctx n s)
  unfolding unregistered count_unregistered remove_node_slot set_total_nodes set_node generate_event
      get_node get_period_stats
  Extends-unregistered ctx n e =
      let idle : State = set_node (record n { active = false }) s in
      let total = get_total_nodes idle in
      let same = swap_out-same ctx.caller total total 0 idle in
      record {
        settled = λ p h. rw same.2 (grind (arith, k.period_key));
        resolved = λ i h. rw same.1;
        kept = λ i h. rw same.1;
        retired = λ a h. rw same.0 (grind (arith, k.node_key));
      }

-- Two states with the same nodes, challenges and periods.
pub Extends-same :
    {s u : State}
    → u.nodes ≡ s.nodes
    → u.challenges ≡ s.challenges
    → u.periods ≡ s.periods
    → Extends s u
unfolding get_period_stats
Extends-same n c p = record {
  settled = λ q h. rw p h;
  resolved = λ i h. rw c;
  kept = λ i h. rw c;
  retired = λ a h. rw n h;
}

Extends-expire :
    (now : ℕ) (i : String) (s : State) → IsKeyed s → Extends s (expire now i (get_challenge s i) s)
unfolding expire get_challenge
Extends-expire now i s k = elim (Option-cases (s.challenges i)) [
  | inl missing ↦ rw missing Extends-refl
  | inr (c, found) ↦ rw found (expired c found)
]
  where
    expired : (c : Challenge) → s.challenges i ≡ some c → Extends s (expire now i (some c) s)
    expired c found =
        unfold set_challenge generate_event get_period_stats in
        record {
          settled = λ p h. ground arith;
          resolved = λ j h. ground (arith, k.challenge_key i c);
          kept = λ j h. ground (arith, k.challenge_key i c);
          retired = λ a h. ground arith;
        }

pub Extends-expire_all :
    (now : ℕ) (ids : List String) (s : State) → IsKeyed s → Extends s (expire_all now ids s)
unfolding expire_all
Extends-expire_all now [] s k = Extends-refl
Extends-expire_all now (i ∷ ids) s k =
    Extends-trans (Extends-expire now i s k)
      (Extends-expire_all now ids _ (expire-IsKeyed k now i (get_challenge s i)))

pub reward_all-same :
    (rate period : ℕ) (as_ : List String) (p : Payout)
    → ((reward_all rate period as_ p).state.challenges ≡ p.state.challenges)
      × ((reward_all rate period as_ p).state.periods ≡ p.state.periods)
unfolding reward_all
reward_all-same rate period [] p = (refl, refl)
reward_all-same rate period (a ∷ as_) p =
    let later =
      reward_all-same rate period as_ (reward_node rate period a (get_node p.state a) p) in
    let here = reward_node-same a (get_node p.state a) in (later.0 ∙ here.0, later.1 ∙ here.1)
  where
    reward_node-same :
        (b : String) (o : Option StorageNode)
        → ((reward_node rate period b o p).state.challenges ≡ p.state.challenges)
          × ((reward_node rate period b o p).state.periods ≡ p.state.periods)
    reward_node-same b none = unfold reward_node in (refl, refl)
    reward_node-same b (some n) = unfold reward_node set_node in ground arith

iterate-pay-retired :
    (n rate period : ℕ) (o : Option StorageNode)
    → is_retired (iterate n (pay rate period) o) ≡ is_retired o
iterate-pay-retired zero rate period o = refl
iterate-pay-retired (suc n) rate period o =
    iterate-pay-retired n rate period (pay rate period o) ∙ once o
  where
    once : (o' : Option StorageNode) → is_retired (pay rate period o') ≡ is_retired o'
    once none = refl
    once (some m) = ground arith

pub Extends-distributed :
    (period : ℕ) (as_ : List String) (s : State)
    → IsKeyed s
    → Extends s (distributed period as_ (get_period_stats s period) s)
unfolding distributed generate_event set_period_stats get_period_stats get_node
Extends-distributed period as_ s k =
    let rate = (get_config s).reward_per_gb_per_period in
    let p : Payout = record { state = s; total_distributed = 0; node_count = 0 } in
    let same = reward_all-same rate period as_ p in
    record {
      settled = λ q h. rw same.1 (grind (arith, k.period_key));
      resolved = λ i h. rw same.0;
      kept = λ i h. rw same.0;
      retired = λ a h.
          rw (reward_all-nodes rate period as_ a p k)
            (iterate-pay-retired (occurrences as_ a) rate period (s.nodes a) ∙ h);
    }
