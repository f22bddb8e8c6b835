-- ===== src/Registry/Calls/Counts/Writes.antt =====
-- The writes that leave the challenges and the counters of the nodes.
use community_storage.Base.{
  ℕ, zero, suc, ◌≡◌, refl, ◌∙◌, String, false, Option, none, some, List, arith, is_some,
}
use community_storage.Structs.{StorageNode}
use community_storage.State.{State, Context}
use community_storage.Registry.{
  generate_event, set_node, set_period_stats, get_node, get_period_stats, set_total_nodes,
  get_total_nodes, get_config,
}
use community_storage.Registry.Nodes.{
  push_node_index, push_node_slot, count_registered, store_metadata, registered, reallocated,
  recount_allocation, unregistered, count_unregistered, remove_node_slot,
}
use community_storage.Registry.Challenges.Counts.{IsCounted, SameCounts, total_of, passed_of}
use community_storage.Registry.Rewards.{Payout, distributed, claimed, transfer_coins}
use community_storage.Registry.Rewards.Payments.{pay, iterate, occurrences, reward_all-nodes}
use community_storage.Registry.Calls.Keys.{IsKeyed}
use community_storage.Registry.Calls.Keys.Writes.{swap_out-same}
use community_storage.Registry.Calls.History.Writes.{reward_all-same}

-- Two states with the same nodes and challenges.
pub SameCounts-same :
    {s u : State} {ids : List String}
    → IsCounted s ids
    → u.nodes ≡ s.nodes
    → u.challenges ≡ s.challenges
    → SameCounts s u
SameCounts-same t n c = record {
  ledgers = λ i. rw c refl;
  still = λ i d e h. t.pending i d (cc (c, e)) h;
  totals = λ a. rw n refl;
  passes = λ a. rw n refl;
  kept = λ a h. rw n h;
}

module _ (s : State) {ids : List String} (k : IsKeyed s) (t : IsCounted s ids) where
  pub SameCounts-registered :
      (ctx : Context) (gb : ℕ) (e : String) (ps : List String)
      → get_node s ctx.caller ≡ none
      → SameCounts s (registered ctx gb e ps s)
  unfolding registered store_metadata count_registered push_node_index push_node_slot set_node
      get_node
  SameCounts-registered ctx gb e ps fresh = record {
    ledgers = λ i. ground arith;
    still = λ i c at_i h. t.pending i c (ground arith) h;
    totals = λ a. ground arith;
    passes = λ a. ground arith;
    kept = λ a h. ground arith;
  }

  pub SameCounts-reallocated :
      (ctx : Context) (gb : ℕ) (n : StorageNode)
      → get_node s ctx.caller ≡ some n
      → SameCounts s (reallocated ctx gb n s)
  unfolding reallocated recount_allocation set_node generate_event get_node
  SameCounts-reallocated ctx gb n e = record {
    ledgers = λ i. refl;
    still = t.pending;
    totals = λ a. ground (arith, k.node_key ctx.caller n e);
    passes = λ a. ground (arith, k.node_key ctx.caller n e);
    kept = λ a h. ground arith;
  }

  pub SameCounts-claimed :
      (ctx : Context) (n : StorageNode)
      → get_node s ctx.caller ≡ some n
      → SameCounts s (claimed ctx n s)
  unfolding claimed transfer_coins set_node generate_event get_node
  SameCounts-claimed ctx n e = record {
    ledgers = λ i. refl;
    still = t.pending;
    totals = λ a. ground (arith, k.node_key ctx.caller n e);
    passes = λ a. ground (arith, k.node_key ctx.caller n e);
    kept = λ a h. ground arith;
  }

  pub SameCounts-unregistered :
      (ctx : Context) (n : StorageNode)
      → get_node s ctx.caller ≡ some n
      → SameCounts s (unregistered ctx n s)
  unfolding unregistered count_unregistered remove_node_slot set_total_nodes set_node generate_event
      get_node
  SameCounts-unregistered ctx n e =
      let idle : State = set_node (record n { active = false }) s in
      let total = get_total_nodes idle in
      let same = swap_out-same ctx.caller total total 0 idle in
      record {
        ledgers = λ i. rw same.1 refl;
        still = rw same.1 t.pending;
        totals = λ a. rw same.0 (ground (arith, k.node_key ctx.caller n e));
        passes = λ a. rw same.0 (ground (arith, k.node_key ctx.caller n e));
        kept = λ a h. rw same.0 (ground arith);
      }

iterate-pay-counts :
    (n rate period : ℕ) (o : Option StorageNode)
    → (total_of (iterate n (pay rate period) o) ≡ total_of o)
      × (passed_of (iterate n (pay rate period) o) ≡ passed_of o)
      × (is_some (iterate n (pay rate period) o) ≡ is_some o)
iterate-pay-counts zero rate period o = (refl, refl, refl)
iterate-pay-counts (suc n) rate period o =
    let rest = iterate-pay-counts n rate period (pay rate period o) in
    let here = once o in (rest.0 ∙ here.0, rest.1 ∙ here.1, rest.2 ∙ here.2)
  where
    once :
        (o' : Option StorageNode)
        → (total_of (pay rate period o') ≡ total_of o')
          × (passed_of (pay rate period o') ≡ passed_of o')
          × (is_some (pay rate period o') ≡ is_some o')
    once none = (refl, refl, refl)
    once (some m) = (ground arith, ground arith, ground arith)

pub SameCounts-distributed :
    (period : ℕ) (as_ : List String) (s : State) {ids : List String}
    → IsKeyed s
    → IsCounted s ids
    → SameCounts s (distributed period as_ (get_period_stats s period) s)
unfolding distributed generate_event set_period_stats get_node
SameCounts-distributed period as_ s k t =
    let rate = (get_config s).reward_per_gb_per_period in
    let p : Payout = record { state = s; total_distributed = 0; node_count = 0 } in
    let same = reward_all-same rate period as_ p in
    let at = λ (a : String). iterate-pay-counts (occurrences as_ a) rate period (s.nodes a) in
    record {
      ledgers = λ i. rw same.0 refl;
      still = rw same.0 t.pending;
      totals = λ a. rw (reward_all-nodes rate period as_ a p k) (at a).0;
      passes = λ a. rw (reward_all-nodes rate period as_ a p k) (at a).1;
      kept = λ a h. rw (reward_all-nodes rate period as_ a p k) ((at a).2 ∙ h);
    }
