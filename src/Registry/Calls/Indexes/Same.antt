-- ===== src/Registry/Calls/Indexes/Same.antt =====
-- The writes that leave the lists of providers and of uploaders.
use community_storage.Base.{
  ℕ, zero, suc, ◌+◌, ◌≡◌, refl, ◌∙◌, String, Bool, true, false, Option, none, some, List, [], ◌∷◌,
  arith, is_some,
}
use community_storage.Structs.{StorageNode, Challenge}
use community_storage.State.{State, Context}
use community_storage.Registry.{
  generate_event, set_node, set_challenge, set_period_stats, get_node, get_challenge,
  get_period_stats, set_total_nodes, get_total_nodes, set_node_slot, get_config, set_uploader_usage,
}
use community_storage.Registry.Nodes.{
  reallocated, recount_allocation, swap_out, remove_node_slot, unregistered, count_unregistered,
}
use community_storage.Registry.Challenges.{
  issued, count_issued, credit_node, count_passed, proved, expire, expire_all,
}
use community_storage.Registry.Rewards.{
  Payout, reward_node, reward_all, distributed, claimed, transfer_coins,
}
use community_storage.Registry.Uploaders.{recorded, removed}
use community_storage.Registry.Calls.Keys.{IsKeyed}
use community_storage.Registry.Calls.Keys.Writes.{reward_node-IsKeyed}
use community_storage.Registry.Calls.Indexes.Writes.{SameLists, SameLists-refl, SameLists-trans}

module _ {s : State} where
  pub SameLists-reallocated :
      (ctx : Context) (gb : ℕ) (n : StorageNode)
      → is_some (get_node s n.address) ≡ true
      → SameLists s (reallocated ctx gb n s)
  unfolding reallocated recount_allocation set_node generate_event get_node
  SameLists-reallocated ctx gb n e = record {
    node_list = refl;
    uploader_list = refl;
    bookings = refl;
    stored = λ a. ground arith;
  }

  pub SameLists-issued :
      (ctx : Context) (i a c : String) (nonce : ℕ) (n : StorageNode)
      → is_some (get_node s n.address) ≡ true
      → SameLists s (issued ctx i a c nonce n s)
  unfolding issued count_issued set_node set_challenge generate_event get_node
  SameLists-issued ctx i a c nonce n e = record {
    node_list = refl;
    uploader_list = refl;
    bookings = refl;
    stored = λ b. ground arith;
  }

  pub SameLists-claimed :
      (ctx : Context) (n : StorageNode)
      → is_some (get_node s n.address) ≡ true
      → SameLists s (claimed ctx n s)
  unfolding claimed transfer_coins set_node generate_event get_node
  SameLists-claimed ctx n e = record {
    node_list = refl;
    uploader_list = refl;
    bookings = refl;
    stored = λ a. ground arith;
  }

  pub SameLists-proved :
      (ctx : Context) (i : String) (valid : Bool) (c : Challenge)
      → ((n : StorageNode) → get_node s c.node_address ≡ some n → n.address ≡ c.node_address)
      → SameLists s (proved ctx i valid c s)
  unfolding proved credit_node count_passed set_challenge set_node get_node
  SameLists-proved ctx i valid c own = record {
    node_list = ground arith;
    uploader_list = ground arith;
    bookings = ground arith;
    stored = λ a. grind (arith, own);
  }

swap_out-lists :
    (a : String) (total left i : ℕ) (s : State) → SameLists s (swap_out a total left i s)
unfolding swap_out set_node_slot
swap_out-lists a total zero i s = SameLists-refl
swap_out-lists a total (suc left) i s =
    let rest = swap_out-lists a total left (i + 1) s in
    record {
      node_list = ground (arith, rest.node_list);
      uploader_list = ground (arith, rest.uploader_list);
      bookings = ground (arith, rest.bookings);
      stored = λ b. ground (arith, rest.stored b);
    }

pub SameLists-unregistered :
    (ctx : Context) (n : StorageNode) (s : State)
    → is_some (get_node s n.address) ≡ true
    → SameLists s (unregistered ctx n s)
unfolding unregistered count_unregistered remove_node_slot set_total_nodes set_node generate_event
    get_node
SameLists-unregistered ctx n s e =
    let idle : State = set_node (record n { active = false }) s in
    let total = get_total_nodes idle in
    let same = swap_out-lists ctx.caller total total 0 idle in
    record {
      node_list = same.node_list;
      uploader_list = same.uploader_list;
      bookings = same.bookings;
      stored = λ a. same.stored a ∙ ground arith;
    }

SameLists-expire :
    (now : ℕ) (i : String) (o : Option Challenge) (s : State) → SameLists s (expire now i o s)
unfolding expire set_challenge generate_event
SameLists-expire now i none s = SameLists-refl
SameLists-expire now i (some c) s = record {
  node_list = ground arith;
  uploader_list = ground arith;
  bookings = ground arith;
  stored = λ a. ground arith;
}

pub SameLists-expire_all :
    (now : ℕ) (ids : List String) (s : State) → SameLists s (expire_all now ids s)
unfolding expire_all
SameLists-expire_all now [] s = SameLists-refl
SameLists-expire_all now (i ∷ ids) s =
    SameLists-trans (SameLists-expire now i (get_challenge s i) s) (SameLists-expire_all now ids _)

SameLists-reward_at :
    (rate period : ℕ) (a : String) (p : Payout)
    → IsKeyed p.state
    → SameLists p.state (reward_node rate period a (get_node p.state a) p).state
unfolding reward_node set_node get_node
SameLists-reward_at rate period a p k = record {
  node_list = ground arith;
  uploader_list = ground arith;
  bookings = ground arith;
  stored = λ b. grind (arith, k.node_key);
}

SameLists-reward_all :
    (rate period : ℕ) (as_ : List String) (p : Payout)
    → IsKeyed p.state
    → SameLists p.state (reward_all rate period as_ p).state
unfolding reward_all
SameLists-reward_all rate period [] p k = SameLists-refl
SameLists-reward_all rate period (a ∷ as_) p k =
    SameLists-trans (SameLists-reward_at rate period a p k) (
      SameLists-reward_all rate period as_ _
        (reward_node-IsKeyed rate period a (get_node p.state a) p k))

pub SameLists-distributed :
    (period : ℕ) (as_ : List String) (s : State)
    → IsKeyed s
    → SameLists s (distributed period as_ (get_period_stats s period) s)
unfolding distributed generate_event set_period_stats
SameLists-distributed period as_ s k =
    let r =
      SameLists-reward_all (get_config s).reward_per_gb_per_period period as_
        (record { state = s; total_distributed = 0; node_count = 0 }) k in
    record {
      node_list = r.node_list;
      uploader_list = r.uploader_list;
      bookings = r.bookings;
      stored = r.stored;
    }

pub SameLists-recorded : (a : String) (n : ℕ) (s : State) → SameLists s (recorded a n s)
unfolding recorded set_uploader_usage generate_event
SameLists-recorded a n s = record {
  node_list = ground arith;
  uploader_list = ground arith;
  bookings = ground arith;
  stored = λ b. ground arith;
}

pub SameLists-removed : (a : String) (n : ℕ) (s : State) → SameLists s (removed a n s)
unfolding removed set_uploader_usage generate_event
SameLists-removed a n s = record {
  node_list = ground arith;
  uploader_list = ground arith;
  bookings = ground arith;
  stored = λ b. ground arith;
}
