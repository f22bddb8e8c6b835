-- ===== src/Registry/Nodes/Slots/Writes.antt =====
-- What each write of the registry does to the slots and to the set of active nodes.
use community_storage.Base.{
  ℕ, ◌≡◌, refl, ap, get_or, ◌∙◌, String, Bool, Option, none, some, List, [], ◌∷◌, arith,
  Option-cases, inl, inr, Map,
}
use mathlib.Core.Path.{fun_ext}
use community_storage.Structs.{StorageNode, Challenge, PeriodStats}
use community_storage.State.{State, Context, Event}
use community_storage.Registry.{
  generate_event, get_config, set_node, set_challenge, set_period_stats, get_node, get_challenge,
  get_total_nodes, set_booked_uploader_gb, set_uploader_usage,
}
use community_storage.Registry.Nodes.{set_provider_metadata, reallocated, recount_allocation}
use community_storage.Registry.Challenges.{
  issued, count_issued, credit_node, count_passed, proved, expire, expire_all,
}
use community_storage.Registry.Rewards.{
  Payout, reward_node, reward_all, distributed, claimed, transfer_coins,
}
use community_storage.Registry.Uploaders.{booked, push_uploader_index, recorded, removed}
use community_storage.Registry.Nodes.Slots.{is_active}
use community_storage.Registry.Nodes.Slots.Table.{Lists}
use community_storage.Registry.Calls.Keys.{IsKeyed}
use community_storage.Registry.Calls.Keys.Writes.{reward_node-IsKeyed}

-- The slots in use list the active nodes, each once.
abbrev pub IsIndexed : State → Type 0
IsIndexed s = Lists s.node_slots (get_total_nodes s) (is_active s)

-- The same slots and the same active nodes.
pub record SameSlots (s u : State) : Type 0 where
  pub slots : u.node_slots ≡ s.node_slots
  pub total : u.total_nodes ≡ s.total_nodes
  pub active : (a : String) → is_active u a ≡ is_active s a

pub Lists-same :
    {slots slots' : Map ℕ String} {n n' : ℕ} {m m' : String → Bool}
    → slots' ≡ slots
    → n' ≡ n
    → ((a : String) → m' a ≡ m a)
    → Lists slots n m
    → Lists slots' n' m'
Lists-same p q r t = rw (p, q, fun_ext r) t

pub SameSlots-IsIndexed : {s u : State} → SameSlots s u → IsIndexed s → IsIndexed u
unfolding get_total_nodes
SameSlots-IsIndexed k t = Lists-same k.slots (ap (get_or 0) k.total) k.active t

-- The writes of the entry points that neither add nor remove a provider.
module _ {s : State} where
  SameSlots-refl : SameSlots s s
  SameSlots-refl = record { slots = refl; total = refl; active = λ a. refl }

  SameSlots-trans : {t u : State} → SameSlots s t → SameSlots t u → SameSlots s u
  SameSlots-trans k l = record {
    slots = l.slots ∙ k.slots;
    total = l.total ∙ k.total;
    active = λ a. l.active a ∙ k.active a;
  }

  pub SameSlots-reallocated :
      (ctx : Context) (gb : ℕ) (n : StorageNode)
      → IsKeyed s
      → get_node s ctx.caller ≡ some n
      → SameSlots s (reallocated ctx gb n s)
  unfolding reallocated recount_allocation set_node generate_event get_node
  SameSlots-reallocated ctx gb n k e = record {
    slots = refl;
    total = refl;
    active = λ a. ground (arith, k.node_key ctx.caller n);
  }

  pub SameSlots-set_provider_metadata :
      (a e : String) (ps : List String) (ev : Event)
      → SameSlots s (generate_event ev (set_provider_metadata a e ps s))
  unfolding set_provider_metadata generate_event
  SameSlots-set_provider_metadata a e ps ev = record {
    slots = refl;
    total = refl;
    active = λ b. refl;
  }

  pub SameSlots-issued :
      (ctx : Context) (i a c : String) (nonce : ℕ) (n : StorageNode)
      → IsKeyed s
      → get_node s a ≡ some n
      → SameSlots s (issued ctx i a c nonce n s)
  unfolding issued count_issued set_node set_challenge generate_event get_node
  SameSlots-issued ctx i a c nonce n k e = record {
    slots = refl;
    total = refl;
    active = λ b. ground (arith, k.node_key a n);
  }

  pub SameSlots-proved :
      (ctx : Context) (i : String) (valid : Bool) (c : Challenge)
      → IsKeyed s
      → SameSlots s (proved ctx i valid c s)
  unfolding proved credit_node count_passed set_challenge get_node
  SameSlots-proved ctx i valid c k = record {
    slots = ground arith;
    total = ground arith;
    active = λ a. grind (arith, k.node_key);
  }

  pub SameSlots-claimed :
      (ctx : Context) (n : StorageNode)
      → IsKeyed s
      → get_node s ctx.caller ≡ some n
      → SameSlots s (claimed ctx n s)
  unfolding claimed transfer_coins set_node generate_event get_node
  SameSlots-claimed ctx n k e = record {
    slots = refl;
    total = refl;
    active = λ a. ground (arith, k.node_key ctx.caller n);
  }

  pub SameSlots-booked : (ctx : Context) (gb : ℕ) → SameSlots s (booked ctx gb s)
  unfolding booked push_uploader_index set_booked_uploader_gb generate_event
  SameSlots-booked ctx gb = record {
    slots = ground arith;
    total = ground arith;
    active = λ a. ground arith;
  }

  pub SameSlots-recorded : (a : String) (n : ℕ) → SameSlots s (recorded a n s)
  unfolding recorded set_uploader_usage generate_event
  SameSlots-recorded a n = record {
    slots = ground arith;
    total = ground arith;
    active = λ b. ground arith;
  }

  pub SameSlots-removed : (a : String) (n : ℕ) → SameSlots s (removed a n s)
  unfolding removed set_uploader_usage generate_event
  SameSlots-removed a n = record {
    slots = ground arith;
    total = ground arith;
    active = λ b. ground arith;
  }

SameSlots-expire :
    (now : ℕ) (i : String) (o : Option Challenge) (s : State) → SameSlots s (expire now i o s)
unfolding expire set_challenge generate_event
SameSlots-expire now i none s = SameSlots-refl
SameSlots-expire now i (some c) s = record {
  slots = ground arith;
  total = ground arith;
  active = λ a. ground arith;
}

pub SameSlots-expire_all :
    (now : ℕ) (ids : List String) (s : State) → SameSlots s (expire_all now ids s)
unfolding expire_all
SameSlots-expire_all now [] s = SameSlots-refl
SameSlots-expire_all now (i ∷ ids) s =
    SameSlots-trans (SameSlots-expire now i (get_challenge s i) s) (SameSlots-expire_all now ids _)

SameSlots-reward_node :
    (rate period : ℕ) (a : String) (n : StorageNode) (p : Payout)
    → is_active p.state n.address ≡ n.active
    → SameSlots p.state (reward_node rate period a (some n) p).state
unfolding reward_node
SameSlots-reward_node rate period a n p e = record {
  slots = ground arith;
  total = ground arith;
  active = λ b. ground arith;
}

SameSlots-reward_at :
    (rate period : ℕ) (a : String) (p : Payout)
    → IsKeyed p.state
    → SameSlots p.state (reward_node rate period a (get_node p.state a) p).state
SameSlots-reward_at rate period a p k = elim (Option-cases (get_node p.state a)) [
  | inl missing ↦ rw missing unchanged
  | inr (n, found) ↦ rw found (SameSlots-reward_node rate period a n p (stored n found))
]
  where
    unchanged : SameSlots p.state (reward_node rate period a none p).state
    unchanged = unfold reward_node in SameSlots-refl

    stored :
        (n : StorageNode) → get_node p.state a ≡ some n → is_active p.state n.address ≡ n.active
    stored n e = unfold get_node in ground (arith, k.node_key a n e)

SameSlots-reward_all :
    (rate period : ℕ) (as_ : List String) (p : Payout)
    → IsKeyed p.state
    → SameSlots p.state (reward_all rate period as_ p).state
unfolding reward_all
SameSlots-reward_all rate period [] p k = SameSlots-refl
SameSlots-reward_all rate period (a ∷ as_) p k =
    SameSlots-trans (SameSlots-reward_at rate period a p k) (
      SameSlots-reward_all rate period as_ _
        (reward_node-IsKeyed rate period a (get_node p.state a) p k))

pub SameSlots-distributed :
    (period : ℕ) (as_ : List String) (t : PeriodStats) (s : State)
    → IsKeyed s
    → SameSlots s (distributed period as_ t s)
unfolding distributed generate_event set_period_stats
SameSlots-distributed period as_ t s k =
    let r =
      SameSlots-reward_all (get_config s).reward_per_gb_per_period period as_
        (record { state = s; total_distributed = 0; node_count = 0 }) k in
    record { slots = r.slots; total = r.total; active = r.active }
