-- ===== src/Scripts/Setup/Contract.antt =====
-- What the calls of the setup write in the contract.
use community_storage.Base.{
  subst, ℕ, ◌≤◌, ◌≡◌, ◌≢◌, refl, sym, ap, String, false, none, some, [], ok, arith, get_or,
}
use community_storage.Structs.{new_config, StorageNode, new_node}
use community_storage.State.{provider_metadata_updated, State, Context}
use community_storage.Registry.{
  assert_not_paused, is_paused, get_config, get_node, set_node, set_node_index, set_node_slot,
  set_total_nodes, set_period_stats, generate_event,
}
use community_storage.Registry.Nodes.{
  set_provider_metadata, store_metadata, count_registered, push_node_slot, recount_allocation,
  push_node_index, register_storage_node, update_storage_allocation, update_provider_metadata,
  registered, reallocated,
}

-- Every stored node stands under its own address.
abbrev pub NodesKeyed : State → Type 0
NodesKeyed s = (a : String) (n : StorageNode) → s.nodes a ≡ some n → n.address ≡ a

-- What the setup needs of the contract, and keeps.
pub record IsOpen (gb : ℕ) (s : State) : Type 0 where
  pub running : is_paused s ≡ false
  pub above : (get_config s).min_allocated_gb ≤ gb
  pub below : gb ≤ (get_config s).max_allocated_gb
  pub keyed : NodesKeyed s

-- A first call has stored this node under this address, and nothing that the setup needs has changed.
pub record Wrote (a : String) (n : StorageNode) (s u : State) : Type 0 where
  pub node_there : u.nodes a ≡ some n
  pub nodes_same : (b : String) → b ≢ a → u.nodes b ≡ s.nodes b
  pub metadata_same : (b : String) → b ≢ a → u.provider_meta b ≡ s.provider_meta b
  pub paused_same : u.paused ≡ s.paused
  pub config_same : u.config ≡ s.config

pub registered-Wrote :
    (ctx : Context) (gb : ℕ) (e : String) (s : State)
    → Wrote ctx.caller (new_node ctx.caller gb ctx.current_period) s (registered ctx gb e [] s)
unfolding registered push_node_index push_node_slot count_registered store_metadata set_node
    set_node_index set_node_slot set_total_nodes set_period_stats set_provider_metadata
    generate_event
registered-Wrote ctx gb e s = record {
  node_there = ground arith;
  nodes_same = λ b ne. ground arith;
  metadata_same = λ b ne. ground arith;
  paused_same = ground arith;
  config_same = ground arith;
}

pub reallocated-Wrote :
    (ctx : Context) (gb : ℕ) (n : StorageNode) (s : State)
    → n.address ≡ ctx.caller
    → Wrote ctx.caller (record n { allocated_gb = gb }) s (reallocated ctx gb n s)
unfolding reallocated recount_allocation set_node set_period_stats generate_event
reallocated-Wrote ctx gb n s e = record {
  node_there = ground arith;
  nodes_same = λ b ne. ground arith;
  metadata_same = λ b ne. ground arith;
  paused_same = ground arith;
  config_same = ground arith;
}

pub register-open :
    (ctx : Context) (gb : ℕ) (e : String) (s : State)
    → IsOpen gb s
    → s.nodes ctx.caller ≡ none
    → register_storage_node ctx (some gb) (some e) (some []) s ≡ ok (registered ctx gb e [] s)
unfolding register_storage_node assert_not_paused get_node
register-open ctx gb e s o new =
    let r = o.running in let a = o.above in let b = o.below in rw new (ground arith)

pub update-open :
    (ctx : Context) (gb : ℕ) (n : StorageNode) (s : State)
    → IsOpen gb s
    → s.nodes ctx.caller ≡ some n
    → update_storage_allocation ctx (some gb) s ≡ ok (reallocated ctx gb n s)
unfolding update_storage_allocation assert_not_paused get_node
update-open ctx gb n s o there =
    let r = o.running in let a = o.above in let b = o.below in ground arith

pub same_pause : (s u : State) → u.paused ≡ s.paused → is_paused s ≡ false → is_paused u ≡ false
unfolding is_paused
same_pause s u e h = rw e h

-- The state after `updateProviderMetadata`.
pub published : Context → String → State → State
published ctx e u =
    generate_event (provider_metadata_updated ctx.caller e)
      (set_provider_metadata ctx.caller e [] u)

pub publish-open :
    (ctx : Context) (e : String) (u : State) (n : StorageNode)
    → is_paused u ≡ false
    → u.nodes ctx.caller ≡ some n
    → update_provider_metadata ctx (some e) (some []) u ≡ ok (published ctx e u)
unfolding update_provider_metadata assert_not_paused get_node published
publish-open ctx e u n running there = rw (running, there) refl

pub record PublishedFields (ctx : Context) (e : String) (u : State) : Type 0 where
  pub nodes_kept : (published ctx e u).nodes ≡ u.nodes
  pub paused_kept : (published ctx e u).paused ≡ u.paused
  pub config_kept : (published ctx e u).config ≡ u.config
  pub own_metadata :
      (published ctx e u).provider_meta ctx.caller ≡ some (record { endpoint = e; p2p_addrs = [] })
  pub others_metadata :
      (a : String) → a ≢ ctx.caller → (published ctx e u).provider_meta a ≡ u.provider_meta a

pub published_fields : (ctx : Context) (e : String) (u : State) → PublishedFields ctx e u
unfolding published set_provider_metadata generate_event
published_fields ctx e u = record {
  nodes_kept = refl;
  paused_kept = refl;
  config_kept = refl;
  own_metadata = ground arith;
  others_metadata = λ a ne. ground arith;
}

same_config : (s u : State) → u.config ≡ s.config → get_config u ≡ get_config s
unfolding get_config
same_config s u e = ap (get_or new_config) e

pub same_settings :
    {gb : ℕ} (s u : State)
    → u.paused ≡ s.paused
    → u.config ≡ s.config
    → IsOpen gb s
    → NodesKeyed u
    → IsOpen gb u
same_settings {gb} s u pause conf o keyed =
    let e = same_config s u conf in
    record {
      running = same_pause s u pause o.running;
      above = subst (λ c. c.min_allocated_gb ≤ gb) (sym e) o.above;
      below = subst (λ c. gb ≤ c.max_allocated_gb) (sym e) o.below;
      keyed = keyed;
    }
