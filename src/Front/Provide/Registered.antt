-- ===== src/Front/Provide/Registered.antt =====
-- What a registration from the page does to the contract and to the page.
use Prim.Native.String.{◌++◌ as ◌⊕◌}
use mathlib.Core.Option
use community_storage.Base.{
  ℕ, ◌≤◌, ◌<◌, ◌≡◌, String, true, false, none, some, List, ok, arith, Result,
}
use community_storage.Structs.{new_node}
use community_storage.State.{State, Context}
use community_storage.Registry.{
  assert_not_paused, is_paused, get_config, get_node, set_node, set_node_index, set_node_slot,
  set_total_nodes, set_period_stats, generate_event,
}
use community_storage.Registry.Nodes.{
  set_provider_metadata, store_metadata, count_registered, push_node_slot, push_node_index,
  register_storage_node, registered,
}
use community_storage.Front.Provide.{
  Texts, ConfigResponse, whole, ProvidePage, is_blank, normalized, listen_addrs, p2p_array,
}

-- The contract takes an allocation of `gb` by a caller that has no node.
pub record IsAccepted (ctx : Context) (gb : ℕ) (s : State) : Type 0 where
  pub running : is_paused s ≡ false
  pub above : (get_config s).min_allocated_gb ≤ gb
  pub below : gb ≤ (get_config s).max_allocated_gb
  pub new : s.nodes ctx.caller ≡ none

-- The server answers at `{endpoint}/config` with a limit of `gb`, and with these addresses.
pub record Offers (t : Texts) (fetch : String → Result String ConfigResponse) (endpoint : String)
    (gb : ℕ) (addrs : List String) : Type 0 where
  pub response : ConfigResponse
  pub filled : is_blank t endpoint ≡ false
  pub reached : fetch (normalized t endpoint ⊕ "/config") ≡ ok response
  pub answered : response.is_ok ≡ true
  pub limit : response.storage_limit_gb ≡ whole gb
  pub positive : 0 < gb
  pub listens : listen_addrs response.p2p_listen_addr ≡ addrs

pub register-accepted :
    (ctx : Context) (gb : ℕ) (e : String) (p2p : List String) (s : State)
    → IsAccepted ctx gb s
    → register_storage_node ctx (some gb) (some e) (some p2p) s ≡ ok (registered ctx gb e p2p s)
unfolding register_storage_node assert_not_paused get_node
register-accepted ctx gb e p2p s o =
    let r = o.running in let a = o.above in let b = o.below in rw o.new (ground arith)

pub registered-node :
    (ctx : Context) (gb : ℕ) (e : String) (p2p : List String) (s : State)
    → (registered ctx gb e p2p s).nodes ctx.caller
      ≡ some (new_node ctx.caller gb ctx.current_period)
unfolding registered push_node_index push_node_slot count_registered store_metadata set_node
    set_node_index set_node_slot set_total_nodes set_period_stats set_provider_metadata
    generate_event
registered-node ctx gb e p2p s = ground arith

-- The page that `fetch_server_metadata` leaves where the server offers an allocation.
record Fetched (t : Texts) (endpoint : String) (gb : ℕ) (addrs : List String)
    (page after : ProvidePage) : Type 0 where
  found :
      after.metadata
      ≡ some (record { endpoint = normalized t endpoint; allocated_gb = gb; p2p_addrs = addrs })
  chosen : p2p_array t addrs after.p2p_addrs ≡ p2p_array t addrs page.p2p_addrs
  error_kept : after.error ≡ page.error
  loading_kept : after.loading ≡ page.loading
