-- ===== src/Front/Client/Rpc.antt =====
-- What front/src/contract/storageRegistry.js uses of @massalabs/massa-web3: a read-only call of a
-- view, and its answer; and a chain that stands at one state of the contract.
use community_storage.Base.{ℕ, String, Option, none, some, List, [], Result, ok, abort}
use community_storage.Structs.Args.{ArgsCodec}
use community_storage.State.{State, Error}
use community_storage.Registry.Views.Bytes.{
  node_info_bytes, provider_metadata_bytes, registered_addresses_bytes, period_stats_bytes,
  config_bytes, total_nodes_bytes, node_address_at_bytes, global_storage_usage_bytes,
  pending_rewards_bytes, is_allowed_uploader_bytes, booked_uploader_gb_bytes,
  uploader_price_per_gb_bytes,
}

-- The names that `sc.read` is given.
pub data View : Type 0 where
  config total_nodes period_stats node_info pending_rewards node_address_at : View
  registered_addresses is_allowed_uploader booked_uploader_gb global_storage_usage : View
  uploader_price_per_gb provider_metadata : View

-- `res.info.error`, which is `none` where it is missing or the empty text, since the source tests
-- whether it is truthy; and `res.value`, which is empty where there is none.
pub record Answer : Type 0 where
  pub error : Option String
  pub value : List ℕ

-- `sc.read(name, args)`: what the promise gives, or the message with which it is rejected.
abbrev pub Chain : Type 0
Chain = View → List ℕ → Result String Answer

-- An entry point that aborts gives the text of its message, with which a node answers: it is never
-- the empty text.
abbrev answered : (Error → String) → Result Error (List ℕ) → Result String Answer
answered text (ok value) = ok (record { error = none; value = value })
answered text (abort e) = ok (record { error = some (text e); value = [] })

-- The node runs the view of that name on the arguments, at the state `s`.
unfoldable pub served : ArgsCodec → (Error → String) → State → Chain
served C text s View.config _ = answered text (ok (config_bytes C s))
served C text s View.total_nodes _ = answered text (ok (total_nodes_bytes C s))
served C text s View.period_stats args = answered text (period_stats_bytes C args s)
served C text s View.node_info args = answered text (node_info_bytes C args s)
served C text s View.pending_rewards args = answered text (pending_rewards_bytes C args s)
served C text s View.node_address_at args = answered text (node_address_at_bytes C args s)
served C text s View.registered_addresses _ = answered text (ok (registered_addresses_bytes C s))
served C text s View.is_allowed_uploader args = answered text (is_allowed_uploader_bytes C args s)
served C text s View.booked_uploader_gb args = answered text (booked_uploader_gb_bytes C args s)
served C text s View.global_storage_usage _ = answered text (ok (global_storage_usage_bytes C s))
served C text s View.uploader_price_per_gb _ = answered text (ok (uploader_price_per_gb_bytes C s))
served C text s View.provider_metadata args = answered text (provider_metadata_bytes C args s)
