-- ===== src/Registry/Nodes/Slots.antt =====
-- The numbered slots `node_idx_0`, `node_idx_1`, … with the count `total_nodes`, through which
-- clients of the registry enumerate the providers, against the set of active nodes.
pub mod Table
pub mod Writes
pub mod Providers
pub mod Swap
use community_storage.Base.{String, Bool, false, Option, none, some}
use community_storage.Structs.{StorageNode}
use community_storage.State.{State}

abbrev is_active_node : Option StorageNode → Bool
is_active_node none = false
is_active_node (some n) = n.active

-- Whether a node is registered at an address and active.
abbrev pub is_active : State → String → Bool
is_active s a = is_active_node (s.nodes a)
