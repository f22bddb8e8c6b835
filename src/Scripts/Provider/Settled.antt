-- ===== src/Scripts/Provider/Settled.antt =====
-- What the call of smartContract/src/register-provider.ts does to the contract.
use community_storage.Base.{◌≡◌, ℕ, String, some, List, is_some, if◌then◌else◌}
use community_storage.Structs.{StorageNode}
use community_storage.State.{State}
use community_storage.Scripts.Setup.One.{stays_active}

-- The node under `a` after the script, which ran at `s`: its metadata are those of the script where it
-- was new, and else those that it had.
pub record IsSettled (a endpoint : String) (gb : ℕ) (p2p_addrs : List String) (s u : State)
    : Type 0 where
  pub node : StorageNode
  pub stored : u.nodes a ≡ some node
  pub allocated : node.allocated_gb ≡ gb
  pub activity : node.active ≡ stays_active s a
  pub metadata : u.provider_meta a ≡ (
      if is_some (s.nodes a)
      then s.provider_meta a
      else some (record { endpoint = endpoint; p2p_addrs = p2p_addrs }))
