-- ===== src/Registry/Calls.antt =====
-- The entry points of smartContract/assembly/contracts/storage-registry.ts that write, as one type
-- of requests, and the states that sequences of calls reach.
pub mod Success
pub mod Keys
pub mod Slots
pub mod History
pub mod Counts
pub mod Indexes
pub mod Access
use community_storage.Base.{ℕ, ◌+◌, ◌≡◌, String, Bool, false, Option, List, ok}
use community_storage.Structs.{StorageConfig}
use community_storage.State.{State, Context, Outcome, blank}
use community_storage.Registry.Nodes.{
  register_storage_node, update_storage_allocation, unregister_storage_node,
  update_provider_metadata,
}
use community_storage.Registry.Challenges.{
  issue_challenge, submit_proof, resolve_expired_challenges,
}
use community_storage.Registry.Rewards.{distribute_rewards, claim_rewards}
use community_storage.Registry.Uploaders.{
  register_as_uploader, record_file_upload, remove_file_upload,
}
use community_storage.Registry.Admin.{
  deploy, update_config, add_challenger, remove_challenger, add_storage_admin, remove_storage_admin,
  set_uploader_price_per_gb_admin, set_paused, transfer_admin, fund_contract,
}

-- An entry point with what its argument reader returns, in order.
pub data Request : Type 0 where
  deploy_request : Option String → Option StorageConfig → Request
  register_request : Option ℕ → Option String → Option (List String) → Request
  allocation_request : Option ℕ → Request
  unregister_request : Request
  metadata_request : Option String → Option (List String) → Request
  issue_request : Option String → Option String → Option String → Option ℕ → Request
  proof_request : Option String → Option (List ℕ) → Request
  expire_request : Option (List String) → Request
  distribute_request : Option ℕ → Option (List String) → Request
  claim_request : Request
  booking_request : Option ℕ → Request
  upload_request : Option String → Option ℕ → Request
  removal_request : Option String → Option ℕ → Request
  config_request : Option StorageConfig → Request
  add_challenger_request remove_challenger_request : Option String → Request
  add_storage_admin_request remove_storage_admin_request : Option String → Request
  price_request : Option ℕ → Request
  pause_request : Option Bool → Request
  transfer_admin_request : Option String → Request
  fund_request : Request

unfoldable pub call : Context → Request → State → Outcome
call ctx (deploy_request a c) = deploy ctx a c
call ctx (register_request gb e p) = register_storage_node ctx gb e p
call ctx (allocation_request gb) = update_storage_allocation ctx gb
call ctx unregister_request = unregister_storage_node ctx
call ctx (metadata_request e p) = update_provider_metadata ctx e p
call ctx (issue_request i n c k) = issue_challenge ctx i n c k
call ctx (proof_request i p) = submit_proof ctx i p
call ctx (expire_request is) = resolve_expired_challenges ctx is
call ctx (distribute_request p as_) = distribute_rewards ctx p as_
call ctx claim_request = claim_rewards ctx
call ctx (booking_request gb) = register_as_uploader ctx gb
call ctx (upload_request u n) = record_file_upload ctx u n
call ctx (removal_request u n) = remove_file_upload ctx u n
call ctx (config_request c) = update_config ctx c
call ctx (add_challenger_request a) = add_challenger ctx a
call ctx (remove_challenger_request a) = remove_challenger ctx a
call ctx (add_storage_admin_request a) = add_storage_admin ctx a
call ctx (remove_storage_admin_request a) = remove_storage_admin ctx a
call ctx (price_request n) = set_uploader_price_per_gb_admin ctx n
call ctx (pause_request b) = set_paused ctx b
call ctx (transfer_admin_request a) = transfer_admin ctx a
call ctx fund_request = fund_contract ctx

-- The states of a contract: what its deployment leaves, and what any sequence of calls that did not
-- abort makes of it, from any callers at any times. The constructor runs at deployment only.
pub data Reach : State → Type 0 where
  start :
      {u : State} (ctx : Context) (admin? : Option String) (config? : Option StorageConfig)
      → deploy ctx admin? config? blank ≡ ok u
      → Reach u
  next :
      {s u : State} (ctx : Context) (r : Request)
      → Reach s
      → ctx.is_deploying_contract ≡ false
      → call ctx r s ≡ ok u
      → Reach u

-- The number of calls since the deployment.
unfoldable pub steps : {s : State} → Reach s → ℕ
steps (start ctx admin? config? h) = 0
steps (next ctx r before idle h) = steps before + 1

-- The states that a deployed contract may pass to from a given one.
pub data Later (s : State) : State → Type 0 where
  now : Later s s
  after :
      {t u : State} (ctx : Context) (r : Request)
      → Later s t
      → ctx.is_deploying_contract ≡ false
      → call ctx r t ≡ ok u
      → Later s u
