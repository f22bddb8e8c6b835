-- ===== src/Registry/Calls/Access.antt =====
-- Who may call what, over all entry points of the registry: the pause and the admin.
pub mod Settings
use community_storage.Base.{ℕ, ◌≡◌, refl, Bool, true, false, arith, abort}
use community_storage.State.{State, Context, contract_is_paused, caller_is_not_admin}
use community_storage.Registry.{is_paused, is_admin, assert_not_paused, assert_admin}
use community_storage.Registry.Nodes.{
  register_storage_node, update_storage_allocation, update_provider_metadata,
}
use community_storage.Registry.Challenges.{issue_challenge, submit_proof}
use community_storage.Registry.Rewards.{distribute_rewards, claim_rewards}
use community_storage.Registry.Uploaders.{
  register_as_uploader, record_file_upload, remove_file_upload,
}
use community_storage.Registry.Admin.{
  update_config, add_challenger, remove_challenger, add_storage_admin, remove_storage_admin,
  set_uploader_price_per_gb_admin, set_paused, transfer_admin,
}
use community_storage.Registry.Calls.{
  Request, deploy_request, register_request, allocation_request, unregister_request,
  metadata_request, issue_request, proof_request, expire_request, distribute_request, claim_request,
  booking_request, upload_request, removal_request, config_request, add_challenger_request,
  remove_challenger_request, add_storage_admin_request, remove_storage_admin_request, price_request,
  pause_request, transfer_admin_request, fund_request, call,
}

-- The entry points that a paused contract still runs.
abbrev pub runs_paused : Request → Bool
runs_paused (register_request _ _ _) = false
runs_paused (allocation_request _) = false
runs_paused (metadata_request _ _) = false
runs_paused (issue_request _ _ _ _) = false
runs_paused (proof_request _ _) = false
runs_paused (distribute_request _ _) = false
runs_paused claim_request = false
runs_paused (booking_request _) = false
runs_paused (upload_request _ _) = false
runs_paused (removal_request _ _) = false
runs_paused _ = true

-- The entry points that are the admin's.
abbrev is_admins : Request → Bool
is_admins (config_request _) = true
is_admins (add_challenger_request _) = true
is_admins (remove_challenger_request _) = true
is_admins (add_storage_admin_request _) = true
is_admins (remove_storage_admin_request _) = true
is_admins (price_request _) = true
is_admins (pause_request _) = true
is_admins (transfer_admin_request _) = true
is_admins _ = false

-- While the contract is paused, each entry point outside the list of `runs_paused` aborts with the
-- message of the pause, whatever its arguments are and whoever calls.
pub paused_refuses :
    (ctx : Context) (r : Request) (s : State)
    → is_paused s ≡ true
    → runs_paused r ≡ false
    → call ctx r s ≡ abort contract_is_paused
unfolding call assert_not_paused register_storage_node update_storage_allocation
    update_provider_metadata issue_challenge submit_proof distribute_rewards claim_rewards
    register_as_uploader record_file_upload remove_file_upload
paused_refuses ctx (register_request _ _ _) s paused h = ground arith
paused_refuses ctx _ s paused h = ground arith

-- Each admin function aborts for every caller that is not the admin.
pub admin_refuses :
    (ctx : Context) (r : Request) (s : State)
    → is_admin s ctx.caller ≡ false
    → is_admins r ≡ true
    → call ctx r s ≡ abort caller_is_not_admin
unfolding call assert_admin update_config add_challenger remove_challenger add_storage_admin
    remove_storage_admin set_uploader_price_per_gb_admin set_paused transfer_admin
admin_refuses ctx (config_request _) s other h = ground arith
admin_refuses ctx _ s other h = ground arith
