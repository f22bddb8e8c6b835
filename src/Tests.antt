-- ===== src/Tests.antt =====
-- A contract at work: a deployment and a sequence of calls, as inputs of the tests and witnesses.
mod Runs
mod Final
mod Pay
mod Uploads
mod Codec
mod Answers
mod Counts
mod Indexes
mod MyFiles
mod Clients
mod Storing
mod Downloading
mod Wallets
mod Prolonging
mod Providing
mod Blocking
mod Setting
mod Registering
mod Claiming
use community_storage.Base.{
  ℕ, ◌*◌, String, Bool, true, false, Option, none, some, List, [], ◌∷◌, ok, abort, String_discrete,
  ℕ_discrete, set, empty, add64, sub64, mul64,
}
use community_storage.Structs.{StorageNode, Challenge, new_challenge}
use community_storage.State.{State, Context, Outcome, blank}
use community_storage.Registry.{
  generate_event, get_total_nodes, set_total_nodes, set_node_slot, get_node_address_at_internal,
  is_storage_admin, get_uploader_price_per_gb, set_uploader_price_per_gb, get_booked_uploader_gb,
  set_booked_uploader_gb, get_uploader_index, set_uploader_index, get_uploader_usage,
  set_uploader_usage, get_config, set_config, get_node, set_node, get_node_index, set_node_index,
  get_challenge, set_challenge, get_period_stats, set_period_stats,
  get_total_allocated_gb_across_providers, get_total_booked_gb_across_uploaders, is_admin,
  is_challenger, is_paused, assert_not_paused, assert_admin, assert_challenger,
}
use community_storage.Registry.Nodes.{
  push_node_index, push_node_slot, count_registered, set_provider_metadata, store_metadata,
  registered, register_storage_node, recount_allocation, reallocated, update_storage_allocation,
  swap_out, remove_node_slot, count_unregistered, unregistered, unregister_storage_node,
  update_provider_metadata,
}
use community_storage.Registry.Challenges.{
  count_issued, issued, issue_challenge, credit_node, count_passed, proved, submit_proof, expire,
  expire_all, resolve_expired_challenges,
}
use community_storage.Registry.Rewards.{
  all_challenged, add_reward, reward_node, reward_all, distributed, distribute_rewards,
  transfer_coins, claimed, claim_rewards,
}
use community_storage.Registry.Uploaders.{
  new_total_booked, available_gb, push_uploader_index, booked, register_as_uploader, recorded,
  record_file_upload, removed, remove_file_upload,
}
use community_storage.Registry.Admin.{
  deploy, update_config, add_challenger, remove_challenger, add_storage_admin, remove_storage_admin,
  set_uploader_price_per_gb_admin, set_paused, transfer_admin, fund_contract,
}
use community_storage.Registry.Calls.{
  Request, register_request, unregister_request, issue_request, proof_request, expire_request,
  distribute_request, claim_request, booking_request, upload_request, add_storage_admin_request,
  call,
}

-- The whole contract, for runs.
contract : Unit {0}
unfolding generate_event get_total_nodes set_total_nodes set_node_slot get_node_address_at_internal
    is_storage_admin get_uploader_price_per_gb set_uploader_price_per_gb get_booked_uploader_gb
    set_booked_uploader_gb get_uploader_index set_uploader_index get_uploader_usage
    set_uploader_usage get_config set_config get_node set_node get_node_index set_node_index
    get_challenge set_challenge get_period_stats set_period_stats
    get_total_allocated_gb_across_providers get_total_booked_gb_across_uploaders is_admin
    is_challenger is_paused assert_not_paused assert_admin assert_challenger push_node_index
    push_node_slot count_registered set_provider_metadata store_metadata registered
    register_storage_node recount_allocation reallocated update_storage_allocation swap_out
    remove_node_slot count_unregistered unregistered unregister_storage_node
    update_provider_metadata count_issued issued issue_challenge credit_node count_passed proved
    submit_proof expire expire_all resolve_expired_challenges all_challenged add_reward reward_node
    reward_all distributed distribute_rewards transfer_coins claimed claim_rewards new_total_booked
    available_gb push_uploader_index booked register_as_uploader recorded record_file_upload removed
    remove_file_upload deploy update_config add_challenger remove_challenger add_storage_admin
    remove_storage_admin set_uploader_price_per_gb_admin set_paused transfer_admin fund_contract
    call String_discrete ℕ_discrete add64 sub64 mul64
contract = tt

-- A call at a period, by a caller who sends no coins, to a contract with a large balance.
abbrev by : String → ℕ → Context
by caller period = record {
  caller = caller;
  current_period = period;
  timestamp = 1000 * period;
  transferred_coins = 0;
  balance = 1_000_000_000;
  is_deploying_contract = false;
}

abbrev paying : String → ℕ → ℕ → Context
paying caller period coins = let ctx = by caller period in record ctx { transferred_coins = coins }

abbrev deployment : Context
deployment = let ctx = by "admin" 1 in record ctx { is_deploying_contract = true }

-- The state that a call leaves, or the one before it.
abbrev state_of : State → Outcome → State
state_of s (ok u) = u
state_of s (abort e) = s

abbrev then_call : Context → Request → State → State
then_call ctx r s = state_of s (call ctx r s)

abbrev deployed : State
deployed = state_of blank (deploy deployment (some "admin") none blank)

abbrev register : ℕ → Request
register gb = register_request (some gb) (some "") (some [])

-- Two providers register.
abbrev one_provider : State
one_provider = then_call (by "north" 5) (register 10) deployed

abbrev two_providers : State
two_providers = then_call (by "south" 5) (register 20) one_provider

abbrev answer : Request
answer = proof_request (some "first") (some (1 ∷ 2 ∷ []))

abbrev distribution : List String → Request
distribution addresses = distribute_request (some 5) (some addresses)

-- A contract in the middle of its life: the first provider has been challenged twice, and has yet
-- to answer the second time; the second provider has passed its only challenge.
abbrev north : StorageNode
north = record {
  address = "north";
  allocated_gb = 10;
  registered_period = 2;
  total_challenges = 2;
  passed_challenges = 1;
  pending_rewards = 700;
  last_challenged_period = 5;
  last_rewarded_period = 2;
  active = true;
}

abbrev south : StorageNode
south = record {
  address = "south";
  allocated_gb = 20;
  registered_period = 2;
  total_challenges = 1;
  passed_challenges = 1;
  pending_rewards = 0;
  last_challenged_period = 5;
  last_rewarded_period = 2;
  active = true;
}

abbrev first : Challenge
first = new_challenge "first" "north" "chunk" 7 5 65_000

abbrev at_work : State
at_work = record blank {
  nodes = set String_discrete (set String_discrete empty "north" north) "south" south;
  node_index = some ("north" ∷ "south" ∷ []);
  node_slots = set ℕ_discrete (set ℕ_discrete empty 0 "north") 1 "south";
  total_nodes = some 2;
  challenges = set String_discrete empty "first" first;
  storage_admins = set String_discrete empty "server" "true";
  uploader_bookings = set String_discrete empty "user" 5;
  uploader_index = some ("user" ∷ []);
  admin = some "admin";
}
