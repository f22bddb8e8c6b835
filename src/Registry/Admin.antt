-- ===== src/Registry/Admin.antt =====
-- Deployment, the admin functions and the funding of the contract in
-- smartContract/assembly/contracts/storage-registry.ts.
use community_storage.Base.{
  ℕ, String, Bool, Option, some, set, del, ltb, if◌then◌else◌, String_discrete, ok, assert, expect,
  get_or, ◌>>=◌, ◌>>◌,
}
use community_storage.Structs.{StorageConfig, new_config}
use community_storage.State.{
  State, Context, Outcome, argument_missing, already_deployed, price_is_zero, no_coins_transferred,
  storage_registry_deployed, config_updated, challenger_added, challenger_removed,
  storage_admin_added, storage_admin_removed, uploader_price_per_gb_set, contract_paused,
  admin_transferred, contract_funded,
}
use community_storage.Registry.{
  default_uploader_price_per_gb, generate_event, set_config, set_total_nodes,
  set_uploader_price_per_gb, assert_admin,
}

-- `constructor`
unfoldable pub deploy : Context → Option String → Option StorageConfig → State → Outcome
deploy ctx admin? provided_config? s = do
  assert ctx.is_deploying_contract already_deployed
  admin ← expect admin? (argument_missing "admin")
  let s1 = record s { admin = some admin }
  let s2 = set_config (get_or new_config provided_config?) s1
  let s3 = set_uploader_price_per_gb default_uploader_price_per_gb (set_total_nodes 0 s2)
  ok (generate_event (storage_registry_deployed admin) s3)

unfoldable pub update_config : Context → Option StorageConfig → State → Outcome
update_config ctx new_config? s = do
  assert_admin ctx s
  config ← expect new_config? (argument_missing "config")
  ok (generate_event config_updated (set_config config s))

unfoldable pub add_challenger : Context → Option String → State → Outcome
add_challenger ctx address? s = do
  assert_admin ctx s
  address ← expect address? (argument_missing "address")
  let s1 = record s { challengers = set String_discrete s.challengers address "true" }
  ok (generate_event (challenger_added address) s1)

unfoldable pub remove_challenger : Context → Option String → State → Outcome
remove_challenger ctx address? s = do
  assert_admin ctx s
  address ← expect address? (argument_missing "address")
  let s1 = record s { challengers = del String_discrete s.challengers address }
  ok (generate_event (challenger_removed address) s1)

unfoldable pub add_storage_admin : Context → Option String → State → Outcome
add_storage_admin ctx address? s = do
  assert_admin ctx s
  address ← expect address? (argument_missing "address")
  let s1 = record s { storage_admins = set String_discrete s.storage_admins address "true" }
  ok (generate_event (storage_admin_added address) s1)

unfoldable pub remove_storage_admin : Context → Option String → State → Outcome
remove_storage_admin ctx address? s = do
  assert_admin ctx s
  address ← expect address? (argument_missing "address")
  let s1 = record s { storage_admins = del String_discrete s.storage_admins address }
  ok (generate_event (storage_admin_removed address) s1)

unfoldable pub set_uploader_price_per_gb_admin : Context → Option ℕ → State → Outcome
set_uploader_price_per_gb_admin ctx price_per_gb? s = do
  assert_admin ctx s
  price_per_gb ← expect price_per_gb? (argument_missing "pricePerGb")
  assert (ltb 0 price_per_gb) price_is_zero
  ok (
      generate_event (uploader_price_per_gb_set price_per_gb)
        (set_uploader_price_per_gb price_per_gb s))

unfoldable pub set_paused : Context → Option Bool → State → Outcome
set_paused ctx paused? s = do
  assert_admin ctx s
  paused ← expect paused? (argument_missing "paused")
  let s1 = record s { paused = some (if paused then "true" else "false") }
  ok (generate_event (contract_paused paused) s1)

unfoldable pub transfer_admin : Context → Option String → State → Outcome
transfer_admin ctx new_admin? s = do
  assert_admin ctx s
  new_admin ← expect new_admin? (argument_missing "newAdmin")
  ok (generate_event (admin_transferred new_admin) (record s { admin = some new_admin }))

unfoldable pub fund_contract : Context → State → Outcome
fund_contract ctx s = do
  assert (ltb 0 ctx.transferred_coins) no_coins_transferred
  ok (generate_event (contract_funded ctx.caller ctx.transferred_coins) s)
