-- ===== src/Tests/Registering.antt =====
-- The script that registers one provider, for an account that has a node.
use community_storage.Base.{none, some}
use community_storage.State.{State}
use community_storage.Scripts.Provider.{Environment}

abbrev dotenv : Environment
dotenv = record {
  registry_address = some "AS14";
  provider_endpoint = some "http://node/";
  provider_p2p_addrs = none;
}
