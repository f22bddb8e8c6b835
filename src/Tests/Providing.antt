-- ===== src/Tests/Providing.antt =====
-- A registration from the page of providers, on a contract with one provider.
use community_storage.Base.{
  ◌≡◌, refl, String, true, false, none, some, [], ◌∷◌, Result, ok, abort, String_discrete,
  if◌then◌else◌, is_same,
}
use community_storage.Front.Wallet.{Account}
use community_storage.Front.Provide.{Texts, ConfigResponse, whole, ProvidePage, normalized}

abbrev pub texts : Texts
texts = record { trim = λ v. v; split = λ v. v ∷ [] }

bare : normalized texts "192.168.1.7:4343/" ≡ "http://192.168.1.7:4343"
unfolding String_discrete
bare = refl

secure : normalized texts "https://storage.net" ≡ "https://storage.net"
unfolding String_discrete
secure = refl

abbrev pub response : ConfigResponse
response = record { is_ok = true; storage_limit_gb = whole 50; p2p_listen_addr = some "/ip4/7" }

abbrev pub server : String → Result String ConfigResponse
server url = if is_same url "http://node/config" then ok response else abort "unreachable"

abbrev pub page : ProvidePage
page = record {
  node_info = none;
  config = none;
  loading = false;
  error = none;
  server_endpoint = "node/";
  p2p_addrs = "";
  metadata = none;
  fetching_metadata = false;
}

abbrev pub account : Account
account = record { address = "west" }
