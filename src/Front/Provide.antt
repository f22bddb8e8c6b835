-- ===== src/Front/Provide.antt =====
-- Registering the node of a connected wallet: front/src/pages/ProvideStorage.jsx. The wallet's call,
-- the answer of the provider's server and the functions of texts are arguments.
pub mod Calls
pub mod Registered
pub mod Claimed
use Prim.Native.String.{len, slice, ◌++◌ as ◌⊕◌}
use mathlib.Core.List.{map}
use text.Mathlib.Text.{starts_with}
use community_storage.Base.{
  ℕ, ◌-◌, ◌+◌, String, Bool, true, false, not, ◌||◌, Option, none, some, List, [], ◌∷◌, keep, ltb,
  if◌then◌else◌, is_same, Result, ok, abort, ◌>>=◌,
}
use community_storage.Structs.{StorageConfig}
use community_storage.Structs.Args.{ArgsCodec}
use community_storage.State.{State}
use community_storage.Front.Client.{NodeInfo, get_node_info, get_config, attempt}
use community_storage.Front.Client.Rpc.{Chain}
use community_storage.Front.Wallet.{Account}

-- `trim`, and `split(',')`.
pub record Texts : Type 0 where
  pub trim : String → String
  pub split : String → List String

-- `config.storage_limit_gb`: missing or not above zero, a whole number, or a number with a fraction,
-- which `BigInt` refuses.
pub data StorageLimit : Type 0 where
  missing fraction : StorageLimit
  whole : ℕ → StorageLimit

-- `res.ok`, and the fields of the JSON of `/config`.
pub record ConfigResponse : Type 0 where
  pub is_ok : Bool
  pub storage_limit_gb : StorageLimit
  pub p2p_listen_addr : Option String

pub record ServerMetadata : Type 0 where
  pub endpoint : String
  pub allocated_gb : ℕ
  pub p2p_addrs : List String

pub record ProvidePage : Type 0 where
  pub node_info : Option NodeInfo
  pub config : Option StorageConfig
  pub loading : Bool
  pub error : Option String
  pub server_endpoint : String
  pub p2p_addrs : String
  pub metadata : Option ServerMetadata
  pub fetching_metadata : Bool

-- What `callSmartContract` is given; the target is the contract.
pub record WriteCall : Type 0 where
  pub func : String
  pub parameter : List ℕ

-- `replace(/\/$/, '')`
abbrev pub without_slash : String → String
without_slash url =
    if is_same (slice url (len url - 1) (len url)) "/" then slice url 0 (len url - 1) else url

abbrev pub with_scheme : String → String
with_scheme url =
    if starts_with url "http://" || starts_with url "https://" then url else "http://" ⊕ url

-- `[config.p2p_listen_addr].filter(Boolean)`
abbrev pub listen_addrs : Option String → List String
listen_addrs none = []
listen_addrs (some addr) = if is_same addr "" then [] else addr ∷ []

-- `join(', ')` of no text or of one.
abbrev joined : List String → String
joined [] = ""
joined (addr ∷ _) = addr

module _ (t : Texts) where
  abbrev pub is_blank : String → Bool
  is_blank v = is_same (t.trim v) ""

  abbrev pub normalized : String → String
  normalized endpoint = without_slash (with_scheme (t.trim endpoint))

  -- The callback is made once, so what it takes for the field of addresses is the field's first
  -- value, which is empty.
  abbrev prefilled : List String → ProvidePage → ProvidePage
  prefilled [] page = page
  prefilled (addr ∷ addrs) page =
      let first_p2p_addrs : String = "" in
      if is_blank first_p2p_addrs then record page { p2p_addrs = joined (addr ∷ addrs) } else page

  abbrev pub with_limit : String → List String → StorageLimit → ProvidePage → ProvidePage
  with_limit endpoint addrs missing page = record page { metadata = none }
  with_limit endpoint addrs fraction page = record (prefilled addrs page) { metadata = none }
  with_limit endpoint addrs (whole gb) page =
      if ltb 0 gb
      then record (prefilled addrs page) {
        metadata =
            some (record { endpoint = normalized endpoint; allocated_gb = gb; p2p_addrs = addrs });
      }
      else record page { metadata = none }

  abbrev pub with_answer : String → Result String ConfigResponse → ProvidePage → ProvidePage
  with_answer endpoint (abort _) page = record page { metadata = none }
  with_answer endpoint (ok res) page =
      if res.is_ok
      then with_limit endpoint (listen_addrs res.p2p_listen_addr) res.storage_limit_gb page
      else record page { metadata = none }

  -- `fetch` gives the answer at `{normalizedEndpoint}/config`, or an exception.
  unfoldable pub fetch_server_metadata :
      (fetch : String → Result String ConfigResponse) → String → ProvidePage → ProvidePage
  fetch_server_metadata fetch endpoint page =
      if is_blank endpoint
      then record page { metadata = none }
      else record (with_answer endpoint (fetch (normalized endpoint ⊕ "/config")) page) {
        fetching_metadata = false;
      }

  -- The addresses of the server, or else those of the field.
  abbrev pub p2p_array : List String → String → List String
  p2p_array (addr ∷ addrs) field = addr ∷ addrs
  p2p_array [] field =
      if is_blank field then [] else keep (λ a. not (is_same a "")) (map t.trim (t.split field))

abbrev pub fetch_node_info : ArgsCodec → Chain → String → ProvidePage → ProvidePage
fetch_node_info C sc address page = record page {
  node_info = attempt none (get_node_info C sc address);
}

abbrev node_and_config :
    ArgsCodec → Chain → String → Result String (Option NodeInfo × StorageConfig)
node_and_config C sc address = do
  info ← get_node_info C sc address
  cfg ← get_config C sc
  ok (info, cfg)

-- The effect that loads the page of an address, from `Promise.all([getNodeInfo(…), getConfig()])`,
-- where no other address has come in the meantime.
unfoldable pub load_page : ArgsCodec → Chain → Option String → ProvidePage → ProvidePage
load_page C sc none page = record page { node_info = none; loading = false; error = none }
load_page C sc (some address) page = elim (node_and_config C sc address) [
  | ok (info, cfg) ↦ record page {
    node_info = info;
    config = some cfg;
    loading = false;
    error = none;
  }
  | abort e ↦ record page { loading = false; error = some e }
]

abbrev pub register_call : ArgsCodec → ServerMetadata → List String → WriteCall
register_call C m p2p = record {
  func = "registerStorageNode";
  parameter = C.add_strings (C.add_string (C.add_u64 [] m.allocated_gb) m.endpoint) p2p;
}

-- The wallet's call, which gives the contract's next state or throws, and a chain at a state. An
-- address is `none` where it is falsy.
module _ (C : ArgsCodec) (call : WriteCall → State → Result String State)
    (chain : State → Chain) where
  abbrev after_register : String → ProvidePage → State → Result String State → ProvidePage × State
  after_register address page s (abort _) = (page, s)
  after_register address page s (ok u) = (
    record (fetch_node_info C (chain u) address page) {
      server_endpoint = "";
      p2p_addrs = "";
      metadata = none;
    },
    u,
  )

  abbrev register_by :
      Texts
      → Option Account
      → Option String
      → Option ServerMetadata
      → ProvidePage
      → State
      → ProvidePage × State
  register_by t (some acc) (some address) (some m) page s =
      after_register address page s
        (call (register_call C m (p2p_array t m.p2p_addrs page.p2p_addrs)) s)
  register_by t _ _ _ page s = (page, s)

  unfoldable pub handle_register :
      Texts → Option Account → Option String → ProvidePage → State → ProvidePage × State
  handle_register t account address page s = register_by t account address page.metadata page s

  abbrev pending_nano : Option NodeInfo → ℕ
  pending_nano none = 0
  pending_nano (some info) = info.pending_rewards

  abbrev after_claim : String → ProvidePage → State → Result String State → ProvidePage × State
  after_claim address page s (abort _) = (page, s)
  after_claim address page s (ok u) = (fetch_node_info C (chain u) address page, u)

  unfoldable pub handle_claim :
      Option Account → Option String → ProvidePage → State → ProvidePage × State
  handle_claim (some acc) (some address) page s =
      if ltb 0 (pending_nano page.node_info)
      then after_claim address page s (call (record { func = "claimRewards"; parameter = [] }) s)
      else (page, s)
  handle_claim _ _ page s = (page, s)

-- What the page draws.
pub data Screen : Type 0 where
  connect_wallet loading_data registration : Screen
  failed : String → Screen
  dashboard : NodeInfo → Screen

abbrev node_screen : Option NodeInfo → Screen
node_screen none = registration
node_screen (some info) = dashboard info

abbrev loaded_screen : ProvidePage → Screen
loaded_screen page = elim page.error [
  | none ↦ node_screen page.node_info
  | some e ↦ if is_same e "" then node_screen page.node_info else failed e
]

unfoldable pub screen : (connected : Bool) → Option String → ProvidePage → Screen
screen connected none page = connect_wallet
screen connected (some address) page =
    if not connected
    then connect_wallet
    else if page.loading
    then loading_data
    else loaded_screen page
