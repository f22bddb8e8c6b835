-- ===== src/Scripts/Provider.antt =====
-- Registering one provider by the script smartContract/src/register-provider.ts. The environment, the
-- answer of the provider's server and the functions of texts are arguments.
pub mod Settled
use Prim.Native.String.{◌++◌ as ◌⊕◌}
use mathlib.Core.List.{map}
use community_storage.Base.{
  ℕ, String, Bool, not, ◌&&◌, ◌||◌, Option, none, some, List, [], keep, length, ltb, get_or,
  is_some, is_same, if◌then◌else◌, Result, ok, abort, assert, ◌>>=◌, ◌>>◌,
}
use community_storage.Structs.Args.{ArgsCodec}
use community_storage.Front.Client.Rpc.{View, Answer, Chain}
use community_storage.Front.Provide.{
  Texts, StorageLimit, missing, fraction, whole, ConfigResponse, WriteCall, without_slash,
  register_call,
}

-- `STORAGE_REGISTRY_ADDRESS`, `PROVIDER_ENDPOINT` and `PROVIDER_P2P_ADDRS`.
pub record Environment : Type 0 where
  pub registry_address : Option String
  pub provider_endpoint : Option String
  pub provider_p2p_addrs : Option String

abbrev limit_of : StorageLimit → Result String ℕ
limit_of missing = abort "Provider reported storage_limit_gb <= 0"
limit_of fraction = abort "not an integer"
limit_of (whole gb) = if ltb 0 gb then ok gb else abort "Provider reported storage_limit_gb <= 0"

module _ (t : Texts) where
  abbrev pub p2p_addrs_of : Environment → List String
  p2p_addrs_of env =
      keep (λ a. not (is_same a "")) (map t.trim (t.split (get_or "" env.provider_p2p_addrs)))

  -- What the script reads before it looks at the contract: the endpoint, and the gigabytes that the
  -- running server reports. An `abort` ends the script.
  unfoldable pub read_provider :
      (fetch : String → Result String ConfigResponse) → Environment → Result String (String × ℕ)
  read_provider fetch env = do
    assert (not (is_same (t.trim (get_or "" env.registry_address)) ""))
        "STORAGE_REGISTRY_ADDRESS is required. Set it in .env or the environment."
    let endpoint = get_or "" env.provider_endpoint
    assert (not (is_same endpoint "")) "PROVIDER_ENDPOINT is required (e.g. http://127.0.0.1:4343)"
    res ← fetch (without_slash endpoint ⊕ "/config")
    assert res.is_ok "Failed to fetch provider config:"
    gb ← limit_of res.storage_limit_gb
    ok (endpoint, gb)

abbrev node_exists : Answer → Bool
node_exists info = not (is_some info.error) && ltb 0 (length info.value)

-- An update of the allocation for a node that is stored, or a registration.
unfoldable pub provider_call :
    ArgsCodec
    → Chain
    → (address endpoint : String) → (gb : ℕ) → List String
    → Result String WriteCall
provider_call C sc address endpoint gb p2p_addrs = do
  info ← sc View.node_info (C.add_string [] address)
  ok (
      if node_exists info
      then record { func = "updateStorageAllocation"; parameter = C.add_u64 [] gb }
      else register_call C (record { endpoint = endpoint; allocated_gb = gb; p2p_addrs = [] })
          p2p_addrs)

-- The call that the script sends, for the account of this address.
unfoldable pub register_provider :
    Texts
    → ArgsCodec
    → Chain
    → (fetch : String → Result String ConfigResponse) → Environment
    → (address : String) → Result String WriteCall
unfolding read_provider provider_call
register_provider t C sc fetch env address = do
  (endpoint, gb) ← read_provider t fetch env
  provider_call C sc address endpoint gb (p2p_addrs_of t env)
