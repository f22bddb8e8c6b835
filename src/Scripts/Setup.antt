-- ===== src/Scripts/Setup.antt =====
-- Setting up a list of providers: smartContract/src/full-setup.ts. A call that the contract aborts is
-- an exception of `contract.call`, and changes nothing.
pub mod Contract
pub mod One
pub mod Registered
use community_storage.Base.{
  ℕ, zero, suc, ◌+◌, String, Bool, true, false, not, ◌&&◌, Option, none, some, List, [], ◌∷◌,
  length, ltb, leb, if◌then◌else◌, is_some, is_same, Result, ok, abort, ◌>>=◌,
}
use community_storage.Structs.Args.{ArgsCodec}
use community_storage.State.{State, Context, Outcome, Error}
use community_storage.Registry.Nodes.{
  register_storage_node, update_storage_allocation, update_provider_metadata,
}
use community_storage.Front.Client.{attempt}
use community_storage.Front.Client.Rpc.{View, Chain, served}

pub record Provider : Type 0 where
  pub index : ℕ
  pub address : String
  pub private_key : String

-- `PROVIDER_{i}_ADDRESS` and `PROVIDER_{i}_PRIVATE_KEY`; an empty value counts as none.
abbrev pub Environment : Type 0
Environment = ℕ → Option String × Option String

abbrev pub given : Option String → Bool
given none = false
given (some v) = not (is_same v "")

abbrev with_provider : Option Provider → List Provider → List Provider
with_provider none rest = rest
with_provider (some p) rest = p ∷ rest

-- One round: `generate` makes a key pair, which is appended to the environment.
abbrev pub provider_at : Bool → (ℕ → Provider) → ℕ → Option String × Option String → Option Provider
provider_at missing generate i (some addr, some key) =
    if given (some addr) && given (some key)
    then some (record { index = i; address = addr; private_key = key })
    else if missing
    then some (generate i)
    else none
provider_at missing generate i _ = if missing then some (generate i) else none

-- The loop from provider `i`, `left` of which remain.
unfoldable pub load_from :
    Environment → (ℕ → Provider) → (generate_missing : Bool) → (left i : ℕ) → List Provider
load_from env generate missing zero i = []
load_from env generate missing (suc left) i =
    with_provider (provider_at missing generate i (env i))
      (load_from env generate missing left (i + 1))

unfoldable pub load_providers :
    Environment → (ℕ → Provider) → (num_providers : ℕ) → (generate_missing : Bool) → List Provider
unfolding load_from
load_providers env generate num_providers missing = load_from env generate missing num_providers 1

unfoldable pub is_registered : ArgsCodec → Chain → String → Bool
is_registered C sc address = attempt false do
  res ← sc View.node_info (C.add_string [] address)
  ok (not (is_some res.error) && ltb 0 (length res.value))

-- Who calls, and what the chain gives to the calls: one context for each account.
pub record Settings : Type 0 where
  pub storage_gb : ℕ
  pub context_of : Provider → Context
  pub endpoint_of : Provider → String

abbrev pub settle : State → Outcome → State
settle s (ok u) = u
settle s (abort _) = s

module _ (C : ArgsCodec) (text : Error → String) (set : Settings) where
  unfoldable pub register_or_update : Provider → State → Outcome
  register_or_update p s =
      let ctx = set.context_of p in
      if is_registered C (served C text s) p.address
      then update_storage_allocation ctx (some set.storage_gb) s
      else register_storage_node ctx (some set.storage_gb) (some (set.endpoint_of p)) (some []) s

  -- The metadata, after the first call; where that was aborted, nothing.
  abbrev pub then_metadata : Provider → State → Outcome → State
  then_metadata p s (abort _) = s
  then_metadata p s (ok u) =
      settle u (update_provider_metadata (set.context_of p) (some (set.endpoint_of p)) (some []) u)

  unfoldable pub set_up : Provider → State → State
  unfolding register_or_update
  set_up p s = then_metadata p s (register_or_update p s)

  unfoldable pub set_up_all : List Provider → State → State
  unfolding set_up
  set_up_all [] s = s
  set_up_all (p ∷ providers) s = set_up_all providers (set_up p s)

  -- The providers are loaded, and then set up; the funding of their accounts between the two is left
  -- out.
  unfoldable pub run_setup : Environment → (ℕ → Provider) → (num_providers : ℕ) → State → State
  unfolding load_providers set_up_all
  run_setup env generate num_providers s =
      set_up_all (load_providers env generate num_providers true) s
