-- ===== src/Front/Provide/Calls.antt =====
-- The calls of a provider as the contract takes them: the arguments of `registerStorageNode`,
-- `updateStorageAllocation` and `claimRewards` in smartContract/assembly/contracts/storage-registry.ts.
use community_storage.Base.{
  ℕ, ◌≡◌, refl, String, Option, none, some, List, [], ◌++◌, ◌+◌, length, IsU64, if◌then◌else◌,
  is_same, Result, ok, abort,
}
use community_storage.Structs.Args.{
  ArgsCodec, Before, Before-start, Before-next, next_string-Before, next_u64-Before,
  next_strings-Before,
}
use mathlib.Core.List.{append_assoc, append-nil}
use community_storage.State.{State, Context, Outcome, Error}
use community_storage.Registry.Nodes.{register_storage_node, update_storage_allocation}
use community_storage.Registry.Rewards.{claim_rewards}
use community_storage.Registry.Views.Bytes.{argument}
use community_storage.Front.Provide.{WriteCall, ServerMetadata, register_call}

-- The next argument, after one that was read.
abbrev pub then_next : {A B : Type 0} → Option (A × ℕ) → (ℕ → Option (B × ℕ)) → Option (B × ℕ)
then_next none next = none
then_next (some (_, i)) next = next i

unfoldable pub enter_register : ArgsCodec → Context → List ℕ → State → Outcome
enter_register C ctx args s =
    let allocated_gb? = C.next_u64 args 0 in
    let endpoint? = then_next allocated_gb? (C.next_string args) in
    let p2p_addrs? = then_next endpoint? (C.next_strings args) in
    register_storage_node ctx (argument allocated_gb?) (argument endpoint?) (argument p2p_addrs?) s

unfoldable pub enter_update : ArgsCodec → Context → List ℕ → State → Outcome
enter_update C ctx args s = update_storage_allocation ctx (argument (C.next_u64 args 0)) s

abbrev pub thrown : (Error → String) → Outcome → Result String State
thrown text (ok u) = ok u
thrown text (abort e) = abort (text e)

-- A call that is included in a block and executed, by the caller of `ctx`.
unfoldable pub executed :
    ArgsCodec → (Error → String) → Context → WriteCall → State → Result String State
executed C text ctx call s =
    if is_same call.func "registerStorageNode"
    then thrown text (enter_register C ctx call.parameter s)
    else if is_same call.func "updateStorageAllocation"
    then thrown text (enter_update C ctx call.parameter s)
    else if is_same call.func "claimRewards"
    then thrown text (claim_rewards ctx s)
    else abort "function not found"

module _ (C : ArgsCodec) (gb : ℕ) (endpoint : String) (p2p : List String) (fits : IsU64 gb) where
  unfoldable whole : List ℕ
  whole = C.enc_u64 gb ++ (C.enc_string endpoint ++ (C.enc_strings p2p ++ []))

  at_endpoint :
      Before whole (0 + length (C.enc_u64 gb)) (C.enc_string endpoint ++ (C.enc_strings p2p ++ []))
  unfolding whole
  at_endpoint = Before-next (C.enc_u64 gb) _ (Before-start [] whole)

  at_addrs :
      Before whole
        (0 + length (C.enc_u64 gb) + length (C.enc_string endpoint))
        (C.enc_strings p2p ++ [])
  at_addrs = Before-next (C.enc_string endpoint) _ at_endpoint

  whole_parameter :
      (m : ServerMetadata)
      → m.allocated_gb ≡ gb
      → m.endpoint ≡ endpoint
      → (register_call C m p2p).parameter ≡ whole
  unfolding whole
  whole_parameter m e f =
      rw (e, f)
        (simp (C.add_u64_lem, C.add_string_lem, C.add_strings_lem, append_assoc, append-nil))

  enter_whole :
      (ctx : Context) (s : State)
      → enter_register C ctx whole s
        ≡ register_storage_node ctx (some gb) (some endpoint) (some p2p) s
  unfolding enter_register whole
  enter_whole ctx s =
      rw
        (
          next_u64-Before C (C.enc_string endpoint ++ (C.enc_strings p2p ++ [])) gb fits
              (Before-start [] _),
          next_string-Before C (C.enc_strings p2p ++ []) endpoint at_endpoint,
          next_strings-Before C [] p2p at_addrs,
          argument,
        )
        refl

-- The contract reads what the page has written, where the number of gigabytes fits 64 bits.
pub enter-register_call :
    (C : ArgsCodec) (ctx : Context) (m : ServerMetadata) (p2p : List String) (s : State)
    → IsU64 m.allocated_gb
    → enter_register C ctx (register_call C m p2p).parameter s
      ≡ register_storage_node ctx (some m.allocated_gb) (some m.endpoint) (some p2p) s
enter-register_call C ctx m p2p s fits =
    rw (whole_parameter C m.allocated_gb m.endpoint p2p fits m refl refl)
      (enter_whole C m.allocated_gb m.endpoint p2p fits ctx s)
