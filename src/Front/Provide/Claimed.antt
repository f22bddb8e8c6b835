-- ===== src/Front/Provide/Claimed.antt =====
-- Claiming rewards from the page.
use mathlib.Core.Option
use community_storage.Base.{
  ◌≡◌, refl, sym, ap, ◌∙◌, subst, String, true, false, ◌&&◌, some, ltb, leb, if◌then◌else◌,
  Bool-cases, inl, inr, ok, abort, arith, String_discrete,
}
use community_storage.Structs.{StorageNode}
use community_storage.Structs.Args.{ArgsCodec}
use community_storage.Structs.RoundTrip.Node.{IsStorageNodeU64}
use community_storage.State.{State, Context, Error, insufficient_contract_balance}
use community_storage.Registry.{assert_not_paused, is_paused, get_node, set_node, generate_event}
use community_storage.Registry.Rewards.{claim_rewards, claimed, transfer_coins}
use community_storage.Front.Client.{get_node_info}
use community_storage.Front.Client.Rpc.{served}
use community_storage.Front.Client.Decode.{shown}
use community_storage.Front.Client.Served.{node_info-served}
use community_storage.Front.Wallet.{Account}
use community_storage.Front.Provide.{ProvidePage, handle_claim, after_claim}
use community_storage.Front.Provide.Calls.{executed, thrown}

-- The node after a claim.
abbrev paid_out : StorageNode → StorageNode
paid_out n = record n { pending_rewards = 0 }

paid_out-U64 : (n : StorageNode) → IsStorageNodeU64 n → IsStorageNodeU64 (paid_out n)
paid_out-U64 n f = record {
  allocated_gb_fits = f.allocated_gb_fits;
  registered_period_fits = f.registered_period_fits;
  total_challenges_fits = f.total_challenges_fits;
  passed_challenges_fits = f.passed_challenges_fits;
  pending_rewards_fits = ground arith;
  last_challenged_period_fits = f.last_challenged_period_fits;
  last_rewarded_period_fits = f.last_rewarded_period_fits;
}

claimed-node :
    (ctx : Context) (n : StorageNode) (s : State)
    → n.address ≡ ctx.caller
    → (claimed ctx n s).nodes ctx.caller ≡ some (paid_out n)
unfolding claimed set_node transfer_coins generate_event
claimed-node ctx n s e = ground arith

module _ (ctx : Context) (n : StorageNode) (s : State) (there : s.nodes ctx.caller ≡ some n)
    (running : is_paused s ≡ false) where
  claim_rewards-paid :
      ltb 0 n.pending_rewards ≡ true
      → leb n.pending_rewards ctx.balance ≡ true
      → claim_rewards ctx s ≡ ok (claimed ctx n s)
  unfolding claim_rewards assert_not_paused get_node
  claim_rewards-paid h k = rw (there, running, h, k) refl

  claim_rewards-poor :
      ltb 0 n.pending_rewards ≡ true
      → leb n.pending_rewards ctx.balance ≡ false
      → claim_rewards ctx s ≡ abort insufficient_contract_balance
  unfolding claim_rewards assert_not_paused get_node
  claim_rewards-poor h k = rw (there, running, h, k) refl

module _ (C : ArgsCodec) (text : Error → String) (ctx : Context) (acc : Account) (n : StorageNode)
    (s : State) (mine : n.address ≡ ctx.caller) (fits : IsStorageNodeU64 n) where
  node_read :
      get_node_info C (served C text (claimed ctx n s)) ctx.caller ≡ ok (some (shown (paid_out n)))
  node_read =
      let stored = claimed-node ctx n s mine in
      node_info-served C text (claimed ctx n s) ctx.caller (λ m there.
        subst IsStorageNodeU64 (Option.some_inj.0 (sym stored ∙ there)) (paid_out-U64 n fits))
      ∙ ap (λ m. ok (Option.map shown m)) stored

  -- The outcome of the page's button where its rewards can be paid.
  abbrev pub claim_outcome : ProvidePage → ProvidePage × State
  claim_outcome page = (record page { node_info = some (shown (paid_out n)) }, claimed ctx n s)

  accepted-claim :
      (page : ProvidePage)
      → claim_rewards ctx s ≡ ok (claimed ctx n s)
      → after_claim C
          (executed C text ctx)
          (served C text)
          ctx.caller
          page
          s
          (thrown text (claim_rewards ctx s))
        ≡ claim_outcome page
  accepted-claim page e = rw (e, node_read) refl

  -- The button calls the contract where the page shows rewards.
  handle_claim-eq :
      (page : ProvidePage)
      → page.node_info ≡ some (shown n)
      → handle_claim C (executed C text ctx) (served C text) (some acc) (some ctx.caller) page s ≡ (
          if ltb 0 n.pending_rewards
          then after_claim C
              (executed C text ctx)
              (served C text)
              ctx.caller
              page
              s
              (thrown text (claim_rewards ctx s))
          else (page, s))
  unfolding handle_claim executed String_discrete
  handle_claim-eq page e = rw e refl

  -- On a running contract, from a page that shows the caller's node as it is stored: where it has
  -- rewards and the contract's balance covers them, the contract has paid them, and the page shows the
  -- node with none left; where it has none, or the balance is too low, neither the page nor the
  -- contract changes. The numbers of the node fit 64 bits.
  pub handle_claim-pays :
      (page : ProvidePage)
      → page.node_info ≡ some (shown n)
      → s.nodes ctx.caller ≡ some n
      → is_paused s ≡ false
      → handle_claim C (executed C text ctx) (served C text) (some acc) (some ctx.caller) page s ≡ (
          if ltb 0 n.pending_rewards && leb n.pending_rewards ctx.balance
          then (
            record page { node_info = some (shown (record n { pending_rewards = 0 })) },
            claimed ctx n s,
          )
          else (page, s))
  handle_claim-pays page e there running =
      handle_claim-eq page e ∙ elim (Bool-cases (ltb 0 n.pending_rewards)) [
        | inr h ↦ rw h refl
        | inl h ↦ elim (Bool-cases (leb n.pending_rewards ctx.balance)) [
          | inl k ↦ rw (h, k) (accepted-claim page (claim_rewards-paid ctx n s there running h k))
          | inr k ↦ rw (h, k, claim_rewards-poor ctx n s there running h k) refl
        ]
      ]
