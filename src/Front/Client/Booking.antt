-- ===== src/Front/Client/Booking.antt =====
-- The paid call of front/src/contract/storageRegistryApi.js, and what the contract makes of it.
use native.Mathlib.Decide.{dec_lt}
use community_storage.Base.{
  ap, ◌≤◌, ℕ, ◌*◌, ◌<◌, ◌≡◌, String, Bool, true, List, [], arith, IsU64, ltb, leb, mul64, Result,
  ok, assert, ◌>>◌, some,
}
use community_storage.Structs.Args.{ArgsCodec}
use community_storage.State.{State, Context, Outcome, Error, insufficient_capacity}
use community_storage.Registry.{
  assert_not_paused, get_uploader_price_per_gb, get_total_allocated_gb_across_providers,
  get_total_booked_gb_across_uploaders,
}
use community_storage.Registry.Uploaders.{
  register_as_uploader, new_total_booked, available_gb, booked,
}
use community_storage.Registry.Views.Bytes.{argument}
use community_storage.Front.Client
use community_storage.Front.Client.Rpc.{Chain, served}
use community_storage.Front.Client.Decode.{argument-u64}
use community_storage.Front.Client.Served.{uploader_price-served}

-- What `account.callSC` is given; the target is the contract.
pub record ContractCall : Type 0 where
  pub func : String
  pub parameter : List ℕ
  pub coins : ℕ

-- `can_call`: the account has a function `callSC`.
unfoldable pub register_as_uploader_with_transfer :
    ArgsCodec → Chain → (can_call : Bool) → (amount_gb : ℕ) → Result String ContractCall
register_as_uploader_with_transfer C sc can_call amount_gb = do
  let price_per_gb = Client.get_uploader_price_per_gb C sc
  let required_nano = amount_gb * price_per_gb
  assert (ltb 0 required_nano) "Prix uploader inconnu"
  assert can_call "Ce wallet ne supporte pas l'appel au contrat avec paiement."
  ok (record {
    func = "registerAsUploader";
    parameter = C.add_u64 [] amount_gb;
    coins = required_nano;
  })

-- What is left of `registerAsUploader` once its argument and its payment are in order.
unfoldable pub paid_booking : Context → ℕ → State → Outcome
paid_booking ctx amount_gb s =
    let total_allocated_gb = get_total_allocated_gb_across_providers s in
    let total_booked_gb = get_total_booked_gb_across_uploaders s in
    assert_not_paused s
    >> (assert (leb (new_total_booked s ctx.caller amount_gb) total_allocated_gb) (
          insufficient_capacity amount_gb (available_gb total_allocated_gb total_booked_gb)
            total_allocated_gb total_booked_gb)
        >> ok (booked ctx amount_gb s))

-- A booking with an amount and enough coins.
register_paid :
    (ctx : Context) (amount_gb : ℕ) (s : State)
    → 0 < amount_gb
    → IsU64 (amount_gb * get_uploader_price_per_gb s)
    → amount_gb * get_uploader_price_per_gb s ≤ ctx.transferred_coins
    → register_as_uploader ctx (some amount_gb) s ≡ paid_booking ctx amount_gb s
unfolding register_as_uploader paid_booking mul64
register_paid ctx amount_gb s pos fits paid = ground arith

module _ (C : ArgsCodec) (text : Error → String) (s : State) (amount_gb : ℕ)
    (price_fits : IsU64 (get_uploader_price_per_gb s)) where
  sent_amount :
      {call : ContractCall}
      → register_as_uploader_with_transfer C (served C text s) true amount_gb ≡ ok call
      → (call.coins ≡ amount_gb * get_uploader_price_per_gb s)
        × (call.parameter ≡ C.add_u64 [] amount_gb)
        × (0 < amount_gb * get_uploader_price_per_gb s)
  unfolding register_as_uploader_with_transfer
  sent_amount h = ground (arith, uploader_price-served C text s price_fits)

  positive_amount : 0 < amount_gb * get_uploader_price_per_gb s → 0 < amount_gb
  positive_amount h = elim (dec_lt 0 amount_gb) [
    | yes p ↦ p
    | no p ↦ let z : amount_gb ≡ 0 = omega arith in absurd (zero_product z)
  ]
    where
      zero_product : amount_gb ≡ 0 → ⊥
      zero_product z = ground (arith, ap (λ (t : ℕ). t * get_uploader_price_per_gb s) z)

  -- Nothing is sent for nothing.
  pub sent_positive :
      {call : ContractCall}
      → register_as_uploader_with_transfer C (served C text s) true amount_gb ≡ ok call
      → 0 < amount_gb
  sent_positive h = positive_amount (sent_amount h).2

-- A booking that the client sends, at the price that it has read from the contract, is not refused
-- for its argument or its payment, whoever sends it with those coins: what remains are the pause and
-- the capacity. The amount, the price and their product fit 64 bits.
pub transfer-accepted :
    (C : ArgsCodec) (text : Error → String) (s : State) (ctx : Context) (amount_gb : ℕ)
    {call : ContractCall}
    → IsU64 amount_gb
    → IsU64 (get_uploader_price_per_gb s)
    → IsU64 (amount_gb * get_uploader_price_per_gb s)
    → register_as_uploader_with_transfer C (served C text s) true amount_gb ≡ ok call
    → ctx.transferred_coins ≡ call.coins
    → register_as_uploader ctx (argument (C.next_u64 call.parameter 0)) s
      ≡ paid_booking ctx amount_gb s
transfer-accepted C text s ctx amount_gb small price_fits fits h paid =
    let (coins, parameter, positive) = sent_amount C text s amount_gb price_fits h in
    let pos = positive_amount C text s amount_gb price_fits positive in
    rw (parameter, argument-u64 C amount_gb small)
      (register_paid ctx amount_gb s pos fits (omega arith))
