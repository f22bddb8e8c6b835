-- ===== src/Front/Store/Capacity.antt =====
-- The page's check of the capacity against that of `registerAsUploader`.
use community_storage.Base.{
  ok, Result, ℕ, ◌*◌, List, refl, ap, sym, ◌∙◌, ◌∷◌, [], abort, inr, ◌+◌, ◌-◌, ◌≤◌, ◌<◌, ◌≡◌,
  String, true, false, arith, IsU64, u64_mod, includes, leb, ltb, not, add64, sub64, Bool-cases,
  inl,
}
use community_storage.State.{Context, Error, State}
use community_storage.Registry.{
  get_uploader_price_per_gb, is_paused, assert_not_paused, get_booked_uploader_gb,
  get_uploader_index, get_total_allocated_gb_across_providers, get_total_booked_gb_across_uploaders,
}
use community_storage.Registry.Uploaders.{
  register_as_uploader, booked, new_total_booked, available_gb,
}
use community_storage.Registry.Calls.{Reach}
use community_storage.Registry.Calls.Indexes.{Reach-IsListed}
use community_storage.Registry.Calls.Indexes.Sums.{Reach-booked, Reach-capacity}
use community_storage.Registry.Views.Bytes.{argument}
use community_storage.Front.Client.Served.{global_storage_usage-served}
use community_storage.Registry.Views.{get_global_storage_usage_view}
use community_storage.Structs.Args.{ArgsCodec}
use community_storage.Front.Client
use community_storage.Front.Client.Rpc.{Chain, served}
use community_storage.Front.Client.Booking.{
  transfer-accepted, sent_positive, paid_booking, ContractCall, register_as_uploader_with_transfer,
}
use community_storage.Front.Store.{
  File, booking_for, sent_call, World, Page, book, UploaderBooking, effective_available,
}

-- A caller with a booking stands in the index.
booked-listed :
    {s : State} (a : String)
    → Reach s
    → 0 < get_booked_uploader_gb s a
    → includes (get_uploader_index s) a ≡ true
unfolding get_booked_uploader_gb
booked-listed {s} a r pos = let listed = (Reach-IsListed r).uploaders_listed a in ground arith

module _ (s : State) (a : String) (need : ℕ)
    (part : get_booked_uploader_gb s a ≤ get_total_booked_gb_across_uploaders s)
    (room : get_total_booked_gb_across_uploaders s + need < u64_mod) where
  new_total_booked-eq :
      (0 < get_booked_uploader_gb s a → includes (get_uploader_index s) a ≡ true)
      → new_total_booked s a need
        ≡ get_total_booked_gb_across_uploaders s - get_booked_uploader_gb s a + need
  unfolding new_total_booked add64 sub64
  new_total_booked-eq listed = elim (Bool-cases (includes (get_uploader_index s) a)) [
    | inl yes_ ↦ rw yes_ (omega arith)
    | inr no_ ↦ rw no_ (ground (arith, listed))
  ]

  -- The page lets a larger booking through exactly when the contract has room for it.
  capacity_check-eq :
      (booking : UploaderBooking)
      → Reach s
      → booking.booked_gb ≡ get_booked_uploader_gb s a
      → get_booked_uploader_gb s a < need
      → ltb (effective_available (get_global_storage_usage_view s) booking) need
        ≡ not (leb (new_total_booked s a need) (get_total_allocated_gb_across_providers s))
  unfolding get_global_storage_usage_view available_gb
  capacity_check-eq booking r e more =
      rw (new_total_booked-eq (booked-listed a r)) (ground (arith, part, room))

total_booked-IsU64 : {s : State} → Reach s → IsU64 (get_total_booked_gb_across_uploaders s)
total_booked-IsU64 {s} r = let e = (Reach-booked r).2 in omega arith

total_allocated-IsU64 : {s : State} → Reach s → IsU64 (get_total_allocated_gb_across_providers s)
total_allocated-IsU64 {s} r = let e = (Reach-capacity r).2 in omega arith

module _ (w : World) where
  sent_call-inr :
      (r : Result String ContractCall) {call : ContractCall}
      → sent_call w r ≡ inr (call ∷ [])
      → r ≡ ok call
  sent_call-inr (abort m) h = cc
  sent_call-inr (ok c) h = ground arith

-- Each call that the page sends for a booking is one call, and the amount is what the page needs.
book-sent :
    (w : World) (C : ArgsCodec) (sc : Chain) (page : Page) {call : ContractCall}
    → book w C sc page ≡ inr (call ∷ [])
    → (ltb
          (effective_available (Client.get_global_storage_usage C sc) page.booking)
          page.booking.need_to_book
        ≡ false)
      × (register_as_uploader_with_transfer C sc true page.booking.need_to_book ≡ ok call)
unfolding book
book-sent w C sc page h = ground (
  arith,
  sent_call-inr w (register_as_uploader_with_transfer C sc page.can_call page.booking.need_to_book),
)

-- A cost that is not zero is the cost of a larger booking.
fresh_booking :
    (files : List File) (booked_gb price : ℕ) (b : UploaderBooking)
    → b ≡ booking_for files booked_gb price
    → 0 < b.need_to_book
    → (b.booked_gb ≡ booked_gb)
      × (booked_gb < b.need_to_book)
      × (b.booking_nano ≡ b.need_to_book * price)
unfolding booking_for
fresh_booking files booked_gb price b e pos = ground arith

paid_booking-ok :
    (ctx : Context) (amount_gb : ℕ) (s : State)
    → is_paused s ≡ false
    → leb (new_total_booked s ctx.caller amount_gb) (get_total_allocated_gb_across_providers s)
      ≡ true
    → paid_booking ctx amount_gb s ≡ ok (booked ctx amount_gb s)
unfolding paid_booking assert_not_paused
paid_booking-ok ctx amount_gb s running there = rw (running, there) refl

-- A booking that the page sends is made: on a chain at a reachable state that is not paused, with the
-- cost that the page computed from the booking and the price of that state, the contract takes the
-- call with its coins from the wallet's address and gives it exactly what the page asked for. The
-- amounts fit 64 bits, and no more than the total is booked by this wallet.
pub book-accepted :
    (w : World) (C : ArgsCodec) (text : Error → String) {s : State} (page : Page) (ctx : Context)
    {call : ContractCall}
    → Reach s
    → is_paused s ≡ false
    → page.booking
      ≡ booking_for page.files (get_booked_uploader_gb s ctx.caller) (get_uploader_price_per_gb s)
    → get_booked_uploader_gb s ctx.caller ≤ get_total_booked_gb_across_uploaders s
    → get_total_booked_gb_across_uploaders s + page.booking.need_to_book < u64_mod
    → IsU64 (get_uploader_price_per_gb s)
    → IsU64 page.booking.booking_nano
    → ctx.transferred_coins ≡ call.coins
    → book w C (served C text s) page ≡ inr (call ∷ [])
    → register_as_uploader ctx (argument (C.next_u64 call.parameter 0)) s
      ≡ ok (booked ctx page.booking.need_to_book s)
book-accepted w C text {s} page ctx {call} r running fresh part room price_fits fits paid h =
    let need = page.booking.need_to_book in
    let price = get_uploader_price_per_gb s in
    let (enough, sent) = book-sent w C (served C text s) page h in
    let positive = sent_positive C text s need price_fits sent in
    let (same, more, cost) =
      fresh_booking page.files (get_booked_uploader_gb s ctx.caller) price page.booking fresh
        positive in
    let usage =
      global_storage_usage-served C text s (total_allocated-IsU64 r) (total_booked-IsU64 r) in
    let enough_there =
      ap (λ u. ltb (effective_available u page.booking) need) (sym usage) ∙ enough in
    let check = capacity_check-eq s ctx.caller need part room page.booking r same more in
    let there : leb (new_total_booked s ctx.caller need) (get_total_allocated_gb_across_providers s)
        ≡ true =
      ground arith in
    transfer-accepted C text s ctx need (omega arith) price_fits (omega arith) sent paid
    ∙ paid_booking-ok ctx need s running there
