-- ===== src/Registry/Uploaders/Booking.antt =====
-- `registerAsUploader`: the incremental total that it tests, and the capacity.
use community_storage.Base.{
  ℕ, ◌<◌, ◌≤◌, ◌≡◌, ◌≢◌, refl, String, some, List, [], ◌∷◌, ◌++◌, arith, includes, is_same,
  if◌then◌else◌, add64, sub64, mul64, IsU64, Bool-cases, inl, inr, ok,
}
use community_storage.State.{State, Context}
use community_storage.Registry.{
  generate_event, get_booked_uploader_gb, set_booked_uploader_gb, get_uploader_index,
  get_total_booked_gb_across_uploaders, get_total_allocated_gb_across_providers, sum_allocated,
  add_allocated, get_node_index, get_uploader_price_per_gb,
}
use community_storage.Registry.Uploaders.{
  new_total_booked, booked, push_uploader_index, register_as_uploader,
}
use community_storage.Registry.Uploaders.Totals.{
  sum_of-unique-change, sum_of-unique-push, total_booked-eq-sum,
}

sum_allocated-same :
    (s u : State) (as_ : List String) (total : ℕ)
    → u.nodes ≡ s.nodes
    → sum_allocated u as_ total ≡ sum_allocated s as_ total
unfolding sum_allocated
sum_allocated-same s u [] total e = refl
sum_allocated-same s u (a ∷ as_) total e =
    ground (arith, sum_allocated-same s u as_ (add_allocated (u.nodes a) total) e)

module _ (ctx : Context) (gb : ℕ) (s : State) where
  booked-gb :
      (a : String)
      → 0 < gb
      → get_booked_uploader_gb (booked ctx gb s) a
        ≡ (if is_same ctx.caller a then gb else get_booked_uploader_gb s a)
  unfolding booked push_uploader_index set_booked_uploader_gb generate_event get_booked_uploader_gb
  booked-gb a pos = ground arith

  booked-index : get_uploader_index (booked ctx gb s) ≡ (
      if includes (get_uploader_index s) ctx.caller
      then get_uploader_index s
      else get_uploader_index s ++ ctx.caller ∷ [])
  unfolding booked push_uploader_index set_booked_uploader_gb generate_event get_uploader_index
  booked-index = ground arith

  booked-allocated :
      get_total_allocated_gb_across_providers (booked ctx gb s)
      ≡ get_total_allocated_gb_across_providers s
  unfolding booked push_uploader_index set_booked_uploader_gb generate_event
      get_total_allocated_gb_across_providers
  booked-allocated = ground (arith, sum_allocated-same s (booked ctx gb s) (get_node_index s) 0)

  -- Both ways of counting agree: the code's correction of the old total, and a new count.
  booked_total :
      0 < gb
      → IsU64 (get_booked_uploader_gb s ctx.caller)
      → get_total_booked_gb_across_uploaders (booked ctx gb s) ≡ new_total_booked s ctx.caller gb
  unfolding new_total_booked add64 sub64
  booked_total pos small =
      let u = booked ctx gb s in
      let f = get_booked_uploader_gb s in
      let f' = get_booked_uploader_gb u in
      let index = get_uploader_index s in
      let others : (a : String) → a ≢ ctx.caller → f' a ≡ f a =
        λ a ne. ground (arith, booked-gb a pos) in
      let mine : f' ctx.caller ≡ gb = ground (arith, booked-gb ctx.caller pos) in
      let change = sum_of-unique-change f f' ctx.caller index others in
      elim (Bool-cases (includes index ctx.caller)) [
        | inl old ↦
            ground (arith, total_booked-eq-sum s, total_booked-eq-sum u, change, mine, booked-index)
        | inr new ↦ ground (
          arith,
          total_booked-eq-sum s,
          total_booked-eq-sum u,
          change,
          mine,
          booked-index,
          sum_of-unique-push f' ctx.caller index,
        )
      ]

-- A booking that does not abort was paid for, gives the caller exactly the new amount and leaves the
-- other bookings; afterwards the total that is booked is the corrected total that was tested, and
-- it is no more than the capacity of the active providers. The caller's old booking is 64 bits wide.
pub register_as_uploader-capacity :
    (ctx : Context) (gb : ℕ) (s : State) {u : State}
    → IsU64 (get_booked_uploader_gb s ctx.caller)
    → register_as_uploader ctx (some gb) s ≡ ok u
    → (mul64 gb (get_uploader_price_per_gb s) ≤ ctx.transferred_coins)
      × ((a : String)
          → get_booked_uploader_gb u a
            ≡ (if is_same ctx.caller a then gb else get_booked_uploader_gb s a))
      × (get_total_booked_gb_across_uploaders u ≡ new_total_booked s ctx.caller gb)
      × (get_total_booked_gb_across_uploaders u ≤ get_total_allocated_gb_across_providers u)
register_as_uploader-capacity ctx gb s small h =
    let (paid, pos, fits, made) = guards h in
    rw made (
      paid,
      (λ a. booked-gb ctx gb s a pos),
      booked_total ctx gb s pos small,
      rw (booked_total ctx gb s pos small, booked-allocated ctx gb s) fits,
    )
  where
    guards :
        {u : State}
        → register_as_uploader ctx (some gb) s ≡ ok u
        → (mul64 gb (get_uploader_price_per_gb s) ≤ ctx.transferred_coins)
          × (0 < gb)
          × (new_total_booked s ctx.caller gb ≤ get_total_allocated_gb_across_providers s)
          × (u ≡ booked ctx gb s)
    guards h' = unfold register_as_uploader in ground arith
