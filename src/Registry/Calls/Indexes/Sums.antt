-- ===== src/Registry/Calls/Indexes/Sums.antt =====
-- The totals of allocated and of booked space, as sums over the providers and over the uploaders.
use community_storage.Base.{
  ℕ, ◌+◌, ◌%◌, ◌<◌, ◌≡◌, refl, ap, ◌∙◌, String, Option, none, some, List, [], ◌∷◌, arith, includes,
  IsDistinct, is_some, u64_mod, add64, if◌then◌else◌,
}
use community_storage.Structs.{StorageNode}
use community_storage.State.{State}
use community_storage.Registry.{
  get_node, get_node_index, get_uploader_index, get_booked_uploader_gb, add_allocated,
  sum_allocated, get_total_allocated_gb_across_providers, get_total_booked_gb_across_uploaders,
}
use community_storage.Registry.Uploaders.Totals.{sum_of, unique, total_booked-eq-sum}
use community_storage.Registry.Calls.{Reach}
use community_storage.Registry.Calls.Indexes.{Reach-IsListed}

-- What a node adds to the capacity.
abbrev pub offered : Option StorageNode → ℕ
offered none = 0
offered (some n) = if n.active then n.allocated_gb else 0

add_allocated-mod :
    (o : Option StorageNode) (total : ℕ)
    → add_allocated o total % u64_mod ≡ (total + offered o) % u64_mod
unfolding add_allocated add64
add_allocated-mod none total = omega arith
add_allocated-mod (some n) total = ground arith

sum_allocated-mod :
    (s : State) (as_ : List String) (total : ℕ)
    → sum_allocated s as_ total % u64_mod
      ≡ (total + sum_of (λ a. offered (get_node s a)) as_) % u64_mod
unfolding sum_allocated
sum_allocated-mod s [] total = omega arith
sum_allocated-mod s (a ∷ as_) total = omega (
  arith,
  sum_allocated-mod s as_ (add_allocated (get_node s a) total),
  add_allocated-mod (get_node s a) total,
)

sum_allocated-IsU64 :
    (s : State) (as_ : List String) (total : ℕ)
    → total < u64_mod
    → sum_allocated s as_ total < u64_mod
unfolding sum_allocated
sum_allocated-IsU64 s [] total h = h
sum_allocated-IsU64 s (a ∷ as_) total h =
    sum_allocated-IsU64 s as_ (add_allocated (get_node s a) total) (small (get_node s a))
  where
    small : (o : Option StorageNode) → add_allocated o total < u64_mod
    small none = unfold add_allocated in h
    small (some n) = unfold add_allocated add64 in ground arith

total_allocated-eq-sum :
    (s : State)
    → get_total_allocated_gb_across_providers s
      ≡ sum_of (λ a. offered (get_node s a)) (get_node_index s) % u64_mod
unfolding get_total_allocated_gb_across_providers
total_allocated-eq-sum s = omega (
  arith,
  sum_allocated-mod s (get_node_index s) 0,
  sum_allocated-IsU64 s (get_node_index s) 0 (omega arith),
)

unique-eq : (as_ : List String) → IsDistinct as_ → unique as_ ≡ as_
unique-eq [] d = refl
unique-eq (a ∷ as_) d = rw d.0 (ap (λ x. a ∷ x) (unique-eq as_ d.1))

-- In every reachable state the list of providers holds exactly the addresses of the stored nodes,
-- each once, and the capacity is the sum, modulo 2^64, of what the active ones among them offer.
pub Reach-capacity :
    {s : State}
    → Reach s
    → ((a : String) → includes (get_node_index s) a ≡ is_some (get_node s a))
      × IsDistinct (get_node_index s)
      × (get_total_allocated_gb_across_providers s
          ≡ sum_of (λ a. offered (get_node s a)) (get_node_index s) % u64_mod)
unfolding get_node
Reach-capacity {s} r =
    let t = Reach-IsListed r in (t.nodes_listed, t.nodes_distinct, total_allocated-eq-sum s)

-- In every reachable state the list of uploaders holds exactly the addresses with a booking, each
-- once, and the total that is booked is the plain sum, modulo 2^64, of their bookings.
pub Reach-booked :
    {s : State}
    → Reach s
    → ((a : String) → includes (get_uploader_index s) a ≡ is_some (s.uploader_bookings a))
      × IsDistinct (get_uploader_index s)
      × (get_total_booked_gb_across_uploaders s
          ≡ sum_of (get_booked_uploader_gb s) (get_uploader_index s) % u64_mod)
Reach-booked {s} r =
    let t = Reach-IsListed r in
    let plain = unique-eq (get_uploader_index s) t.uploaders_distinct in
    (
      t.uploaders_listed,
      t.uploaders_distinct,
      total_booked-eq-sum s ∙ ap (λ as_. sum_of (get_booked_uploader_gb s) as_ % u64_mod) plain,
    )
