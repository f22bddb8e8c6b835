-- ===== src/Registry/Challenges/Counts.antt =====
-- The two counters of a node, `totalChallenges` and `passedChallenges`, against the challenges that
-- are stored.
use community_storage.Base.{
  ℕ, ◌%◌, ◌≡◌, refl, sym, ap, ◌∙◌, String, Bool, true, false, ◌&&◌, Option, none, some, List, [],
  ◌∷◌, arith, is_some, is_same, includes, IsDistinct, if◌then◌else◌, add64, u64_mod,
}
use community_storage.Structs.{StorageNode, Challenge}
use community_storage.State.{State, Context}
use community_storage.Registry.{
  generate_event, set_node, set_challenge, set_period_stats, get_node, get_challenge,
}
use community_storage.Registry.Challenges.{
  issued, count_issued, credit_node, count_passed, proved, expire, expire_all,
}
use community_storage.Registry.Uploaders.Totals.{sum_of, sum_of-change}
use community_storage.Registry.Calls.Keys.{IsKeyed}
use community_storage.Registry.Calls.Keys.Writes.{expire-IsKeyed}

abbrev pub total_of : Option StorageNode → ℕ
total_of none = 0
total_of (some n) = n.total_challenges

abbrev pub passed_of : Option StorageNode → ℕ
passed_of none = 0
passed_of (some n) = n.passed_challenges

-- Whether a challenge was issued to an address, and whether it was passed besides.
abbrev pub issued_to : String → Option Challenge → Bool
issued_to a none = false
issued_to a (some c) = is_same c.node_address a

abbrev pub passed_by : String → Option Challenge → Bool
passed_by a none = false
passed_by a (some c) = is_same c.node_address a && c.passed

abbrev pub count_if : (String → Bool) → List String → ℕ
count_if f ids = sum_of (λ i. if f i then 1 else 0) ids

-- The listed identifiers are those of the stored challenges, and the counters of every node count
-- the challenges issued to it, modulo 2^64.
pub record IsCounted (s : State) (ids : List String) : Type 0 where
  pub distinct : IsDistinct ids
  pub listed : (i : String) → includes ids i ≡ is_some (s.challenges i)
  pub pending :
      (i : String) (c : Challenge) → s.challenges i ≡ some c → c.resolved ≡ false → c.passed ≡ false
  pub known :
      (i : String) (c : Challenge)
      → s.challenges i ≡ some c
      → is_some (s.nodes c.node_address) ≡ true
  pub total :
      (a : String)
      → total_of (s.nodes a) ≡ count_if (λ i. issued_to a (s.challenges i)) ids % u64_mod
  pub passed :
      (a : String)
      → passed_of (s.nodes a) ≡ count_if (λ i. passed_by a (s.challenges i)) ids % u64_mod

pub count_if-same :
    (f g : String → Bool) (ids : List String)
    → ((i : String) → includes ids i ≡ true → g i ≡ f i)
    → count_if g ids ≡ count_if f ids
count_if-same f g [] h = refl
count_if-same f g (i ∷ ids) h =
    ground (arith, h i, count_if-same f g ids (λ j m. h j (ground arith)))

-- Who a challenge was issued to, and whether it was passed.
abbrev ledger : Option Challenge → Option (String × Bool)
ledger none = none
ledger (some c) = some (c.node_address, c.passed)

issued_to-ledger :
    (a : String) (o o' : Option Challenge) → ledger o' ≡ ledger o → issued_to a o' ≡ issued_to a o
issued_to-ledger a none none e = refl
issued_to-ledger a none (some d) e = cc
issued_to-ledger a (some c) none e = cc
issued_to-ledger a (some c) (some d) e = ground arith

passed_by-ledger :
    (a : String) (o o' : Option Challenge) → ledger o' ≡ ledger o → passed_by a o' ≡ passed_by a o
passed_by-ledger a none none e = refl
passed_by-ledger a none (some d) e = cc
passed_by-ledger a (some c) none e = cc
passed_by-ledger a (some c) (some d) e = ground arith

is_some-ledger : (o o' : Option Challenge) → ledger o' ≡ ledger o → is_some o' ≡ is_some o
is_some-ledger none none e = refl
is_some-ledger none (some d) e = cc
is_some-ledger (some c) none e = cc
is_some-ledger (some c) (some d) e = refl

-- A step that leaves the counters, and the ledger of every challenge.
pub record SameCounts (s u : State) : Type 0 where
  pub ledgers : (i : String) → ledger (u.challenges i) ≡ ledger (s.challenges i)
  pub still :
      (i : String) (c : Challenge) → u.challenges i ≡ some c → c.resolved ≡ false → c.passed ≡ false
  pub totals : (a : String) → total_of (u.nodes a) ≡ total_of (s.nodes a)
  pub passes : (a : String) → passed_of (u.nodes a) ≡ passed_of (s.nodes a)
  pub kept : (a : String) → is_some (s.nodes a) ≡ true → is_some (u.nodes a) ≡ true

known-ledger :
    (s : State) (o : Option Challenge) (c : Challenge)
    → ((d : Challenge) → o ≡ some d → is_some (s.nodes d.node_address) ≡ true)
    → ledger (some c) ≡ ledger o
    → is_some (s.nodes c.node_address) ≡ true
known-ledger s none c h e = cc
known-ledger s (some d) c h e = ground (arith, h d refl)

pub SameCounts-IsCounted :
    {s u : State} {ids : List String} → IsCounted s ids → SameCounts s u → IsCounted u ids
SameCounts-IsCounted {s} {u} {ids} t k = record {
  distinct = t.distinct;
  listed = λ i. t.listed i ∙ sym (is_some-ledger (s.challenges i) (u.challenges i) (k.ledgers i));
  pending = k.still;
  known = λ i c e.
      k.kept c.node_address
        (known-ledger s (s.challenges i) c (t.known i) (ap ledger (sym e) ∙ k.ledgers i));
  total = λ a.
      let same =
        count_if-same (λ i. issued_to a (s.challenges i)) (λ i. issued_to a (u.challenges i)) ids
          (λ i _. issued_to-ledger a (s.challenges i) (u.challenges i) (k.ledgers i)) in
      omega (arith, k.totals a, t.total a, same);
  passed = λ a.
      let same =
        count_if-same (λ i. passed_by a (s.challenges i)) (λ i. passed_by a (u.challenges i)) ids
          (λ i _. passed_by-ledger a (s.challenges i) (u.challenges i) (k.ledgers i)) in
      omega (arith, k.passes a, t.passed a, same);
}

-- A challenge that is issued joins the list.
pub issued-IsCounted :
    (ctx : Context) (id a chunk : String) (nonce : ℕ) (n : StorageNode) (s : State)
    {ids : List String}
    → IsKeyed s
    → get_challenge s id ≡ none
    → get_node s a ≡ some n
    → IsCounted s ids
    → IsCounted (issued ctx id a chunk nonce n s) (id ∷ ids)
unfolding issued count_issued set_challenge set_node set_period_stats generate_event get_node
    get_challenge add64
issued-IsCounted ctx id a chunk nonce n s {ids} k fresh found t = record {
  distinct = (ground (arith, t.listed id), t.distinct);
  listed = λ i. ground (arith, t.listed i);
  pending = λ i c e h. ground (arith, t.pending i c);
  known = λ i c e. grind (arith, t.known, k.node_key);
  total = λ b.
      let same =
        count_if-same (λ i. issued_to b (s.challenges i))
          (λ i. issued_to b ((issued ctx id a chunk nonce n s).challenges i)) ids
          (λ i m. ground (arith, t.listed i, t.listed id)) in
      ground (arith, t.total b, same, k.node_key a n);
  passed = λ b.
      let same =
        count_if-same (λ i. passed_by b (s.challenges i))
          (λ i. passed_by b ((issued ctx id a chunk nonce n s).challenges i)) ids
          (λ i m. ground (arith, t.listed i, t.listed id)) in
      ground (arith, t.passed b, same, k.node_key a n);
}

stored : (o : Option StorageNode) → is_some o ≡ true → (n : StorageNode) × (o ≡ some n)
stored none h = cc
stored (some n) h = (n, refl)

-- A proof that is taken changes one challenge, which was open, and the counter of its node.
pub proved-IsCounted :
    (ctx : Context) (id : String) (valid : Bool) (c : Challenge) (s : State) {ids : List String}
    → IsKeyed s
    → get_challenge s id ≡ some c
    → c.resolved ≡ false
    → IsCounted s ids
    → IsCounted (proved ctx id valid c s) ids
unfolding proved credit_node count_passed set_challenge set_node set_period_stats generate_event
    get_node get_challenge add64
proved-IsCounted ctx id valid c s {ids} k found open_ t =
    let (n, at_n) = stored (s.nodes c.node_address) (t.known id c found) in
    record {
      distinct = t.distinct;
      listed = λ i. ground (arith, t.listed i, t.listed id, k.challenge_key id c);
      pending = λ i d e h. ground (arith, t.pending i d, k.challenge_key id c);
      known = λ i d e. grind (arith, t.known, k.node_key, k.challenge_key);
      total = λ a.
          let same =
            count_if-same (λ i. issued_to a (s.challenges i))
              (λ i. issued_to a ((proved ctx id valid c s).challenges i)) ids
              (λ i m. ground (arith, k.challenge_key id c)) in
          ground (arith, t.total a, same, at_n, k.node_key c.node_address n at_n);
      passed = λ a.
          let change =
            sum_of-change (λ i. if passed_by a (s.challenges i) then 1 else 0)
              (λ i. if passed_by a ((proved ctx id valid c s).challenges i) then 1 else 0) id ids
              (λ i apart. ground (arith, k.challenge_key id c)) t.distinct in
          ground (
            arith,
            t.passed a,
            change,
            t.listed id,
            t.pending id c found open_,
            k.challenge_key id c found,
            at_n,
            k.node_key c.node_address n at_n,
          );
    }

SameCounts-expire :
    (now : ℕ) (i : String) (s : State) {ids : List String}
    → IsKeyed s
    → IsCounted s ids
    → SameCounts s (expire now i (get_challenge s i) s)
unfolding expire set_challenge generate_event get_challenge
SameCounts-expire now i s k t = record {
  ledgers = λ j. grind (arith, t.pending, k.challenge_key);
  still = λ j c e h. grind (arith, t.pending, k.challenge_key);
  totals = λ a. grind arith;
  passes = λ a. grind arith;
  kept = λ a h. grind arith;
}

pub expire_all-IsCounted :
    (now : ℕ) (is : List String) (s : State) {ids : List String}
    → IsKeyed s
    → IsCounted s ids
    → IsCounted (expire_all now is s) ids
unfolding expire_all
expire_all-IsCounted now [] s k t = t
expire_all-IsCounted now (i ∷ is) s k t =
    expire_all-IsCounted now is _ (expire-IsKeyed k now i (get_challenge s i))
      (SameCounts-IsCounted t (SameCounts-expire now i s k t))
