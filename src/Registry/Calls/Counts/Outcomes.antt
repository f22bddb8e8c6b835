-- ===== src/Registry/Calls/Counts/Outcomes.antt =====
-- What the counters of a node, by which `distributeRewards` decides, say about its challenges.
use community_storage.Base.{
  ℕ, ◌<◌, ◌≤◌, ◌≡◌, ◌↔◌, refl, ◌∙◌, sym, ap, String, Bool, true, Option, none, some, List, [], ◌∷◌,
  arith, length, includes, is_some, u64_mod, IsDistinct, Bool-cases, inl, inr,
}
use community_storage.Structs.{StorageNode, Challenge, has_passed_current_challenge}
use community_storage.State.{State}
use community_storage.Registry.{get_node, get_challenge}
use community_storage.Registry.Challenges.Counts.{
  IsCounted, issued_to, passed_by, count_if, count_if-same, total_of, passed_of,
}
use community_storage.Registry.Calls.{Reach, steps}
use community_storage.Registry.Calls.Counts.{Reach-IsCounted}

count_if-le-length : (f : String → Bool) (ids : List String) → count_if f ids ≤ length ids
count_if-le-length f [] = omega arith
count_if-le-length f (i ∷ ids) = ground (arith, count_if-le-length f ids)

module _ (f g : String → Bool) (weaker : (i : String) → f i ≡ true → g i ≡ true) where
  count_if-le : (ids : List String) → count_if f ids ≤ count_if g ids
  count_if-le [] = omega arith
  count_if-le (i ∷ ids) = ground (arith, weaker i, count_if-le ids)

  -- If as many entries meet the stronger test as the weaker one, they are the same entries.
  count_if-all :
      (ids : List String) (i : String)
      → count_if f ids ≡ count_if g ids
      → includes ids i ≡ true
      → g i ≡ true
      → f i ≡ true
  count_if-all [] i e m h = ground arith
  count_if-all (j ∷ ids) i e m h = elim (Bool-cases (f j)) [
    | inl here ↦ ground (arith, weaker j here, count_if-all ids i (ground (arith, weaker j here)))
    | inr not_here ↦
        ground (arith, count_if-le ids, count_if-all ids i (ground (arith, count_if-le ids)))
  ]

passed-resolved :
    {s : State} {ids : List String} (t : IsCounted s ids) (i : String) (c : Challenge)
    → get_challenge s i ≡ some c
    → c.passed ≡ true
    → c.resolved ≡ true
unfolding get_challenge
passed-resolved t i c at_i won = ground (arith, t.pending i c at_i)

passed_by-issued_to :
    (a : String) (o : Option Challenge) → passed_by a o ≡ true → issued_to a o ≡ true
passed_by-issued_to a none h = ground arith
passed_by-issued_to a (some c) h = ground arith

module _ {s : State} {ids : List String} (t : IsCounted s ids) (small : length ids < u64_mod)
    (a : String) (n : StorageNode) (found : get_node s a ≡ some n) where
  total_exact : n.total_challenges ≡ count_if (λ i. issued_to a (get_challenge s i)) ids
  unfolding get_node get_challenge
  total_exact =
      let bound = count_if-le-length (λ i. issued_to a (s.challenges i)) ids in
      let same : total_of (s.nodes a) ≡ n.total_challenges = ap total_of found in
      omega (arith, t.total a)

  passed_exact : n.passed_challenges ≡ count_if (λ i. passed_by a (get_challenge s i)) ids
  unfolding get_node get_challenge
  passed_exact =
      let bound = count_if-le-length (λ i. passed_by a (s.challenges i)) ids in
      let same : passed_of (s.nodes a) ≡ n.passed_challenges = ap passed_of found in
      omega (arith, t.passed a)

  issued_at :
      (i : String) (c : Challenge)
      → get_challenge s i ≡ some c
      → c.node_address ≡ a
      → (includes ids i ≡ true) × (issued_to a (get_challenge s i) ≡ true)
  unfolding get_challenge
  issued_at i c at_i own = (ground (arith, t.listed i), ground arith)

  all_passed :
      (n.passed_challenges ≡ n.total_challenges)
      → (i : String) (c : Challenge) → get_challenge s i ≡ some c
      → c.node_address ≡ a
      → c.passed ≡ true
  all_passed e i c at_i own =
      let (m, mine) = issued_at i c at_i own in
      let won =
        count_if-all (λ j. passed_by a (get_challenge s j)) (λ j. issued_to a (get_challenge s j))
          (λ j. passed_by-issued_to a (get_challenge s j)) ids i
          (sym passed_exact ∙ e ∙ total_exact) m mine in
      ground arith

  passed-eq-total :
      ((i : String) (c : Challenge)
        → get_challenge s i ≡ some c
        → c.node_address ≡ a
        → c.passed ≡ true)
      → n.passed_challenges ≡ n.total_challenges
  passed-eq-total won =
      passed_exact
      ∙ count_if-same (λ j. issued_to a (get_challenge s j)) (λ j. passed_by a (get_challenge s j))
          ids (λ j _. each (get_challenge s j) (won j))
      ∙ sym total_exact
    where
      each :
          (o : Option Challenge)
          → ((c : Challenge) → o ≡ some c → c.node_address ≡ a → c.passed ≡ true)
          → passed_by a o ≡ issued_to a o
      each none h = refl
      each (some c) h = ground (arith, h c refl)

-- The counters of a node are exact while fewer than 2^64 calls have been made: there is a list of
-- the identifiers of all stored challenges, each once, and `totalChallenges` of every node is the
-- number of those that were issued to it, `passedChallenges` the number of those that it passed.
pub Reach-counts :
    {s : State} (r : Reach s)
    → steps r < u64_mod
    → (ids : List String) × IsDistinct ids
      × ((i : String) → includes ids i ≡ is_some (get_challenge s i))
      × ((a : String) (n : StorageNode)
          → get_node s a ≡ some n
          → (n.total_challenges ≡ count_if (λ i. issued_to a (get_challenge s i)) ids)
            × (n.passed_challenges ≡ count_if (λ i. passed_by a (get_challenge s i)) ids))
unfolding get_challenge
Reach-counts r few =
    let (ids, small, t) = Reach-IsCounted r in
    let short : length ids < u64_mod = omega arith in
    (ids, t.distinct, t.listed, λ a n e. (total_exact t short a n e, passed_exact t short a n e))

-- What the counters that `distributeRewards` compares say of a stored node, in a state that fewer
-- than 2^64 calls have reached: they are equal exactly if every challenge that was ever issued to the
-- node, in whatever period, is resolved and passed. The comment of the source asks for the challenges
-- of the period instead.
pub Reach-rewardable :
    {s : State} (r : Reach s) (a : String) (n : StorageNode)
    → steps r < u64_mod
    → get_node s a ≡ some n
    → (n.passed_challenges ≡ n.total_challenges) ↔ (
        (i : String) (c : Challenge)
        → get_challenge s i ≡ some c
        → c.node_address ≡ a
        → (c.resolved ≡ true) × (c.passed ≡ true))
Reach-rewardable r a n few e =
    let (ids, small, t) = Reach-IsCounted r in
    let short : length ids < u64_mod = omega arith in
    (
      (λ equal i c at_i own.
          let won = all_passed t short a n e equal i c at_i own in
          (passed-resolved t i c at_i won, won)),
      λ won. passed-eq-total t short a n e (λ i c at_i own. (won i c at_i own).1),
    )

-- `hasPassedCurrentChallenge` of a stored node means, while fewer than 2^64 calls have been made,
-- that the node was last challenged in the period that is asked for, that it has passed at least
-- one challenge, and that it has passed every challenge that was ever issued to it.
pub Reach-has_passed :
    {s : State} (r : Reach s) (a : String) (n : StorageNode) (period : ℕ)
    → steps r < u64_mod
    → get_node s a ≡ some n
    → has_passed_current_challenge n period ≡ true
    → (n.last_challenged_period ≡ period)
      × (0 < n.passed_challenges)
      × ((i : String) (c : Challenge)
          → get_challenge s i ≡ some c
          → c.node_address ≡ a
          → (c.resolved ≡ true) × (c.passed ≡ true))
unfolding has_passed_current_challenge
Reach-has_passed r a n period few e h =
    (ground arith, ground arith, (Reach-rewardable r a n few e).0 (ground arith))
