-- ===== src/Tests/Counts.antt =====
-- A provider that is challenged, at the end of a run of the contract.
use community_storage.Base.{
  ◌≡◌, [], ◌∷◌, ◌↔◌, refl, String, true, some, List, IsDistinct, includes, is_some, arith,
}
use community_storage.Structs.{StorageNode, Challenge, has_passed_current_challenge}
use community_storage.State.{State}
use community_storage.Registry.{get_node, get_challenge}
use community_storage.Registry.Challenges.Counts.{count_if, issued_to, passed_by}
use community_storage.Registry.Calls.{Reach, next, steps, Request, issue_request, proof_request}
use community_storage.Registry.Calls.Counts.Outcomes.{Reach-counts, Reach-rewardable}
use community_storage.Tests.{contract, by, one_provider, then_call}
use community_storage.Tests.Runs.{one_provider-Reach, one_provider_steps}

abbrev question : Request
question = issue_request (some "first") (some "north") (some "chunk") (some 7)

abbrev questioned : State
questioned = then_call (by "admin" 5) question one_provider

questioned-Reach : Reach questioned
unfolding contract
questioned-Reach = next (by "admin" 5) question one_provider-Reach refl refl

abbrev challenged_north : StorageNode
challenged_north = record {
  address = "north";
  allocated_gb = 10;
  registered_period = 5;
  total_challenges = 1;
  passed_challenges = 0;
  pending_rewards = 0;
  last_challenged_period = 5;
  last_rewarded_period = 5;
  active = true;
}

north_stored : get_node questioned "north" ≡ some challenged_north
unfolding contract
north_stored = refl

Reach-counts_example :
    (ids : List String) × IsDistinct ids
    × ((i : String) → includes ids i ≡ is_some (get_challenge questioned i))
    × ((a : String) (n : StorageNode)
        → get_node questioned a ≡ some n
        → (n.total_challenges ≡ count_if (λ i. issued_to a (get_challenge questioned i)) ids)
          × (n.passed_challenges ≡ count_if (λ i. passed_by a (get_challenge questioned i)) ids))
unfolding steps questioned-Reach
Reach-counts_example = Reach-counts questioned-Reach (omega (arith, one_provider_steps))

Reach-rewardable_example :
    (challenged_north.passed_challenges ≡ challenged_north.total_challenges) ↔ (
      (i : String) (c : Challenge)
      → get_challenge questioned i ≡ some c
      → c.node_address ≡ "north"
      → (c.resolved ≡ true) × (c.passed ≡ true))
unfolding steps questioned-Reach
Reach-rewardable_example =
    Reach-rewardable questioned-Reach "north" challenged_north (omega (arith, one_provider_steps))
      north_stored

abbrev reply : Request
reply = proof_request (some "first") (some (1 ∷ []))

abbrev replied : State
replied = then_call (by "north" 5) reply questioned

replied-Reach : Reach replied
unfolding contract
replied-Reach = next (by "north" 5) reply questioned-Reach refl refl

abbrev passed_north : StorageNode
passed_north = record challenged_north { passed_challenges = 1 }

passed_north_stored : get_node replied "north" ≡ some passed_north
unfolding contract
passed_north_stored = refl

passed_north_current : has_passed_current_challenge passed_north 5 ≡ true
unfolding has_passed_current_challenge
passed_north_current = refl
