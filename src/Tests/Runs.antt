-- ===== src/Tests/Runs.antt =====
-- Runs of the contract, as histories that the theorems take.
use community_storage.Base.{ℕ, ◌≡◌, refl, ◌↔◌, String, true, none, some, ok, arith, ◌<◌}
use community_storage.Registry.Calls.{Reach, start, next, steps}
use community_storage.Registry.Calls.Keys.{IsKeyed}
use community_storage.Registry.Calls.Slots.{Reach-enumerates}
use community_storage.Registry.Nodes.Slots.{is_active}
use community_storage.Registry.Views.{get_node_address_at, get_total_nodes_count}
use community_storage.Tests.{
  contract, by, deployment, deployed, register, one_provider, two_providers, at_work,
}

deployed-Reach : Reach deployed
unfolding contract
deployed-Reach = start deployment (some "admin") none refl

pub one_provider-Reach : Reach one_provider
unfolding contract
one_provider-Reach = next (by "north" 5) (register 10) deployed-Reach refl refl

pub one_provider_steps : steps one_provider-Reach ≡ 1
unfolding steps one_provider-Reach deployed-Reach
one_provider_steps = refl

two_providers-Reach : Reach two_providers
unfolding contract
two_providers-Reach = next (by "south" 5) (register 20) one_provider-Reach refl refl

pub at_work-IsKeyed : IsKeyed at_work
at_work-IsKeyed = record {
  node_key = λ a n e. ground arith;
  challenge_key = λ i c e. ground arith;
  period_key = λ p t e. ground arith;
}

Reach-enumerates_example :
    ((a : String)
      → (is_active two_providers a ≡ true) ↔ (
          (i : ℕ) × (i < get_total_nodes_count two_providers)
          × (get_node_address_at (some i) two_providers ≡ ok a)))
    × ((i j : ℕ)
        → i < get_total_nodes_count two_providers
        → j < get_total_nodes_count two_providers
        → get_node_address_at (some i) two_providers ≡ get_node_address_at (some j) two_providers
        → i ≡ j)
unfolding steps two_providers-Reach one_provider-Reach deployed-Reach
Reach-enumerates_example = Reach-enumerates two_providers-Reach (omega arith)

two_providers_listed :
    (get_total_nodes_count two_providers ≡ 2)
    × (get_node_address_at (some 0) two_providers ≡ ok "north")
    × (get_node_address_at (some 1) two_providers ≡ ok "south")
    × (get_node_address_at (some 2) two_providers ≡ ok "")
unfolding contract get_total_nodes_count get_node_address_at
two_providers_listed = (refl, refl, refl, refl)
