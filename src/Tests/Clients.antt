-- ===== src/Tests/Clients.antt =====
-- The contract client on the chain of a run with one provider.
use mathlib.Core.List.{filter_map}
use mathlib.Core.Option
use community_storage.Base.{
  ◌≡◌, refl, String, false, List, ok, arith, includes, IsDistinct, subst, sym, ◌<◌, u64_mod,
}
use community_storage.State.{Error}
use community_storage.Registry.{get_node_index}
use community_storage.Registry.Nodes.Slots.{is_active}
use community_storage.Registry.Calls.{steps}
use community_storage.Front.Client.{get_node_info, get_storage_providers, provider_addresses}
use community_storage.Front.Client.Rpc.{served}
use community_storage.Front.Client.Decode.{shown}
use community_storage.Front.Client.Served.{node_info-served}
use community_storage.Front.Client.Providers.{AllNodesU64, offer, storage_providers-served}
use community_storage.Front.Client.Fallback.{without_list, fallback-active}
use community_storage.Tests.{contract, one_provider, at_work}
use community_storage.Tests.Runs.{one_provider-Reach, one_provider_steps}
use community_storage.Tests.Codec.{codec}

abbrev pub told : Error → String
told e = "refused"

few_steps : steps one_provider-Reach < u64_mod
few_steps = subst (λ n. n < u64_mod) (sym one_provider_steps) (omega arith)

one_provider-AllNodesU64 : AllNodesU64 one_provider
unfolding contract
one_provider-AllNodesU64 a n e = record {
  allocated_gb_fits = ground arith;
  registered_period_fits = ground arith;
  total_challenges_fits = ground arith;
  passed_challenges_fits = ground arith;
  pending_rewards_fits = ground arith;
  last_challenged_period_fits = ground arith;
  last_rewarded_period_fits = ground arith;
}

storage_providers-served_example :
    get_storage_providers codec (served codec told one_provider)
    ≡ ok (filter_map (offer one_provider) (get_node_index one_provider))
storage_providers-served_example =
    storage_providers-served codec told one_provider-Reach few_steps one_provider-AllNodesU64

unnamed : is_active one_provider "" ≡ false
unfolding contract
unnamed = refl

fallback-active_example :
    (l : List String) × (provider_addresses codec (without_list (served codec told one_provider))
      ≡ ok l)
    × ((a : String) → includes l a ≡ is_active one_provider a)
    × IsDistinct l
fallback-active_example = fallback-active codec told one_provider-Reach few_steps unnamed

at_work-AllNodesU64 : AllNodesU64 at_work
unfolding contract
at_work-AllNodesU64 a n e = record {
  allocated_gb_fits = ground arith;
  registered_period_fits = ground arith;
  total_challenges_fits = ground arith;
  passed_challenges_fits = ground arith;
  pending_rewards_fits = ground arith;
  last_challenged_period_fits = ground arith;
  last_rewarded_period_fits = ground arith;
}

node_info-served_example :
    get_node_info codec (served codec told at_work) "north"
    ≡ ok (Option.map shown (at_work.nodes "north"))
node_info-served_example = node_info-served codec told at_work "north" (at_work-AllNodesU64 "north")
