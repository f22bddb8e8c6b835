-- ===== src/Tests/Claiming.antt =====
-- A claim from the page of providers, by a provider that has rewards.
use community_storage.Base.{◌≡◌, refl, false, some, arith, String_discrete}
use community_storage.Structs.RoundTrip.Node.{IsStorageNodeU64}
use community_storage.Registry.{is_paused}
use community_storage.Registry.Rewards.{claimed}
use community_storage.Front.Client.Rpc.{served}
use community_storage.Front.Client.Decode.{shown}
use community_storage.Front.Provide.{ProvidePage, handle_claim}
use community_storage.Front.Provide.Calls.{executed}
use community_storage.Front.Provide.Claimed.{handle_claim-pays}
use community_storage.Tests.{contract, by, at_work, north}
use community_storage.Tests.Codec.{codec}
use community_storage.Tests.Clients.{told}
use community_storage.Tests.Providing.{page, account}

abbrev north_page : ProvidePage
north_page = record page { node_info = some (shown north) }

north-IsStorageNodeU64 : IsStorageNodeU64 north
north-IsStorageNodeU64 = record {
  allocated_gb_fits = ground arith;
  registered_period_fits = ground arith;
  total_challenges_fits = ground arith;
  passed_challenges_fits = ground arith;
  pending_rewards_fits = ground arith;
  last_challenged_period_fits = ground arith;
  last_rewarded_period_fits = ground arith;
}

north_stored : at_work.nodes "north" ≡ some north
unfolding String_discrete
north_stored = refl

running : is_paused at_work ≡ false
unfolding contract
running = refl

handle_claim-pays_example :
    handle_claim codec
      (executed codec told (by "north" 9))
      (served codec told)
      (some account)
      (some "north")
      north_page
      at_work
    ≡ (
      record north_page { node_info = some (shown (record north { pending_rewards = 0 })) },
      claimed (by "north" 9) north at_work,
    )
handle_claim-pays_example =
    handle_claim-pays codec told (by "north" 9) account north at_work refl north-IsStorageNodeU64
      north_page refl north_stored running
