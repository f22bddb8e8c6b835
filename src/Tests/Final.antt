-- ===== src/Tests/Final.antt =====
-- What is final and who may call what, at a contract that is at work.
use community_storage.Base.{
  ◌≡◌, ◌-◌, refl, true, false, none, some, [], ◌∷◌, ok, abort, arith, u64_max, u64_mod,
}
use community_storage.Structs.{Challenge}
use community_storage.State.{State, contract_is_paused, caller_is_not_admin}
use community_storage.Registry.{get_node, get_challenge, get_period_stats}
use community_storage.Registry.Nodes.{register_storage_node, unregister_storage_node}
use community_storage.Registry.Nodes.Slots.{is_active}
use community_storage.Registry.Nodes.Statistics.{unregister_underflow, register-unregister_stats}
use community_storage.Registry.Challenges.{submit_proof}
use community_storage.Registry.Rewards.{distribute_rewards}
use community_storage.Registry.Calls.{
  claim_request, pause_request, price_request, Later, now, after, call,
}
use community_storage.Registry.Calls.Access.{paused_refuses, admin_refuses}
use community_storage.Registry.Calls.Access.Settings.{settings, call-settings}
use community_storage.Registry.Calls.History.Final.{distribute_once, proof_final, unregister_final}
use community_storage.Tests.{
  contract, by, at_work, north, answer, register, distribution, state_of, then_call,
}
use community_storage.Tests.Runs.{at_work-IsKeyed}

abbrev settled : State
settled = then_call (by "admin" 6) (distribution ("south" ∷ [])) at_work

settled_runs : distribute_rewards (by "admin" 6) (some 5) (some ("south" ∷ [])) at_work ≡ ok settled
unfolding contract
settled_runs = refl

distribute_once_example :
    ¬ (distribute_rewards (by "admin" 9) (some 5) (some ("north" ∷ [])) settled ≡ ok at_work)
distribute_once_example =
    distribute_once (by "admin" 6) (by "admin" 9) 5 ("south" ∷ []) (some ("north" ∷ []))
      at_work-IsKeyed settled_runs now

abbrev answered : State
answered = then_call (by "north" 5) answer at_work

answered_runs : submit_proof (by "north" 5) (some "first") (some (1 ∷ 2 ∷ [])) at_work ≡ ok answered
unfolding contract
answered_runs = refl

proof_final_example :
    ((c : Challenge) × (get_challenge at_work "first" ≡ some c)
      × (get_challenge answered "first" ≡ some (record c { resolved = true; passed = true })))
    × ¬ (submit_proof (by "north" 6) (some "first") none answered ≡ ok at_work)
proof_final_example =
    proof_final (by "north" 5) (by "north" 6) "first" (1 ∷ 2 ∷ []) none at_work-IsKeyed
      answered_runs now

abbrev gone : State
gone = state_of at_work (unregister_storage_node (by "north" 6) at_work)

gone_runs : unregister_storage_node (by "north" 6) at_work ≡ ok gone
unfolding contract
gone_runs = refl

unregister_final_example :
    (is_active gone "north" ≡ false)
    × ¬ (register_storage_node (by "north" 8) (some 10) (some "") (some []) gone ≡ ok at_work)
unregister_final_example =
    unregister_final (by "north" 6) (by "north" 8) (some 10) (some "") (some []) at_work-IsKeyed
      gone_runs now refl

north_stored : get_node at_work "north" ≡ some north
unfolding contract
north_stored = refl

unregister_underflow_example :
    ((get_period_stats gone 6).active_nodes ≡ u64_max)
    × ((get_period_stats gone 6).total_gb_stored ≡ u64_mod - 10)
unregister_underflow_example =
    unregister_underflow (by "north" 6) north at_work refl north_stored (ground arith) gone_runs

settled_Later : Later at_work settled
unfolding contract
settled_Later = after (by "admin" 6) (distribution ("south" ∷ [])) now refl refl

abbrev halted : State
halted = then_call (by "admin" 6) (pause_request (some true)) at_work

paused_refuses_example : call (by "north" 6) claim_request halted ≡ abort contract_is_paused
unfolding contract
paused_refuses_example = paused_refuses (by "north" 6) claim_request halted refl refl

admin_refuses_example :
    call (by "north" 6) (price_request (some 1)) at_work ≡ abort caller_is_not_admin
unfolding contract
admin_refuses_example = admin_refuses (by "north" 6) (price_request (some 1)) at_work refl refl

call-settings_example : settings answered ≡ settings at_work
unfolding contract
call-settings_example = call-settings (by "north" 5) answer at_work refl refl refl

abbrev joined : State
joined = then_call (by "east" 6) (register 30) at_work

abbrev rejoined : State
rejoined = state_of joined (unregister_storage_node (by "east" 6) joined)

joined_runs : register_storage_node (by "east" 6) (some 30) (some "") (some []) at_work ≡ ok joined
unfolding contract
joined_runs = refl

rejoined_runs : unregister_storage_node (by "east" 6) joined ≡ ok rejoined
unfolding contract
rejoined_runs = refl

register-unregister_stats_example : get_period_stats rejoined 6 ≡ get_period_stats at_work 6
unfolding contract
register-unregister_stats_example =
    register-unregister_stats (by "east" 6) (by "east" 6) 30 "" [] at_work at_work-IsKeyed refl refl
      (omega arith) (omega arith) (omega arith) joined_runs rejoined_runs 6
