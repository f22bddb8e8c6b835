-- ===== src/Registry/Challenges.antt =====
-- The challenge system of smartContract/assembly/contracts/storage-registry.ts.
pub mod Counts
use community_storage.Base.{
  ℕ, String, Bool, true, false, not, Option, none, some, List, [], ◌∷◌, is_some, ltb, leb,
  if◌then◌else◌, is_same, length, add64, ok, assert, expect, ◌>>=◌, ◌>>◌,
}
use community_storage.Structs.{StorageNode, Challenge, new_challenge}
use community_storage.State.{
  State, Context, Outcome, argument_missing, challenge_already_exists, node_not_found,
  node_is_not_active, challenge_not_found, challenge_already_resolved,
  caller_is_not_challenged_node, challenge_deadline_passed, challenge_issued, challenge_passed,
  challenge_failed, challenge_expired,
}
use community_storage.Registry.{
  generate_event, get_config, get_node, set_node, get_challenge, set_challenge, get_period_stats,
  set_period_stats, assert_not_paused, assert_challenger,
}

unfoldable pub count_issued : ℕ → State → State
unfolding get_period_stats set_period_stats
count_issued period s =
    let stats = get_period_stats s period in
    set_period_stats (record stats { challenges_issued = add64 stats.challenges_issued 1 }) s

-- The writes of `issueChallenge`, at the stored node.
unfoldable pub issued : Context → String → String → String → ℕ → StorageNode → State → State
issued ctx challenge_id node_address chunk_id nonce node s =
    let deadline = add64 ctx.timestamp (get_config s).challenge_response_timeout in
    let s1 =
      set_challenge
        (new_challenge challenge_id node_address chunk_id nonce ctx.current_period deadline) s in
    let s2 =
      set_node
        (record node {
          total_challenges = add64 node.total_challenges 1;
          last_challenged_period = ctx.current_period;
        })
        s1 in
    let s3 = count_issued ctx.current_period s2 in
    generate_event (challenge_issued challenge_id node_address chunk_id) s3

unfoldable pub issue_challenge :
    Context → Option String → Option String → Option String → Option ℕ → State → Outcome
issue_challenge ctx challenge_id? node_address? chunk_id? nonce? s = do
  assert_not_paused s
  assert_challenger ctx s
  challenge_id ← expect challenge_id? (argument_missing "challengeId")
  node_address ← expect node_address? (argument_missing "nodeAddress")
  chunk_id ← expect chunk_id? (argument_missing "chunkId")
  nonce ← expect nonce? (argument_missing "nonce")
  assert (not (is_some (get_challenge s challenge_id))) challenge_already_exists
  node ← expect (get_node s node_address) node_not_found
  assert node.active node_is_not_active
  ok (issued ctx challenge_id node_address chunk_id nonce node s)

-- The update of the node in `submitProof`; a node that is gone is passed over.
unfoldable pub credit_node : String → String → Bool → Option StorageNode → State → State
unfolding set_node generate_event
credit_node challenge_id caller proof_valid none s = s
credit_node challenge_id caller proof_valid (some node) s =
    if proof_valid
    then set_node (record node { passed_challenges = add64 node.passed_challenges 1 })
        (generate_event (challenge_passed challenge_id caller) s)
    else set_node node (generate_event (challenge_failed challenge_id caller) s)

unfoldable pub count_passed : ℕ → Bool → State → State
unfolding get_period_stats set_period_stats
count_passed period proof_valid s =
    let stats = get_period_stats s period in
    set_period_stats
      (if proof_valid
        then record stats { challenges_passed = add64 stats.challenges_passed 1 }
        else stats)
      s

-- The writes of `submitProof`, at the stored challenge.
unfoldable pub proved : Context → String → Bool → Challenge → State → State
proved ctx challenge_id proof_valid challenge s =
    let s1 = set_challenge (record challenge { resolved = true; passed = proof_valid }) s in
    let node = get_node s1 challenge.node_address in
    count_passed challenge.issued_period proof_valid
      (credit_node challenge_id ctx.caller proof_valid node s1)

unfoldable pub submit_proof : Context → Option String → Option (List ℕ) → State → Outcome
submit_proof ctx challenge_id? merkle_proof? s = do
  assert_not_paused s
  challenge_id ← expect challenge_id? (argument_missing "challengeId")
  merkle_proof ← expect merkle_proof? (argument_missing "merkleProof")
  challenge ← expect (get_challenge s challenge_id) challenge_not_found
  assert (not challenge.resolved) challenge_already_resolved
  assert (is_same ctx.caller challenge.node_address) caller_is_not_challenged_node
  assert (leb ctx.timestamp challenge.deadline) challenge_deadline_passed
  ok (proved ctx challenge_id (ltb 0 (length merkle_proof)) challenge s)

-- One round of the loop of `resolveExpiredChallenges`, at the challenge that is stored.
unfoldable pub expire : ℕ → String → Option Challenge → State → State
unfolding set_challenge generate_event
expire current_time id none s = s
expire current_time id (some challenge) s =
    if challenge.resolved
    then s
    else if ltb challenge.deadline current_time
    then generate_event (challenge_expired id challenge.node_address)
        (set_challenge (record challenge { resolved = true; passed = false }) s)
    else s

unfoldable pub expire_all : ℕ → List String → State → State
expire_all current_time [] s = s
expire_all current_time (id ∷ ids) s =
    expire_all current_time ids (expire current_time id (get_challenge s id) s)

unfoldable pub resolve_expired_challenges : Context → Option (List String) → State → Outcome
resolve_expired_challenges ctx challenge_ids? s = do
  challenge_ids ← expect challenge_ids? (argument_missing "challengeIds")
  ok (expire_all ctx.timestamp challenge_ids s)
