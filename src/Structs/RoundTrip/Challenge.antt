-- ===== src/Structs/RoundTrip/Challenge.antt =====
-- Writing and reading the class of smartContract/assembly/structs/Challenge.ts.
use community_storage.Base.{ℕ, ◌+◌, ◌≡◌, List, ◌++◌, length, IsU64}
use mathlib.Core.List.{append_assoc}
use community_storage.Structs.{Challenge}
use community_storage.Structs.Args.{
  ArgsCodec, at_offset, Reads, Reads-start, Reads-string, Reads-u64, Reads-bool, Reads-end,
}
use community_storage.Structs.Serialize.{serialize_challenge, deserialize_challenge}

-- The number fields of a `Challenge` fit 64 bits.
pub record IsChallengeU64 (c : Challenge) : Type 0 where
  pub nonce_fits : IsU64 c.nonce
  pub issued_period_fits : IsU64 c.issued_period
  pub deadline_fits : IsU64 c.deadline

module _ (C : ArgsCodec) where
  serialize_challenge-append :
      (c : Challenge) (rest : List ℕ)
      → serialize_challenge C c ++ rest
        ≡ C.enc_string c.id
          ++ (C.enc_string c.node_address
              ++ (C.enc_string c.chunk_id
                  ++ (C.enc_u64 c.nonce
                      ++ (C.enc_u64 c.issued_period
                          ++ (C.enc_u64 c.deadline
                              ++ (C.enc_bool c.resolved ++ (C.enc_bool c.passed ++ rest)))))))
  unfolding serialize_challenge
  serialize_challenge-append c rest =
      simp (C.add_string_lem, C.add_u64_lem, C.add_bool_lem, append_assoc)

  challenge-Reads :
      (this c : Challenge) (b rest : List ℕ)
      → IsChallengeU64 c
      → Reads
          (deserialize_challenge C this (b ++ (serialize_challenge C c ++ rest)) (length b))
          (b ++ (serialize_challenge C c ++ rest))
          c
          rest
  unfolding deserialize_challenge
  challenge-Reads this c b rest fits = rw (serialize_challenge-append c rest) (
      Reads-bool C "passed" _ c.passed (λ v x. record x { passed = v })
        (Reads-bool C "resolved" _ c.resolved (λ v x. record x { resolved = v })
          (Reads-u64 C "deadline" _ c.deadline (λ v x. record x { deadline = v }) fits.deadline_fits
            (Reads-u64 C "issuedPeriod" _ c.issued_period (λ v x. record x { issued_period = v })
              fits.issued_period_fits
              (Reads-u64 C "nonce" _ c.nonce (λ v x. record x { nonce = v }) fits.nonce_fits
                (Reads-string C "chunkId" _ c.chunk_id (λ v x. record x { chunk_id = v })
                  (Reads-string C "nodeAddress" _ c.node_address
                    (λ v x. record x { node_address = v })
                    (Reads-string C "id" _ c.id (λ v x. record x { id = v })
                      (Reads-start this b _)))))))))

  -- Any object of the class `Challenge` whose numbers fit 64 bits is read back from where it was
  -- written, wherever that is, whatever object the fields are read into; the offset that is
  -- returned stands right behind it.
  pub challenge_round_trip :
      (this c : Challenge) (b rest : List ℕ)
      → IsChallengeU64 c
      → deserialize_challenge C this (b ++ (serialize_challenge C c ++ rest)) (length b)
        ≡ at_offset c (length b + length (serialize_challenge C c))
  challenge_round_trip this c b rest fits =
      Reads-end b (serialize_challenge C c) rest (challenge-Reads this c b rest fits)
