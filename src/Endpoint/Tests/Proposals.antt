-- ===== src/Endpoint/Tests/Proposals.antt =====
-- Two proposals on the concrete system, of which the second comes from a stranger.
use photon_solana_contracts.Prelude.{◌≡◌, List, [], ◌∷◌, ◌++◌}
use photon_solana_contracts.ProtocolData.{by_code, default_pubkey}
use photon_solana_contracts.Slots.Laws.{padded}
use photon_solana_contracts.State.{System, Event}
use photon_solana_contracts.Endpoint.Step.{Instruction, run}
use photon_solana_contracts.Endpoint.Step.Nonces.Counting.{IsNumbered, nonce_of, nonces}
use photon_solana_contracts.Endpoint.Step.Nonces.{run-Numbered}
use photon_solana_contracts.Toy.{env, initial, executor, program, protocol_id, info}

abbrev proposing : System
proposing = record initial {
  protocols =
      (protocol_id, record info { proposer_slots = padded 20 default_pubkey (executor ∷ []) }) ∷ [];
}

abbrev proposals : List Instruction
proposals =
    Instruction.propose executor protocol_id 1 program (by_code (1 ∷ [])) []
    ∷ Instruction.propose program protocol_id 1 program (by_code (1 ∷ [])) []
    ∷ Instruction.propose executor protocol_id 2 program (by_code (2 ∷ [])) (7 ∷ [])
    ∷ []

run-Numbered_example :
    (new_events : List Event) × ((run env proposing proposals).events
      ≡ proposing.events ++ new_events)
    × IsNumbered (nonce_of proposing) (nonce_of (run env proposing proposals)) (nonces new_events)
run-Numbered_example = run-Numbered env proposals proposing
