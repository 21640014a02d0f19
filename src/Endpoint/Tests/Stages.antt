-- ===== src/Endpoint/Tests/Stages.antt =====
-- The three stages of the concrete call, with both signatures.
use photon_solana_contracts.Prelude.{
  ℕ, ◌≡◌, ◌≢◌, refl, false, Bytes, [], ◌∷◌, some, arith, bytes_eq, contains,
}
use photon_solana_contracts.Prelude.Assoc.{lookup}
use photon_solana_contracts.Slots.{active}
use photon_solana_contracts.ProtocolData.{ecrecover, derive_eth_address, OpStatus}
use photon_solana_contracts.State.{OpInfo, transmitters}
use photon_solana_contracts.Endpoint.Accounts.{check_seed, protocol_account}
use photon_solana_contracts.Endpoint.Load.Effects.{load_operation-effect}
use photon_solana_contracts.Endpoint.Sign.{consensus_rate}
use photon_solana_contracts.Endpoint.Step.{run}
use photon_solana_contracts.Endpoint.Step.Execution.{run-executes}
use photon_solana_contracts.Endpoint.Tests.{hash, history, signatures, load_runs}
use photon_solana_contracts.Toy.{env, initial, call, executor, program, alice, bob, info}

differ : (m n : ℕ) → m ≢ n → (x : Bytes) (y : Bytes) → ◌≢◌ {A = Bytes} (m ∷ x) (n ∷ y)
differ m n h x y e = absurd (h (cc e))

run-executes_example :
    (op : OpInfo) × (lookup hash (run env initial history).ops ≡ some op)
    × (op.op_data ≡ call)
    × (op.status ≡ OpStatus.executed)
unfolding protocol_account check_seed lookup bytes_eq contains transmitters active consensus_rate
    ecrecover derive_eth_address
run-executes_example =
    run-executes env executor call hash info initial signatures (alice ∷ bob ∷ [])
      (record { key = program; is_signer = false; is_writable = false }) []
      (load_operation-effect env executor call hash initial load_runs).0 refl refl refl
      (omega arith) (omega arith) (refl, (refl, tt)) (refl, (refl, tt)) (refl, (refl, tt))
      (omega arith) (omega arith) refl (differ 5 1 (omega arith) _ _) (λ e. absurd (cc e))
      (λ ix _. refl)
