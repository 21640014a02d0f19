-- ===== src/Gov/Tests.antt =====
-- The governance operations on the concrete protocol, and the theorems applied to them.
use photon_solana_contracts.Prelude.{
  ℕ, ◌<◌, ◌≡◌, ◌≢◌, refl, ap, false, ◌||◌, Bytes, [], ◌∷◌, none, arith, replicate, contains, length,
  bytes_eq, if◌then◌else◌,
}
use photon_solana_contracts.Errors.{ok, ◌>>=◌}
use photon_solana_contracts.Slots.{
  store, assign_from, assign, without, without_all, active, dedup, dedup_after,
}
use photon_solana_contracts.Slots.Laws.{padded, AreDistinct}
use photon_solana_contracts.Slots.Packed.{IsPacked-padded}
use photon_solana_contracts.State.{
  ProtocolInfo, transmitters, executors, max_executors, max_proposers, max_transmitters,
  default_config,
}
use photon_solana_contracts.ProtocolData.{
  Pubkey, EthAddress, default_eth_address, default_pubkey, gov_protocol_id,
}
use photon_solana_contracts.Gov.Operation.{GovOperation, decode_abi_params, token_at, pubkey_of}
use photon_solana_contracts.Gov.Members.{
  key_param, add_executor, add_executor_key, remove_executor, remove_executor_key, store_executors,
  store_transmitters, add_transmitters_impl, remove_transmitters_impl,
}
use photon_solana_contracts.Gov.Members.Executors.{remove_executor-keeps_one}
use photon_solana_contracts.Gov.Members.Transmitters.{
  add_transmitters_impl-members, add_transmitters_impl-duplicate,
}
use photon_solana_contracts.Gov.Validity.{IsValidInfo}
use photon_solana_contracts.Gov.Dispatch.{run_gov_operation}
use photon_solana_contracts.Gov.Dispatch.Invariant.{run_gov_operation-IsValidInfo}
use photon_solana_contracts.Gov.Dispatch.Rates.{IsRate, run_gov_operation-IsRate}
use photon_solana_contracts.Toy.{env, call, executor, alice, bob, info}

differ : (m n : ℕ) → m ≢ n → (x : Bytes) (y : Bytes) → ◌≢◌ {A = Bytes} (m ∷ x) (n ∷ y)
differ m n h x y e = absurd (h (cc e))

abbrev carol : EthAddress
carol = replicate 20 10

abbrev newcomer : Pubkey
newcomer = replicate 32 11

abbrev two_executors : ProtocolInfo
two_executors = record info { executor_slots = padded 20 default_pubkey (executor ∷ newcomer ∷ []) }

abbrev adding : Bytes
adding = 0xe0 ∷ 0xaa ∷ 0xfb ∷ 0x68 ∷ []

abbrev three_transmitters : ProtocolInfo
three_transmitters = record info {
  transmitter_slots = padded 20 default_eth_address (alice ∷ bob ∷ carol ∷ []);
}

info_IsValidInfo : IsValidInfo info
unfolding contains
info_IsValidInfo = record {
  executors_packed =
      IsPacked-padded max_executors default_pubkey (executor ∷ [])
        (differ 4 0 (omega arith) _ _, tt) (refl, tt) (omega arith);
  proposers_packed = IsPacked-padded max_proposers default_pubkey [] tt tt (omega arith);
  transmitters_sized = refl;
}

adds : add_executor env newcomer info ≡ ok two_executors
unfolding add_executor key_param decode_abi_params token_at pubkey_of add_executor_key
    store_executors executors active store assign_from assign bytes_eq contains
adds = refl

removes : remove_executor env newcomer gov_protocol_id two_executors ≡ ok info
unfolding remove_executor key_param decode_abi_params token_at pubkey_of remove_executor_key
    store_executors executors active without store assign_from assign bytes_eq contains
removes = refl

dispatches :
    run_gov_operation env GovOperation.add_executor default_config info
      (record call { params = newcomer })
    ≡ ok (two_executors, default_config, none)
unfolding run_gov_operation
dispatches = ap (λ r. r >>= λ i. ok (i, default_config, none)) adds

run_gov_operation-IsValidInfo_example : IsValidInfo two_executors
run_gov_operation-IsValidInfo_example =
    run_gov_operation-IsValidInfo env GovOperation.add_executor default_config info
      (record call { params = newcomer }) info_IsValidInfo dispatches

run_gov_operation-IsRate_example : IsRate two_executors.consensus_target_rate
run_gov_operation-IsRate_example =
    run_gov_operation-IsRate env GovOperation.add_executor default_config info
      (record call { params = newcomer }) (omega arith, omega arith) dispatches

remove_executor-keeps_one_example :
    (executors info ≢ [])
    × ((key : Pubkey) × (key_param env newcomer ≡ ok key)
        × ((b : Pubkey)
            → contains (executors info) b
              ≡ (if bytes_eq b key then false else contains (executors two_executors) b)))
unfolding executors active bytes_eq
remove_executor-keeps_one_example =
    remove_executor-keeps_one env newcomer two_executors (omega arith) removes

adds_carol : add_transmitters_impl (carol ∷ []) info ≡ ok three_transmitters
unfolding add_transmitters_impl store_transmitters transmitters active store assign_from assign
    bytes_eq dedup dedup_after
adds_carol = refl

removes_carol : remove_transmitters_impl (carol ∷ []) three_transmitters ≡ ok info
unfolding remove_transmitters_impl store_transmitters transmitters active without_all store
    assign_from assign bytes_eq contains
removes_carol = refl

add_transmitters_impl-members_example :
    ((a : EthAddress)
      → contains (transmitters three_transmitters) a
        ≡ (contains (transmitters info) a || contains (carol ∷ []) a))
    × (length (transmitters three_transmitters) < max_transmitters)
    × (three_transmitters
        ≡ record info { transmitter_slots = three_transmitters.transmitter_slots })
add_transmitters_impl-members_example =
    add_transmitters_impl-members (carol ∷ []) info (differ 10 0 (omega arith) _ _, tt) adds_carol

add_transmitters_impl-duplicate_example :
    (r : ProtocolInfo) × (add_transmitters_impl (alice ∷ []) info ≡ ok r)
    × (transmitters r ≡ alice ∷ bob ∷ alice ∷ [])
    × (¬ AreDistinct (transmitters r))
unfolding transmitters active bytes_eq contains
add_transmitters_impl-duplicate_example =
    add_transmitters_impl-duplicate (alice ∷ []) bob alice info refl (refl, (refl, tt)) refl
      (omega arith) (differ 6 0 (omega arith) _ _)
