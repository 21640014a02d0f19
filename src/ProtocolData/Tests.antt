-- ===== src/ProtocolData/Tests.antt =====
-- The encoding of the concrete call, and the theorems applied to it.
use photon_solana_contracts.Prelude.{
  ◌≤◌, ◌≡◌, ◌↔◌, refl, Bytes, [], ◌∷◌, true, replicate, arith, ◌++◌,
}
use photon_solana_contracts.Prelude.BigEndian.{to_be_bytes}
use photon_solana_contracts.Errors.{ok}
use photon_solana_contracts.ProtocolData.{
  by_name, converted, op_data_evm, selector_evm, u64_to_bytes32, u128_to_bytes32, to_bytes,
  selector_try_from,
}
use photon_solana_contracts.ProtocolData.Encoding.{IsSized, op_data_evm-injective}
use photon_solana_contracts.ProtocolData.Selector.{selector_try_from-IsReadable}
use photon_solana_contracts.Toy.{call, protocol_id, program}

abbrev encoded : Bytes
unfolding u64_to_bytes32 u128_to_bytes32 to_be_bytes
encoded =
    protocol_id
    ++ (replicate 32 0
        ++ (u128_to_bytes32 1
            ++ (u64_to_bytes32 2
                ++ (u64_to_bytes32 3
                    ++ (u128_to_bytes32 call.dest_chain_id
                        ++ (program ++ (0 ∷ 4 ∷ 1 ∷ 2 ∷ 3 ∷ 4 ∷ 9 ∷ 9 ∷ [])))))))

encodes : op_data_evm call ≡ ok encoded
unfolding op_data_evm selector_evm encoded
encodes = refl

call-IsSized : IsSized call
call-IsSized = record {
  protocol_id_32 = refl;
  meta_32 = refl;
  src_chain_u128 = omega arith;
  block_u64 = omega arith;
  nonce_u64 = omega arith;
  dest_chain_u128 = omega arith;
  addr_32 = refl;
  selector_fits = omega arith;
}

op_data_evm-injective_example : call ≡ call
op_data_evm-injective_example =
    op_data_evm-injective call call encoded call-IsSized call-IsSized refl refl encodes encodes

selector_try_from-IsReadable_example :
    ((selector_try_from (λ b. true) (1 ∷ 2 ∷ 104 ∷ 105 ∷ []) ≡ converted (by_name (104 ∷ 105 ∷ [])))
      ↔ ((by_name (104 ∷ 105 ∷ []) ≡ by_name (104 ∷ 105 ∷ [])) × (true ≡ true)))
    × (4 ≤ 34)
unfolding to_bytes
selector_try_from-IsReadable_example =
    selector_try_from-IsReadable (λ b. true) (by_name (104 ∷ 105 ∷ [])) (by_name (104 ∷ 105 ∷ []))
      refl
