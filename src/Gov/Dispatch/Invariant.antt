-- ===== src/Gov/Dispatch/Invariant.antt =====
-- The slot arrays of a protocol stay well formed under every governance operation.
use photon_solana_contracts.Prelude.{
  ◌≡◌, refl, sym, ap, not, length, ◌∙◌, subst, Bytes, Bool, true, false, if◌then◌else◌, arith,
}
use photon_solana_contracts.Errors.{
  Result, ok, err, require, custom, no_transmitters_allowed, invalid_gov_msg, ok_or, ◌>>=◌,
  >>=-eq-ok, ok-injective,
}
use photon_solana_contracts.Environment.{Environment}
use photon_solana_contracts.Slots.{assign_from, is_empty}
use photon_solana_contracts.Slots.Packed.{IsPacked}
use photon_solana_contracts.Slots.Laws.{assign_from-length}
use photon_solana_contracts.ProtocolData.{OperationData, default_pubkey}
use photon_solana_contracts.State.{
  max_executors, max_proposers, max_transmitters, Config, ProtocolInfo, ProposeEvent,
}
use photon_solana_contracts.Gov.Operation.{
  GovOperation, decode_abi_params, abi_decode_scheme, token_at, uint_of, id_uint_and_addresses,
}
use photon_solana_contracts.Gov.Protocols.{
  check_consensus_target_rate, addresses_of, propose_handle_add_allowed_protocol,
  add_allowed_protocol, add_allowed_protocol_address, remove_allowed_protocol_address,
  set_consensus_target_rate,
}
use photon_solana_contracts.Gov.Members.{
  add_executor, remove_executor, add_allowed_proposer_address, remove_allowed_proposer_address,
  add_transmitters, remove_transmitters, update_transmitters, key_param, get_transmitters_to_add,
  get_transmitters_to_remove, remove_transmitters_impl,
}
use photon_solana_contracts.Gov.Validity.{
  IsValidInfo, add_executor_key-IsValidInfo, remove_executor_key-IsValidInfo,
  add_proposer_key-IsValidInfo, remove_proposer_key-IsValidInfo, add_transmitters_impl-IsValidInfo,
  remove_transmitters_impl-IsValidInfo,
}
use photon_solana_contracts.Gov.Dispatch.{GovResult, info_only, run_gov_operation}

-- What `add_allowed_protocol` returns.
abbrev Outcome : Type 0
Outcome = ProtocolInfo × Config × ProposeEvent

same_slots :
    (info r : ProtocolInfo)
    → r.executor_slots ≡ info.executor_slots
    → r.proposer_slots ≡ info.proposer_slots
    → r.transmitter_slots ≡ info.transmitter_slots
    → IsValidInfo info
    → IsValidInfo r
same_slots info r ex pr tr v = record {
  executors_packed = subst (IsPacked max_executors default_pubkey) (sym ex) v.executors_packed;
  proposers_packed = subst (IsPacked max_proposers default_pubkey) (sym pr) v.proposers_packed;
  transmitters_sized = ap length tr ∙ v.transmitters_sized;
}

info_only-IsValidInfo :
    (config : Config) (m : Result ProtocolInfo) {r : GovResult}
    → info_only config m ≡ ok r
    → ((s : ProtocolInfo) → m ≡ ok s → IsValidInfo s)
    → IsValidInfo r.0
info_only-IsValidInfo config (ok s) e h =
    subst (λ (t : GovResult). IsValidInfo t.0) (ok-injective e) (h s refl)
info_only-IsValidInfo config (err f) e h = absurd (cc)

remove_allowed_protocol_address-IsValidInfo :
    (info : ProtocolInfo) {r : ProtocolInfo}
    → IsValidInfo info
    → ok (remove_allowed_protocol_address info) ≡ ok r
    → IsValidInfo r
unfolding remove_allowed_protocol_address
remove_allowed_protocol_address-IsValidInfo info v d =
    same_slots info _ (ground arith) (ground arith) (ground arith) v

module _ (env : Environment) where
  add_allowed_protocol-IsValidInfo :
      (calldata : Bytes) (info : ProtocolInfo) (config config' : Config) (event : ProposeEvent)
      {r : ProtocolInfo}
      → IsValidInfo info
      → add_allowed_protocol env calldata info config ≡ ok (r, config', event)
      → IsValidInfo r
  unfolding add_allowed_protocol
  add_allowed_protocol-IsValidInfo calldata info config config' event {r} v e =
      let (params, _, e1) =
        >>=-eq-ok (decode_abi_params env calldata (id_uint_and_addresses env)) _ e in
      let (rate, _, e2) = >>=-eq-ok (token_at env params 1 >>= uint_of env) _ e1 in
      let (_, _, e3) = >>=-eq-ok (check_consensus_target_rate rate) _ e2 in
      let (third, _, e4) = >>=-eq-ok (token_at env params 2) _ e3 in
      let (tokens, _, e5) =
        >>=-eq-ok (ok_or (env.into_array third) (custom invalid_gov_msg)) _ e4 in
      let (addresses, _, e6) = >>=-eq-ok (addresses_of env tokens) _ e5 in
      let (slots, stored, e7) = >>=-eq-ok (assign_from 0 addresses info.transmitter_slots) _ e6 in
      let (event, _, e8) = >>=-eq-ok (propose_handle_add_allowed_protocol env params config) _ e7 in
      let same = ok-injective e8 in
      record {
        executors_packed =
            subst (IsPacked max_executors default_pubkey)
              (ap (λ (t : Outcome). t.0.executor_slots) same) v.executors_packed;
        proposers_packed =
            subst (IsPacked max_proposers default_pubkey)
              (ap (λ (t : Outcome). t.0.proposer_slots) same) v.proposers_packed;
        transmitters_sized =
            subst (λ s. length s ≡ max_transmitters)
              (ap (λ (t : Outcome). t.0.transmitter_slots) same)
              (assign_from-length 0 addresses info.transmitter_slots stored ∙ v.transmitters_sized);
      }

  add_executor-IsValidInfo :
      (calldata : Bytes) (info : ProtocolInfo) {r : ProtocolInfo}
      → IsValidInfo info
      → add_executor env calldata info ≡ ok r
      → IsValidInfo r
  unfolding add_executor
  add_executor-IsValidInfo calldata info v e =
      let (key, _, e') = >>=-eq-ok (key_param env calldata) _ e in
      add_executor_key-IsValidInfo key info v e'

  remove_executor-IsValidInfo :
      (calldata : Bytes) (id : Bytes) (info : ProtocolInfo) {r : ProtocolInfo}
      → IsValidInfo info
      → remove_executor env calldata id info ≡ ok r
      → IsValidInfo r
  unfolding remove_executor
  remove_executor-IsValidInfo calldata id info v e =
      let (key, _, e') = >>=-eq-ok (key_param env calldata) _ e in
      remove_executor_key-IsValidInfo key id info v e'

  add_allowed_proposer_address-IsValidInfo :
      (calldata : Bytes) (info : ProtocolInfo) {r : ProtocolInfo}
      → IsValidInfo info
      → add_allowed_proposer_address env calldata info ≡ ok r
      → IsValidInfo r
  unfolding add_allowed_proposer_address
  add_allowed_proposer_address-IsValidInfo calldata info v e =
      let (key, _, e') = >>=-eq-ok (key_param env calldata) _ e in
      add_proposer_key-IsValidInfo key info v e'

  remove_allowed_proposer_address-IsValidInfo :
      (calldata : Bytes) (info : ProtocolInfo) {r : ProtocolInfo}
      → IsValidInfo info
      → remove_allowed_proposer_address env calldata info ≡ ok r
      → IsValidInfo r
  unfolding remove_allowed_proposer_address
  remove_allowed_proposer_address-IsValidInfo calldata info v e =
      let (key, _, e') = >>=-eq-ok (key_param env calldata) _ e in
      remove_proposer_key-IsValidInfo key info v e'

  add_transmitters-IsValidInfo :
      (calldata : Bytes) (info : ProtocolInfo) {r : ProtocolInfo}
      → IsValidInfo info
      → add_transmitters env calldata info ≡ ok r
      → IsValidInfo r
  unfolding add_transmitters
  add_transmitters-IsValidInfo calldata info v e =
      let (params, _, e1) =
        >>=-eq-ok
          (decode_abi_params env calldata (abi_decode_scheme env GovOperation.add_transmitters)) _
          e in
      let (to_add, _, e2) =
        >>=-eq-ok (token_at env params 1 >>= get_transmitters_to_add env) _ e1 in
      let (_, _, e3) =
        >>=-eq-ok (require (not (is_empty to_add)) (custom no_transmitters_allowed)) _ e2 in
      add_transmitters_impl-IsValidInfo to_add info v e3

  remove_transmitters-IsValidInfo :
      (calldata : Bytes) (info : ProtocolInfo) {r : ProtocolInfo}
      → IsValidInfo info
      → remove_transmitters env calldata info ≡ ok r
      → IsValidInfo r
  unfolding remove_transmitters
  remove_transmitters-IsValidInfo calldata info v e =
      let (params, _, e1) =
        >>=-eq-ok
          (decode_abi_params env calldata (abi_decode_scheme env GovOperation.remove_transmitters))
          _ e in
      let (to_remove, _, e2) =
        >>=-eq-ok (token_at env params 1 >>= get_transmitters_to_remove env) _ e1 in
      remove_transmitters_impl-IsValidInfo to_remove info v e2

  -- A step that is skipped, or keeps the invariant.
  if_needed-IsValidInfo :
      (skip : Bool) (info : ProtocolInfo) (m : Result ProtocolInfo) {r : ProtocolInfo}
      → IsValidInfo info
      → ((s : ProtocolInfo) → m ≡ ok s → IsValidInfo s)
      → (if skip then ok info else m) ≡ ok r
      → IsValidInfo r
  if_needed-IsValidInfo true info m v h e = subst IsValidInfo (ok-injective e) v
  if_needed-IsValidInfo false info m {r} v h e = h r e

  update_transmitters-IsValidInfo :
      (calldata : Bytes) (info : ProtocolInfo) {r : ProtocolInfo}
      → IsValidInfo info
      → update_transmitters env calldata info ≡ ok r
      → IsValidInfo r
  unfolding update_transmitters
  update_transmitters-IsValidInfo calldata info v e =
      let (params, _, e1) =
        >>=-eq-ok
          (decode_abi_params env calldata (abi_decode_scheme env GovOperation.update_transmitters))
          _ e in
      let (to_remove, _, e2) =
        >>=-eq-ok (token_at env params 2 >>= get_transmitters_to_remove env) _ e1 in
      let (removed, d, e3) =
        >>=-eq-ok (if is_empty to_remove then ok info else remove_transmitters_impl to_remove info)
          _ e2 in
      let (to_add, _, e4) =
        >>=-eq-ok (token_at env params 1 >>= get_transmitters_to_add env) _ e3 in
      let v' : IsValidInfo removed =
        if_needed-IsValidInfo (is_empty to_remove) info _ v
          (λ s h. remove_transmitters_impl-IsValidInfo to_remove info v h) d in
      if_needed-IsValidInfo (is_empty to_add) removed _ v'
        (λ s h. add_transmitters_impl-IsValidInfo to_add removed v' h) e4

  add_allowed_protocol_address-IsValidInfo :
      (calldata : Bytes) (info : ProtocolInfo) {r : ProtocolInfo}
      → IsValidInfo info
      → add_allowed_protocol_address env calldata info ≡ ok r
      → IsValidInfo r
  unfolding add_allowed_protocol_address
  add_allowed_protocol_address-IsValidInfo calldata info v e =
      same_slots info _ (ground arith) (ground arith) (ground arith) v

  set_consensus_target_rate-IsValidInfo :
      (calldata : Bytes) (info : ProtocolInfo) {r : ProtocolInfo}
      → IsValidInfo info
      → set_consensus_target_rate env calldata info ≡ ok r
      → IsValidInfo r
  unfolding set_consensus_target_rate
  set_consensus_target_rate-IsValidInfo calldata info v e =
      same_slots info _ (ground arith) (ground arith) (ground arith) v

  -- Whatever operation succeeds, the protocol's slot arrays are well formed after it if they were
  -- before it.
  pub run_gov_operation-IsValidInfo :
      (g : GovOperation) (config : Config) (info : ProtocolInfo) (op : OperationData)
      {r : GovResult}
      → IsValidInfo info
      → run_gov_operation env g config info op ≡ ok r
      → IsValidInfo r.0
  unfolding run_gov_operation
  run_gov_operation-IsValidInfo GovOperation.add_allowed_protocol config info op v e =
      let ((info', config', event), done, e') =
        >>=-eq-ok (add_allowed_protocol env op.params info config) _ e in
      subst (λ (t : GovResult). IsValidInfo t.0) (ok-injective e')
        (add_allowed_protocol-IsValidInfo op.params info config config' event v done)
  run_gov_operation-IsValidInfo GovOperation.add_allowed_protocol_address config info op v e =
      info_only-IsValidInfo config (add_allowed_protocol_address env op.params info) e
        (λ s d. add_allowed_protocol_address-IsValidInfo op.params info v d)
  run_gov_operation-IsValidInfo GovOperation.remove_allowed_protocol_address config info op v e =
      info_only-IsValidInfo config (ok (remove_allowed_protocol_address info)) e
        (λ s d. remove_allowed_protocol_address-IsValidInfo info v d)
  run_gov_operation-IsValidInfo GovOperation.add_allowed_proposer_address config info op v e =
      info_only-IsValidInfo config (add_allowed_proposer_address env op.params info) e
        (λ s d. add_allowed_proposer_address-IsValidInfo op.params info v d)
  run_gov_operation-IsValidInfo GovOperation.remove_allowed_proposer_address config info op v e =
      info_only-IsValidInfo config (remove_allowed_proposer_address env op.params info) e
        (λ s d. remove_allowed_proposer_address-IsValidInfo op.params info v d)
  run_gov_operation-IsValidInfo GovOperation.add_executor config info op v e =
      info_only-IsValidInfo config (add_executor env op.params info) e
        (λ s d. add_executor-IsValidInfo op.params info v d)
  run_gov_operation-IsValidInfo GovOperation.remove_executor config info op v e =
      info_only-IsValidInfo config (remove_executor env op.params op.protocol_id info) e
        (λ s d. remove_executor-IsValidInfo op.params op.protocol_id info v d)
  run_gov_operation-IsValidInfo GovOperation.add_transmitters config info op v e =
      info_only-IsValidInfo config (add_transmitters env op.params info) e
        (λ s d. add_transmitters-IsValidInfo op.params info v d)
  run_gov_operation-IsValidInfo GovOperation.remove_transmitters config info op v e =
      info_only-IsValidInfo config (remove_transmitters env op.params info) e
        (λ s d. remove_transmitters-IsValidInfo op.params info v d)
  run_gov_operation-IsValidInfo GovOperation.update_transmitters config info op v e =
      info_only-IsValidInfo config (update_transmitters env op.params info) e
        (λ s d. update_transmitters-IsValidInfo op.params info v d)
  run_gov_operation-IsValidInfo GovOperation.set_consensus_target_rate config info op v e =
      info_only-IsValidInfo config (set_consensus_target_rate env op.params info) e
        (λ s d. set_consensus_target_rate-IsValidInfo op.params info v d)
