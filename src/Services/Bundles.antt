-- ===== src/Services/Bundles.antt =====
-- What the executor sends for an operation (transmitter-module/src/executor_app/operation_manager.rs,
-- `build_ixs` and the three builders) and the protocol extensions that it asks for accounts
-- (extension_manager.rs). A bundle holds the program's instruction with its arguments; its derived
-- accounts are those of the seeds in the arguments. What the shared libraries give is a parameter.
pub mod Stages
pub mod Delivery
use photon_solana_contracts.Prelude.{
  ℕ, Bool, true, false, Bytes, List, [], ◌∷◌, Option, none, some, length, drop, map, ltb,
  if◌then◌else◌,
}
use photon_solana_contracts.Prelude.Assoc.{lookup}
use photon_solana_contracts.Environment.{Environment, AccountMeta}
use photon_solana_contracts.ProtocolData.{Pubkey, Conversion, converted, rejected, aborted}
use photon_solana_contracts.ProtocolData
use photon_solana_contracts.Endpoint.Step.{Instruction}
use photon_solana_contracts.Services.{
  Answer, success, failure, malformed_data, extension_mng, abort, ◌>>=◌, answer_or,
}
use photon_solana_contracts.Services.Data.{
  OperationData, SignedOperation, chain_signature, chain_operation,
}
use photon_solana_contracts.Services.OpRegistry.{ExecutorOpStatus}

-- `ProtocolExtension`: what it answers for the bytes of a selector and the parameters.
pub record Extension : Type 0 where
  pub get_accounts : Bytes → Bytes → Answer (List AccountMeta)
  pub get_compute_budget : Bytes → Bytes → Option ℕ

-- `extensions` of `ExtensionManagerImpl`
abbrev pub Extensions : Type 0
Extensions = List (Bytes × Extension)

-- `load_extensions`: `open` stands for loading the library at a path and asking it for its protocol
-- and its extension.
module _ {Location : Type 0} (open_library : Location → Option (Bytes × Extension)) where
  unfoldable pub load_extensions : List Location → Extensions → Answer Extensions
  load_extensions [] extensions = success extensions
  load_extensions (path ∷ paths) extensions = do
    (protocol_id, extension) ← answer_or (open_library path) extension_mng
    elim (lookup protocol_id extensions) [
      | none ↦ load_extensions paths ((protocol_id, extension) ∷ extensions)
      | some present ↦ failure extension_mng
    ]

  -- `on_update_extensions`: a failure leaves the ones that are loaded.
  unfoldable pub on_update_extensions : List Location → Extensions → Extensions
  on_update_extensions paths extensions = elim (load_extensions paths []) [
    | success loaded ↦ loaded
    | failure reason ↦ extensions
  ]

-- `InstructionBundle`
pub record Bundle : Type 0 where
  pub instruction : Instruction
  pub compute_units : ℕ

abbrev pub load_units : ℕ
load_units = 200000

abbrev pub sign_units : ℕ
sign_units = 400000

abbrev pub execute_units : ℕ
execute_units = 200000

unfoldable pub budget_or : Option ℕ → ℕ
budget_or none = execute_units
budget_or (some units) = units

-- `map_err` of the conversion.
unfoldable pub load_bundle : Pubkey → Bytes → Conversion ProtocolData.OperationData → Answer Bundle
load_bundle executor op_hash (converted d) = success (record {
  instruction = Instruction.load_operation executor d op_hash;
  compute_units = load_units;
})
load_bundle executor op_hash (rejected bytes) = failure malformed_data
load_bundle executor op_hash aborted = failure abort

unfoldable pub build_sign_tx : Pubkey → Bytes → SignedOperation → Answer Bundle
build_sign_tx executor op_hash op = success (record {
  instruction = Instruction.sign_operation executor op_hash (map chain_signature op.signatures);
  compute_units = sign_units;
})

unfoldable pub build_execute_tx : Extensions → Pubkey → Bytes → OperationData → Answer Bundle
build_execute_tx extensions executor op_hash d = do
  extension ← answer_or (lookup d.protocol_id extensions) extension_mng
  if ltb (length d.function_selector) 3 then failure malformed_data else do
    let selector = drop 2 d.function_selector
    accounts ← extension.get_accounts selector d.params
    success (record {
      instruction = Instruction.execute_operation executor op_hash accounts;
      compute_units = budget_or (extension.get_compute_budget selector d.params);
    })

module _ (env : Environment) where
  unfoldable pub build_load_ix : Pubkey → Bytes → OperationData → Answer Bundle
  build_load_ix executor op_hash d =
      if env.is_utf8 d.protocol_id
      then load_bundle executor op_hash (chain_operation env d)
      else failure malformed_data

  -- The instructions that are still to be sent; no other status may come here.
  unfoldable pub build_ixs :
      Extensions → Pubkey → Bytes → SignedOperation → ExecutorOpStatus → Answer (List Bundle)
  build_ixs extensions payer op_hash op ExecutorOpStatus.new = do
    load ← build_load_ix payer op_hash op.operation_data
    sign ← build_sign_tx payer op_hash op
    execute ← build_execute_tx extensions payer op_hash op.operation_data
    success (load ∷ sign ∷ execute ∷ [])
  build_ixs extensions payer op_hash op ExecutorOpStatus.loaded = do
    sign ← build_sign_tx payer op_hash op
    execute ← build_execute_tx extensions payer op_hash op.operation_data
    success (sign ∷ execute ∷ [])
  build_ixs extensions payer op_hash op ExecutorOpStatus.signed = do
    execute ← build_execute_tx extensions payer op_hash op.operation_data
    success (execute ∷ [])
  build_ixs extensions payer op_hash op ExecutorOpStatus.executed = failure abort
  build_ixs extensions payer op_hash op ExecutorOpStatus.failed = failure abort
