-- ===== src/Services/Bundles/Stages.antt =====
-- Which instructions are built for which status.
use photon_solana_contracts.Prelude.{
  ◌≤◌, ◌<◌, ◌≡◌, refl, true, false, Bytes, List, [], ◌∷◌, some, length, drop, map, ltb, arith,
}
use photon_solana_contracts.Prelude.Assoc.{lookup}
use photon_solana_contracts.Environment.{Environment, AccountMeta}
use photon_solana_contracts.ProtocolData.{Pubkey, converted}
use photon_solana_contracts.ProtocolData
use photon_solana_contracts.Endpoint.Step.{Instruction}
use photon_solana_contracts.Services.{success}
use photon_solana_contracts.Services.Data.{
  OperationData, SignedOperation, chain_signature, chain_operation,
}
use photon_solana_contracts.Services.OpRegistry.{
  ExecutorOpStatus, new, loaded, signed, executed, failed,
}
use photon_solana_contracts.Services.Manager.{status_index}
use photon_solana_contracts.Services.Bundles.{
  Extension, Extensions, Bundle, load_bundle, build_load_ix, build_sign_tx, build_execute_tx,
  budget_or, build_ixs, load_units, sign_units,
}

-- The operation `d` can be converted to `c`, and an extension lists `accounts` for its call.
pub record IsBuildable (env : Environment) (extensions : Extensions) (d : OperationData)
    (c : ProtocolData.OperationData) (accounts : List AccountMeta) : Type 0 where
  pub extension : Extension
  pub found : lookup d.protocol_id extensions ≡ some extension
  pub long : 3 ≤ length d.function_selector
  pub listed : extension.get_accounts (drop 2 d.function_selector) d.params ≡ success accounts
  pub readable : env.is_utf8 d.protocol_id ≡ true
  pub converts : chain_operation env d ≡ converted c

-- The three stages of an operation.
abbrev pub stages :
    Pubkey
    → Bytes
    → SignedOperation
    → ProtocolData.OperationData
    → List AccountMeta
    → List Instruction
stages executor op_hash op c accounts =
    Instruction.load_operation executor c op_hash
    ∷ Instruction.sign_operation executor op_hash (map chain_signature op.signatures)
    ∷ Instruction.execute_operation executor op_hash accounts
    ∷ []

abbrev pub instructions : List Bundle → List Instruction
instructions bundles = map (λ (b : Bundle). b.instruction) bundles

module _ (env : Environment) (extensions : Extensions) (executor : Pubkey) (op_hash : Bytes) where
  abbrev loading : ProtocolData.OperationData → Bundle
  loading c = record {
    instruction = Instruction.load_operation executor c op_hash;
    compute_units = load_units;
  }

  abbrev signing : SignedOperation → Bundle
  signing op = record {
    instruction = Instruction.sign_operation executor op_hash (map chain_signature op.signatures);
    compute_units = sign_units;
  }

  abbrev executing : Extension → OperationData → List AccountMeta → Bundle
  executing extension d accounts = record {
    instruction = Instruction.execute_operation executor op_hash accounts;
    compute_units = budget_or (extension.get_compute_budget (drop 2 d.function_selector) d.params);
  }

  load_built :
      (d : OperationData) {c : ProtocolData.OperationData} {accounts : List AccountMeta}
      → IsBuildable env extensions d c accounts
      → build_load_ix env executor op_hash d ≡ success (loading c)
  unfolding build_load_ix load_bundle
  load_built d b = rw (b.readable, b.converts) refl

  execute_built :
      (d : OperationData) {c : ProtocolData.OperationData} {accounts : List AccountMeta}
      (b : IsBuildable env extensions d c accounts)
      → build_execute_tx extensions executor op_hash d ≡ success (executing b.extension d accounts)
  unfolding build_execute_tx
  execute_built d b =
      let long : ltb (length d.function_selector) 3 ≡ false = let l = b.long in ground arith in
      rw (b.found, long, b.listed) refl

  -- Let an operation be convertible and some extension list the accounts of its call. Then for each
  -- status before execution the bundles are built, and they hold exactly the stages that the status
  -- leaves to be done, in order: load, sign and execute, or the last two, or the last.
  pub build_ixs_complete :
      (op : SignedOperation) (c : ProtocolData.OperationData) (accounts : List AccountMeta)
      (status : ExecutorOpStatus)
      → IsBuildable env extensions op.operation_data c accounts
      → status_index status < 3
      → (bundles : List Bundle) × (build_ixs env extensions executor op_hash op status
          ≡ success bundles)
        × (instructions bundles
            ≡ drop (status_index status) (stages executor op_hash op c accounts))
  unfolding build_ixs build_sign_tx status_index
  build_ixs_complete op c accounts new b early =
      let d = op.operation_data in
      (
        loading c ∷ signing op ∷ executing b.extension d accounts ∷ [],
        rw (load_built d b, execute_built d b) refl,
        refl,
      )
  build_ixs_complete op c accounts loaded b early =
      let d = op.operation_data in
      (signing op ∷ executing b.extension d accounts ∷ [], rw (execute_built d b) refl, refl)
  build_ixs_complete op c accounts signed b early =
      let d = op.operation_data in
      (executing b.extension d accounts ∷ [], rw (execute_built d b) refl, refl)
  build_ixs_complete op c accounts executed b early = absurd (omega (arith, early))
  build_ixs_complete op c accounts failed b early = absurd (omega (arith, early))
