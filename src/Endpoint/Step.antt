-- ===== src/Endpoint/Step.antt =====
-- The program as a transition system: one transaction with one instruction. A failed instruction
-- is reverted by the runtime and leaves the state as it was.
pub mod Moves
pub mod Lifecycle
pub mod Approval
pub mod Nonces
pub mod Stuck
pub mod Execution
use photon_solana_contracts.Prelude.{ℕ, Bytes, List, [], ◌∷◌}
use photon_solana_contracts.Errors.{Result, ok, err, ◌>>=◌}
use photon_solana_contracts.Environment.{Environment, AccountMeta}
use photon_solana_contracts.ProtocolData.{
  Pubkey, EthAddress, OperationData, TransmitterSignature, FunctionSelector,
}
use photon_solana_contracts.State.{System}
use photon_solana_contracts.Endpoint.Setup
use photon_solana_contracts.Endpoint.Load
use photon_solana_contracts.Endpoint.Sign
use photon_solana_contracts.Endpoint.Execute
use photon_solana_contracts.Endpoint.Proposal
use photon_solana_contracts.Endpoint.Receive

-- The instructions of `#[program] mod photon`. The first key of each is its signer, and of
-- `receive_photon_msg` the first two.
pub data Instruction : Type 0 where
  initialize : Pubkey → ℕ → Bytes → ℕ → List EthAddress → List Pubkey → Instruction
  load_operation : Pubkey → OperationData → Bytes → Instruction
  sign_operation : Pubkey → Bytes → List TransmitterSignature → Instruction
  execute_operation : Pubkey → Bytes → List AccountMeta → Instruction
  propose : Pubkey → Bytes → ℕ → Bytes → FunctionSelector → Bytes → Instruction
  receive_photon_msg : Pubkey → Pubkey → Bytes → Bytes → Bytes → Instruction
  set_admin : Pubkey → Pubkey → Instruction

module _ (env : Environment) where
  unfoldable pub process : Instruction → System → Result System
  process (initialize a c m r ts es) s = Setup.initialize env a c m r ts es s
  process (load_operation x d h) s = Load.load_operation env x d h s
  process (sign_operation x h sigs) s = Sign.sign_operation env x h sigs s >>= λ r. ok r.1
  process (execute_operation x h rest) s = Execute.execute_operation env x h rest s
  process (propose x p c a f ps) s = Proposal.propose x p c a f ps s
  process (receive_photon_msg x c h code ps) s = Receive.receive_photon_msg env x c h code ps s
  process (set_admin x a) s = Setup.set_admin env x a s

  -- A transaction.
  unfoldable pub step : System → Instruction → System
  step s i = elim (process i s) [ ok s' ↦ s' | err e ↦ s ]

  -- A history of transactions.
  unfoldable pub run : System → List Instruction → System
  run s [] = s
  run s (i ∷ is) = run (step s i) is
