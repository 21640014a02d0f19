-- ===== src/Services/Manager.antt =====
-- `process_operation` (transmitter-module/src/executor_app/operation_manager.rs): the loop that
-- brings one operation to its end. What a pass of the loop learns from outside is a `Round`.
pub mod Repeats
pub mod Rounds
pub mod Chain
use photon_solana_contracts.Prelude.{
  ℕ, ◌+◌, Bool, true, false, ◌&&◌, ◌||◌, Bytes, List, [], ◌∷◌, Option, none, some, leb, ◌==◌,
  if◌then◌else◌,
}
use photon_solana_contracts.ProtocolData.{OpStatus}
use photon_solana_contracts.Services.{ServiceError, Answer, success, failure, malformed_data, ◌>>=◌}
use photon_solana_contracts.Services.OpRegistry.{
  ExecutorOpStatus, new, loaded, signed, executed, failed, executor_status, OpAcknowledge,
}

-- The account of the operation as it was read: missing, or with data that may not deserialize.
pub data OpAccount : Type 0 where
  missing malformed : OpAccount
  stored : OpStatus → OpAccount

unfoldable pub get_op_status : OpAccount → Answer ExecutorOpStatus
get_op_status missing = success new
get_op_status malformed = failure malformed_data
get_op_status (stored status) = success (executor_status status)

-- `is_funded` is the answer of `check_balance_and_suspend`, `sent` that of `send_all_instructions`.
pub record Round : Type 0 where
  pub is_funded : Bool
  pub account : OpAccount
  pub sent : Answer (Unit {0})

-- The statuses in the order in which an operation goes through them.
unfoldable pub status_index : ExecutorOpStatus → ℕ
status_index new = 0
status_index loaded = 1
status_index signed = 2
status_index executed = 3
status_index failed = 4

unfoldable pub status_eq : ExecutorOpStatus → ExecutorOpStatus → Bool
status_eq a b = status_index a == status_index b

-- `last_op_status`: the status that was read last, with how often it was read again since.
pub record Attempts : Type 0 where
  pub last : Option ExecutorOpStatus
  pub attempts : ℕ

abbrev pub no_attempts : Attempts
no_attempts = record { last = none; attempts = 0 }

unfoldable pub is_last : Option ExecutorOpStatus → ExecutorOpStatus → Bool
is_last none status = false
is_last (some value) status = status_eq value status

-- The `match` on `last_op_status`, and the status with which the pass goes on.
unfoldable pub count_attempt : ExecutorOpStatus → Attempts → Attempts
count_attempt status before =
    if is_last before.last status
    then record before { attempts = before.attempts + 1 }
    else record { last = some status; attempts = 0 }

unfoldable pub effective_status : ℕ → ExecutorOpStatus → Attempts → ExecutorOpStatus
effective_status executor_attempts status before =
    if is_last before.last status && leb executor_attempts (before.attempts + 1)
    then failed
    else status

unfoldable pub is_final : ExecutorOpStatus → Bool
is_final status = status_eq executed status || status_eq failed status

-- How the loop ends: `waiting` where no pass of the list ends it, `unread` where the status cannot
-- be read, which is no error and sends no acknowledgement.
pub data Outcome : Type 0 where
  waiting : Attempts → Outcome
  acknowledged : OpAcknowledge → Outcome
  unread : Outcome
  stopped : ServiceError → Outcome

module _ {Bundles : Type 0} (executor_attempts : ℕ) (build : ExecutorOpStatus → Answer Bundles)
    (block_number : ℕ) (op_hash : Bytes) where
  -- `build_ixs` and `send_all_instructions`; `rest` goes on with the loop.
  unfoldable pub send_round : ExecutorOpStatus → Answer (Unit {0}) → Outcome → Outcome
  send_round status sent rest = elim (build status >>= λ bundles. sent) [
    | failure reason ↦ stopped reason
    | success done ↦ rest
  ]

  -- The pass after the status was asked for.
  unfoldable pub on_read :
      Attempts → Answer ExecutorOpStatus → Answer (Unit {0}) → (Attempts → Outcome) → Outcome
  on_read before (failure reason) sent next = unread
  on_read before (success read) sent next =
      let status = effective_status executor_attempts read before in
      if is_final status
      then acknowledged (record { block_number = block_number; op_hash = op_hash; status = status })
      else send_round status sent (next (count_attempt read before))

  unfoldable pub process_operation : Attempts → List Round → Outcome
  process_operation before [] = waiting before
  process_operation before (round ∷ rounds) =
      let unfunded = process_operation before rounds in
      if round.is_funded
      then on_read before (get_op_status round.account) round.sent
          (λ after. process_operation after rounds)
      else unfunded
