-- ===== src/Services/Manager/Chain.antt =====
-- The loop against the program: what it reads are the states of its operation in a history of
-- transactions, its own among them.
use photon_solana_contracts.Prelude.{
  ℕ, ◌+◌, ◌*◌, ◌≤◌, ◌≡◌, refl, sym, ap, ◌∙◌, inl, inr, Bool-cases, true, Bytes, List, [], ◌∷◌,
  Option, none, some, length, arith, if◌then◌else◌,
}
use photon_solana_contracts.Prelude.Assoc.{lookup}
use photon_solana_contracts.Environment.{Environment, AccountMeta}
use photon_solana_contracts.ProtocolData.{Pubkey, OpStatus, as_u8}
use photon_solana_contracts.State.{System, OpInfo}
use photon_solana_contracts.Endpoint.Step.{Instruction, step, run}
use photon_solana_contracts.Endpoint.Step.Moves.{AllHasSlots, step-AllHasSlots}
use photon_solana_contracts.Endpoint.Step.Lifecycle.{Progress, run-Progress}
use photon_solana_contracts.ProtocolData
use photon_solana_contracts.Services.Data.{SignedOperation}
use photon_solana_contracts.Services.Bundles.{Extensions, build_ixs}
use photon_solana_contracts.Services.Bundles.Stages.{IsBuildable, build_ixs_complete}
use photon_solana_contracts.Services.{success}
use photon_solana_contracts.Services.OpRegistry.{
  ExecutorOpStatus, new, executed, executor_status, OpAcknowledge,
}
use photon_solana_contracts.Services.Manager.{
  OpAccount, missing, stored, get_op_status, Round, status_index, status_eq, no_attempts,
  acknowledged, process_operation,
}
use photon_solana_contracts.Services.Manager.Repeats.{
  Reason, is_executed, is_repeated, reads_as, reads_as-read, reads, status_eq_sound,
  process_operation-acknowledged,
}
use photon_solana_contracts.Services.Manager.Rounds.{
  IsForward, attempts_limit, process_operation-IsAcknowledged,
}

abbrev account_of : Option OpInfo → OpAccount
account_of none = missing
account_of (some op) = stored op.status

abbrev pub status_of : Option OpInfo → ExecutorOpStatus
status_of none = new
status_of (some op) = executor_status op.status

executor_status-as_u8 : (status : OpStatus) → status_index (executor_status status) ≡ as_u8 status
unfolding executor_status status_index
executor_status-as_u8 OpStatus.none = refl
executor_status-as_u8 OpStatus.init = refl
executor_status-as_u8 OpStatus.signed = refl
executor_status-as_u8 OpStatus.executed = refl

as_u8_small : (status : OpStatus) → as_u8 status ≤ 3
as_u8_small OpStatus.none = omega arith
as_u8_small OpStatus.init = omega arith
as_u8_small OpStatus.signed = omega arith
as_u8_small OpStatus.executed = omega arith

get_op_status-account_of :
    (op : Option OpInfo) → get_op_status (account_of op) ≡ success (status_of op)
unfolding get_op_status
get_op_status-account_of none = refl
get_op_status-account_of (some op) = refl

status_small : (op : Option OpInfo) → status_index (status_of op) ≤ 3
unfolding status_index
status_small none = omega arith
status_small (some op) = omega (arith, executor_status-as_u8 op.status, as_u8_small op.status)

executed_alone : (status : ExecutorOpStatus) → status_index status ≡ 3 → status ≡ executed
unfolding status_eq status_index
executed_alone status e = sym (status_eq_sound executed status (ground (arith, e)))

index_executed : status_index executed ≡ 3
unfolding status_index
index_executed = refl

executed_seen :
    (n : ℕ) (seen : ExecutorOpStatus → ℕ) (status : ExecutorOpStatus)
    → Reason n seen status
    → status ≡ executed
    → 1 ≤ seen executed
executed_seen n seen _ (is_executed h) e = h
executed_seen n seen _ (is_repeated _ _ _) e = absurd (cc e)

module _ (env : Environment) (h : Bytes) where
  -- What the loop reads when transactions come between: each list is the history before a read.
  unfoldable pub watched : System → List (List Instruction) → List Round
  watched s [] = []
  watched s (history ∷ histories) =
      let t = run env s history in
      record { is_funded = true; account = account_of (lookup h t.ops); sent = success tt }
      ∷ watched t histories

  unfoldable pub run_all : System → List (List Instruction) → System
  run_all s [] = s
  run_all s (history ∷ histories) = run_all (run env s history) histories

  abbrev pub index_at : System → ℕ
  index_at s = status_index (status_of (lookup h s.ops))

  run-AllHasSlots :
      (is : List Instruction) (s : System) → AllHasSlots s → AllHasSlots (run env s is)
  unfolding run
  run-AllHasSlots [] s slots = slots
  run-AllHasSlots (i ∷ is) s slots =
      run-AllHasSlots is (step env s i) (step-AllHasSlots env s i slots)

  forward_from :
      (s t : System) (before after : Option OpInfo)
      → lookup h s.ops ≡ before
      → lookup h t.ops ≡ after
      → ((o : OpInfo)
          → lookup h s.ops ≡ some o
          → (o' : OpInfo) × (lookup h t.ops ≡ some o') × Progress o o')
      → status_index (status_of before) ≤ status_index (status_of after)
  unfolding status_index
  forward_from s t none after e e' later = omega arith
  forward_from s t (some o) after e e' later =
      let (o', at, p) = later o e in
      let forward = p.forward in
      let there : after ≡ some o' = sym e' ∙ at in
      let b : status_index (status_of after) ≡ as_u8 o'.status =
        ap (λ x. status_index (status_of x)) there ∙ executor_status-as_u8 o'.status in
      omega (arith, executor_status-as_u8 o.status, b, forward)

  index_at-run :
      (is : List Instruction) (s : System) → AllHasSlots s → index_at s ≤ index_at (run env s is)
  index_at-run is s slots =
      forward_from s (run env s is) (lookup h s.ops) (lookup h (run env s is).ops) refl refl
        (λ o e. run-Progress env is s h o slots e)

  index_at-run_all :
      (histories : List (List Instruction)) (s : System)
      → AllHasSlots s
      → index_at s ≤ index_at (run_all s histories)
  unfolding run_all
  index_at-run_all [] s slots = omega arith
  index_at-run_all (is ∷ histories) s slots = omega (
    arith,
    index_at-run is s slots,
    index_at-run_all histories (run env s is) (run-AllHasSlots is s slots),
  )

  watched-IsForward :
      (histories : List (List Instruction)) (s : System) (low : ℕ)
      → AllHasSlots s
      → low ≤ index_at s
      → IsForward low (watched s histories)
  unfolding watched
  watched-IsForward [] s low slots above = tt
  watched-IsForward (is ∷ histories) s low slots above =
      let t = run env s is in
      let op = lookup h t.ops in
      (
        status_of op,
        refl,
        get_op_status-account_of op,
        refl,
        omega (arith, above, index_at-run is s slots),
        status_small op,
        watched-IsForward histories t (index_at t) (run-AllHasSlots is s slots) (omega arith),
      )

  length-watched :
      (histories : List (List Instruction)) (s : System)
      → length (watched s histories) ≡ length histories
  unfolding watched
  length-watched [] s = refl
  length-watched (is ∷ histories) s = omega (arith, length-watched histories (run env s is))

  executed_at_end :
      (histories : List (List Instruction)) (s : System)
      → AllHasSlots s
      → 1 ≤ reads executed (watched s histories)
      → index_at (run_all s histories) ≡ 3
  unfolding reads reads_as watched run_all status_eq
  executed_at_end [] s slots some_read = absurd (omega (arith, some_read))
  executed_at_end (is ∷ histories) s slots some_read =
      let t = run env s is in
      let slots_t = run-AllHasSlots is s slots in
      let round : Round = record {
        is_funded = true;
        account = account_of (lookup h t.ops);
        sent = success tt;
      } in
      let here =
        reads_as-read (status_of (lookup h t.ops)) round refl
          (get_op_status-account_of (lookup h t.ops)) executed in
      elim (Bool-cases (status_eq executed (status_of (lookup h t.ops)))) [
        | inl now ↦ omega (
          arith,
          index_at-run_all histories t slots_t,
          status_small (lookup h (run_all t histories).ops),
          ap status_index (status_eq_sound executed (status_of (lookup h t.ops)) now),
          index_executed,
        )
        | inr not_yet ↦
            executed_at_end histories t slots_t
              (omega (arith, some_read, ap {B = ℕ} (λ b. if b then 1 else 0) (here ∙ not_yet)))
      ]

  -- Let an operation be convertible and some extension list the accounts of its call, let the
  -- signer slots of the state be packed, and let the loop read the status between any histories of
  -- transactions, with funds and without failures outside. Then three times the configured attempts (at
  -- least 1) and one more read are enough for the loop to acknowledge the operation; and if it
  -- acknowledges it as executed, the program has executed it.
  pub process_operation-run_all :
      (extensions : Extensions) (executor : Pubkey) (op : SignedOperation)
      (c : ProtocolData.OperationData) (accounts : List AccountMeta) (executor_attempts : ℕ)
      (s : System) (histories : List (List Instruction))
      → IsBuildable env extensions op.operation_data c accounts
      → AllHasSlots s
      → 3 * attempts_limit executor_attempts + 1 ≤ length histories
      → (a : OpAcknowledge) × (process_operation executor_attempts
            (build_ixs env extensions executor h op)
            op.eob_block_number
            h
            no_attempts
            (watched s histories)
          ≡ acknowledged a)
        × (a.status ≡ executed → status_of (lookup h (run_all s histories).ops) ≡ executed)
  process_operation-run_all extensions executor op c accounts executor_attempts s histories b slots
        enough =
      let build = build_ixs env extensions executor h op in
      let (a, done) =
        process_operation-IsAcknowledged executor_attempts build op.eob_block_number h
          (λ status early.
            let (bundles, built, _) =
              build_ixs_complete env extensions executor h op c accounts status b early in
            (bundles, built))
          (watched s histories) (watched-IsForward histories s 0 slots (omega arith))
          (omega (arith, enough, length-watched histories s)) in
      let (_, _, why) =
        process_operation-acknowledged executor_attempts build op.eob_block_number h
          (watched s histories) done in
      (
        a,
        done,
        λ as_executed. executed_alone (status_of (lookup h (run_all s histories).ops)) (
            executed_at_end histories s slots
              (executed_seen executor_attempts _ a.status why as_executed)),
      )
