-- ===== src/Services/Manager/Repeats.antt =====
-- When the loop acknowledges an operation, and with what.
use photon_solana_contracts.Prelude.{
  ℕ, ◌+◌, ◌≤◌, ◌≡◌, subst, if-elim, refl, sym, ap, ◌∙◌, inl, inr, Bool, true, false, ◌&&◌, Bytes,
  List, [], ◌∷◌, Option, none, some, leb, ◌==◌, arith, if◌then◌else◌, Bool-cases, if-elim, subst,
}
use photon_solana_contracts.ProtocolData.{OpStatus}
use photon_solana_contracts.Services.{Answer, success, failure}
use photon_solana_contracts.Services.OpRegistry.{
  ExecutorOpStatus, new, loaded, signed, executed, failed, executor_status, OpAcknowledge,
}
use photon_solana_contracts.Services.Manager.{
  OpAccount, missing, malformed, stored, get_op_status, Round, status_index, status_eq, Attempts,
  no_attempts, is_last, count_attempt, effective_status, is_final, Outcome, acknowledged,
  send_round, on_read, process_operation,
}

-- How many passes had the funds to read the status, and read `status`.
unfoldable pub reads_as : ExecutorOpStatus → Round → Bool
reads_as status round = round.is_funded && elim (get_op_status round.account) [
  | success read ↦ status_eq status read
  | failure reason ↦ false
]

unfoldable pub reads : ExecutorOpStatus → List Round → ℕ
reads status [] = 0
reads status (round ∷ rounds) = (if reads_as status round then 1 else 0) + reads status rounds

-- The reads of `status` that the counter stands for.
abbrev credit : Attempts → ExecutorOpStatus → ℕ
credit before status = if is_last before.last status then before.attempts + 1 else 0

credit-count_attempt :
    (read status : ExecutorOpStatus) (last : Option ExecutorOpStatus) (attempts : ℕ)
    → credit (count_attempt read (record { last = last; attempts = attempts })) status
      ≤ credit (record { last = last; attempts = attempts }) status
        + (if status_eq status read then 1 else 0)
unfolding count_attempt is_last status_eq
credit-count_attempt read status none attempts = ground arith
credit-count_attempt read status (some st) attempts = ground arith

of_index : ℕ → ExecutorOpStatus
of_index n =
    if n == 0
    then new
    else if n == 1
    then loaded
    else if n == 2
    then signed
    else if n == 3
    then executed
    else failed

of_index-status_index : (a : ExecutorOpStatus) → of_index (status_index a) ≡ a
unfolding of_index status_index
of_index-status_index new = refl
of_index-status_index loaded = refl
of_index-status_index signed = refl
of_index-status_index executed = refl
of_index-status_index failed = refl

pub status_eq_sound : (a b : ExecutorOpStatus) → status_eq a b ≡ true → a ≡ b
unfolding status_eq
status_eq_sound a b e =
    let same : status_index a ≡ status_index b = ground arith in
    sym (of_index-status_index a) ∙ ap of_index same ∙ of_index-status_index b

status_eq_refl : (a : ExecutorOpStatus) → status_eq a a ≡ true
unfolding status_eq
status_eq_refl a = ground arith

-- The program knows no failed operation.
get_op_status_known :
    (account : OpAccount) (read : ExecutorOpStatus)
    → get_op_status account ≡ success read
    → status_eq failed read ≡ false
unfolding get_op_status executor_status status_eq status_index
get_op_status_known missing read e = ground arith
get_op_status_known malformed read e = ground arith
get_op_status_known (stored OpStatus.none) read e = ground arith
get_op_status_known (stored OpStatus.init) read e = ground arith
get_op_status_known (stored OpStatus.signed) read e = ground arith
get_op_status_known (stored OpStatus.executed) read e = ground arith

pub reads_as-read :
    (read : ExecutorOpStatus) (round : Round)
    → round.is_funded ≡ true
    → get_op_status round.account ≡ success read
    → (status : ExecutorOpStatus) → reads_as status round ≡ status_eq status read
unfolding reads_as
reads_as-read read round funded found status = rw (funded, found) refl

acknowledged_injective : {a b : OpAcknowledge} → acknowledged a ≡ acknowledged b → a ≡ b
acknowledged_injective e = cc e

-- Why an operation is acknowledged.
pub data Reason (executor_attempts : ℕ) (seen : ExecutorOpStatus → ℕ)
    : ExecutorOpStatus → Type 0 where
  is_executed : 1 ≤ seen executed → Reason executor_attempts seen executed
  is_repeated :
      (status : ExecutorOpStatus)
      → 2 ≤ seen status
      → executor_attempts + 1 ≤ seen status
      → Reason executor_attempts seen failed

Reason-mono :
    (n : ℕ) (seen seen' : ExecutorOpStatus → ℕ) {status : ExecutorOpStatus}
    → ((st : ExecutorOpStatus) → seen st ≤ seen' st)
    → Reason n seen status
    → Reason n seen' status
Reason-mono n seen seen' more (is_executed h) = is_executed (omega (arith, h, more executed))
Reason-mono n seen seen' more (is_repeated status h k) =
    is_repeated status (omega (arith, h, more status)) (omega (arith, k, more status))

module _ {Bundles : Type 0} (executor_attempts : ℕ) (build : ExecutorOpStatus → Answer Bundles)
    (block_number : ℕ) (op_hash : Bytes) where
  -- A pass that goes on after it has read the status.
  sent-acknowledged :
      (status : ExecutorOpStatus) (sent : Answer (Unit {0})) (rest : Outcome) {a : OpAcknowledge}
      → send_round executor_attempts build block_number op_hash status sent rest ≡ acknowledged a
      → rest ≡ acknowledged a
  unfolding send_round
  sent-acknowledged status sent rest e = ground arith

  ends_now :
      (read : ExecutorOpStatus) (before : Attempts) (seen : ExecutorOpStatus → ℕ)
      → status_eq failed read ≡ false
      → credit before read + 1 ≤ seen read
      → is_final (effective_status executor_attempts read before) ≡ true
      → Reason executor_attempts seen (effective_status executor_attempts read before)
  unfolding is_final effective_status
  ends_now read before seen known counted final =
      elim (Bool-cases (is_last before.last read && leb executor_attempts (before.attempts + 1))) [
        | inl repeated ↦
            subst (Reason executor_attempts seen) (rw repeated refl)
              (is_repeated read (ground (arith, counted)) (ground (arith, counted)))
        | inr first ↦
            let same : executed ≡ read = status_eq_sound executed read (ground arith) in
            subst (Reason executor_attempts seen) (same ∙ (rw first refl))
              (is_executed (subst (λ st. 1 ≤ seen st) (sym same) (omega (arith, counted))))
      ]

  -- The two ways to an acknowledgement of a pass that could read the status.
  on_read_acknowledged {ℓ} :
      (before : Attempts) (x : Answer ExecutorOpStatus) (sent : Answer (Unit {0}))
      (next : Attempts → Outcome) {a : OpAcknowledge} {P : Type ℓ}
      → on_read executor_attempts build block_number op_hash before x sent next ≡ acknowledged a
      → ((read : ExecutorOpStatus)
          → x ≡ success read
          → is_final (effective_status executor_attempts read before) ≡ true
          → acknowledged (record {
            block_number = block_number;
            op_hash = op_hash;
            status = effective_status executor_attempts read before;
          })
            ≡ acknowledged a
          → P)
      → ((read : ExecutorOpStatus)
          → x ≡ success read
          → next (count_attempt read before) ≡ acknowledged a
          → P)
      → P
  unfolding on_read
  on_read_acknowledged before (failure reason) sent next e ends goes = absurd (cc e)
  on_read_acknowledged before (success read) sent next e ends goes =
      if-elim (is_final (effective_status executor_attempts read before)) e (ends read refl)
        (λ _ e1. goes read refl (
          sent-acknowledged (effective_status executor_attempts read before) sent
            (next (count_attempt read before)) e1))

  acknowledged_because :
      (rounds : List Round) (before : Attempts) {a : OpAcknowledge}
      → process_operation executor_attempts build block_number op_hash before rounds
        ≡ acknowledged a
      → (a.block_number ≡ block_number)
        × (a.op_hash ≡ op_hash)
        × Reason executor_attempts (λ st. credit before st + reads st rounds) a.status
  unfolding process_operation reads reads_as
  acknowledged_because [] before e = absurd (cc e)
  acknowledged_because (round ∷ rounds) before {a} e =
      if-elim round.is_funded e
        (λ funded e1.
          on_read_acknowledged before (get_op_status round.account) round.sent _ e1
            (λ read found final done.
              let seen : ExecutorOpStatus → ℕ =
                λ st. credit before st + reads st (round ∷ rounds) in
              let one = reads_as-read read round funded found read ∙ status_eq_refl read in
              let counted : credit before read + 1 ≤ seen read = ground (arith, one) in
              subst
                (λ (x : OpAcknowledge).
                  (x.block_number ≡ block_number)
                  × (x.op_hash ≡ op_hash)
                  × Reason executor_attempts seen x.status)
                (acknowledged_injective done)
                (
                  refl,
                  refl,
                  ends_now read before seen (get_op_status_known round.account read found) counted
                      final,
                ))
            (λ read found e2.
              let (block, hash, why) = acknowledged_because rounds (count_attempt read before) e2 in
              (
                block,
                hash,
                Reason-mono executor_attempts _ _
                    (λ st. omega (
                      arith,
                      credit-count_attempt read st before.last before.attempts,
                      ap {B = ℕ} (λ b. if b then 1 else 0)
                          (reads_as-read read round funded found st),
                    ))
                    why,
              )))
        (λ unfunded e1.
          let (block, hash, why) = acknowledged_because rounds before e1 in
          (block, hash, Reason-mono executor_attempts _ _ (λ st. omega arith) why))

  -- Let the loop acknowledge an operation. Then it does so for its own block and hash, and either as
  -- executed, after a pass read that status of it, or as failed, after some one status was read
  -- in at least two passes and in more passes than the configured attempts.
  pub process_operation-acknowledged :
      (rounds : List Round) {a : OpAcknowledge}
      → process_operation executor_attempts build block_number op_hash no_attempts rounds
        ≡ acknowledged a
      → (a.block_number ≡ block_number)
        × (a.op_hash ≡ op_hash)
        × Reason executor_attempts (λ st. reads st rounds) a.status
  unfolding is_last
  process_operation-acknowledged rounds e =
      let (block, hash, why) = acknowledged_because rounds no_attempts e in
      (block, hash, Reason-mono executor_attempts _ _ (λ st. omega arith) why)
