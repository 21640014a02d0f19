-- ===== src/Services/Manager/Rounds.antt =====
-- The loop ends: how many passes are enough.
use photon_solana_contracts.Prelude.{
  ℕ, ◌+◌, ◌*◌, ◌≤◌, ◌<◌, ◌≡◌, refl, subst, Bool-cases, inl, inr, sym, ap, ◌∙◌, true, false, ◌&&◌,
  Bytes, List, [], ◌∷◌, some, length, leb, ◌==◌, arith, if◌then◌else◌,
}
use photon_solana_contracts.Services.{Answer, success}
use photon_solana_contracts.Services.OpRegistry.{
  ExecutorOpStatus, new, loaded, signed, executed, failed, OpAcknowledge,
}
use photon_solana_contracts.Services.Manager.{
  get_op_status, Round, status_index, status_eq, Attempts, no_attempts, is_last, count_attempt,
  effective_status, is_final, Outcome, acknowledged, send_round, on_read, process_operation,
}

-- An outcome that is an acknowledgement.
abbrev pub IsAcknowledged : Outcome → Type 0
IsAcknowledged outcome = (a : OpAcknowledge) × (outcome ≡ acknowledged a)

-- Passes with funds, in which nothing outside fails, and where no status is before `low` or before
-- one that was read earlier.
abbrev pub IsForward : ℕ → List Round → Type 0
IsForward low [] = Unit {0}
IsForward low (round ∷ rounds) =
    (read : ExecutorOpStatus) × (round.is_funded ≡ true)
    × (get_op_status round.account ≡ success read)
    × (round.sent ≡ success tt)
    × (low ≤ status_index read)
    × (status_index read ≤ 3)
    × IsForward (status_index read) rounds

-- The attempts that count: a limit of 0 acts as one of 1.
unfoldable pub attempts_limit : ℕ → ℕ
attempts_limit executor_attempts = if executor_attempts == 0 then 1 else executor_attempts

-- The passes that are enough after a status was read for the first time.
unfoldable pub passes_from : ℕ → ℕ → ℕ
passes_from limit index = if index == 0 then 3 * limit else if index == 1 then 2 * limit else limit

not_final : (status : ExecutorOpStatus) → is_final status ≡ false → status_index status < 3
unfolding is_final status_eq status_index
not_final new e = omega arith
not_final loaded e = omega arith
not_final signed e = omega arith
not_final executed e = absurd (cc e)
not_final failed e = absurd (cc e)

effective_repeated :
    (n : ℕ) (read : ExecutorOpStatus) (before : Attempts)
    → is_last before.last read && leb n (before.attempts + 1) ≡ true
    → effective_status n read before ≡ failed
unfolding effective_status
effective_repeated n read before e = rw e refl

effective_first :
    (n : ℕ) (read : ExecutorOpStatus) (before : Attempts)
    → is_last before.last read && leb n (before.attempts + 1) ≡ false
    → effective_status n read before ≡ read
unfolding effective_status
effective_first n read before e = rw e refl

counted_again :
    (last read : ExecutorOpStatus) (attempts : ℕ)
    → (status_index last == status_index read) ≡ true
    → count_attempt read (record { last = some last; attempts = attempts })
      ≡ record { last = some last; attempts = attempts + 1 }
unfolding count_attempt is_last status_eq
counted_again last read attempts same = rw same refl

counted_anew :
    (last read : ExecutorOpStatus) (attempts : ℕ)
    → (status_index last == status_index read) ≡ false
    → count_attempt read (record { last = some last; attempts = attempts })
      ≡ record { last = some read; attempts = 0 }
unfolding count_attempt is_last status_eq
counted_anew last read attempts other = rw other refl

limit_positive : (n : ℕ) → 0 < attempts_limit n
unfolding attempts_limit
limit_positive n = ground arith

failed_final : is_final failed ≡ true
unfolding is_final status_eq status_index
failed_final = refl

not_failing :
    (n : ℕ) (read : ExecutorOpStatus) (before : Attempts)
    → is_final (effective_status n read before) ≡ false
    → (status_index read < 3)
      × ((is_last before.last read ≡ true) → before.attempts + 1 < attempts_limit n)
unfolding effective_status attempts_limit
not_failing n read before e =
    elim (Bool-cases (is_last before.last read && leb n (before.attempts + 1))) [
      | inl repeated ↦
          absurd (cc (e, ap is_final (effective_repeated n read before repeated), failed_final))
      | inr first ↦ (
        not_final read (sym (ap is_final (effective_first n read before first)) ∙ e),
        λ same. ground arith,
      )
    ]

module _ {Bundles : Type 0} (executor_attempts : ℕ) (build : ExecutorOpStatus → Answer Bundles)
    (block_number : ℕ) (op_hash : Bytes)
    (builds : (status : ExecutorOpStatus)
      → status_index status < 3
      → (bundles : Bundles) × (build status ≡ success bundles)) where
  sends :
      (status : ExecutorOpStatus) (sent : Answer (Unit {0})) (rest : Outcome) {bundles : Bundles}
      → build status ≡ success bundles
      → sent ≡ success tt
      → send_round executor_attempts build block_number op_hash status sent rest ≡ rest
  unfolding send_round
  sends status sent rest built done = ground (arith, built, done)

  -- A pass either acknowledges or goes on.
  pass_ends_or_goes_on :
      (before : Attempts) (read : ExecutorOpStatus) (next : Attempts → Outcome)
      → status_index read ≤ 3
      → (is_final (effective_status executor_attempts read before) ≡ false
          → IsAcknowledged (next (count_attempt read before)))
      → IsAcknowledged (
          on_read executor_attempts build block_number op_hash before
            (success read)
            (success tt)
            next)
  unfolding on_read send_round
  pass_ends_or_goes_on before read next known later =
      let status = effective_status executor_attempts read before in
      elim (Bool-cases (is_final status)) [
        | inl final ↦ (
          record { block_number = block_number; op_hash = op_hash; status = status },
          rw final refl,
        )
        | inr open_status ↦
            let (a, e) = later open_status in
            let (bundles, built) = builds status (not_final status open_status) in
            (
              a,
              ap
                    (λ b.
                      if b
                      then acknowledged (record {
                        block_number = block_number;
                        op_hash = op_hash;
                        status = status;
                      })
                      else send_round executor_attempts build block_number op_hash status
                          (success tt) (next (count_attempt read before)))
                    open_status
                  ∙ sends status (success tt) (next (count_attempt read before)) built refl
                  ∙ e,
            )
      ]

  abbrev EndsWith : List Round → Attempts → Type 0
  EndsWith rounds before =
      IsAcknowledged (process_operation executor_attempts build block_number op_hash before rounds)

  ends_after :
      (rounds : List Round) (last : ExecutorOpStatus) (attempts : ℕ)
      → status_index last < 3
      → attempts < attempts_limit executor_attempts
      → IsForward (status_index last) rounds
      → passes_from (attempts_limit executor_attempts) (status_index last)
        ≤ length rounds + attempts
      → IsAcknowledged (
          process_operation executor_attempts build block_number op_hash
            (record { last = some last; attempts = attempts })
            rounds)
  unfolding process_operation count_attempt is_last status_eq passes_from
  ends_after [] last attempts known few forward enough = absurd (ground arith)
  ends_after (round ∷ rounds) last attempts known few (read, funded, found, sent, up, top, forward)
        enough =
      let before : Attempts = record { last = some last; attempts = attempts } in
      subst IsAcknowledged (rw (funded, found, sent) refl) (
        pass_ends_or_goes_on before read
          (λ after. process_operation executor_attempts build block_number op_hash after rounds) top
          (λ goes_on.
            let (open_read, more) = not_failing executor_attempts read before goes_on in
            elim (Bool-cases (status_index last == status_index read)) [
              | inl same ↦
                  let indices : status_index last ≡ status_index read = ground arith in
                  subst (EndsWith rounds) (sym (counted_again last read attempts same)) (
                    ends_after rounds last (attempts + 1) known (more same)
                      (subst (λ n. IsForward n rounds) (sym indices) forward) (ground arith))
              | inr later ↦ subst (EndsWith rounds) (sym (counted_anew last read attempts later)) (
                  ends_after rounds read 0 open_read (limit_positive executor_attempts) forward
                    (ground arith))
            ]))

  -- Let instructions be found for the three statuses before execution, and let the passes have
  -- funds, every status be read, everything be sent, and no status that is read come before one that was
  -- read earlier. Then three times the configured attempts (at least 1) and one more pass are enough for
  -- the loop to end with an acknowledgement.
  pub process_operation-IsAcknowledged :
      (rounds : List Round)
      → IsForward 0 rounds
      → 3 * attempts_limit executor_attempts + 1 ≤ length rounds
      → IsAcknowledged
          (process_operation executor_attempts build block_number op_hash no_attempts rounds)
  unfolding process_operation count_attempt is_last passes_from
  process_operation-IsAcknowledged [] forward enough = absurd (omega (arith, enough))
  process_operation-IsAcknowledged (round ∷ rounds) (read, funded, found, sent, up, top, forward)
        enough =
      subst IsAcknowledged (rw (funded, found, sent) refl) (
        pass_ends_or_goes_on no_attempts read
          (λ after. process_operation executor_attempts build block_number op_hash after rounds) top
          (λ goes_on.
            ends_after rounds read 0 (not_failing executor_attempts read no_attempts goes_on).0
              (limit_positive executor_attempts) forward (ground arith)))
