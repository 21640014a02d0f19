-- ===== src/Errors.antt =====
-- programs/entangle-photon-sol/src/error.rs, and what an instruction can end in. An instruction
-- that fails is reverted whole by the runtime, so a failure carries no state.
use photon_solana_contracts.Prelude.{ℕ, ◌≡◌, refl, Bool, true, false, Option, none, some}

pub data CustomError : Type 0 where
  is_not_admin protocol_not_init invalid_signature op_is_not_for_this_chain : CustomError
  invalid_endpoint op_state_invalid cached_op_hash_mismatch : CustomError
  protocol_address_mismatch target_protocol_mismatch executor_is_not_allowed : CustomError
  proposer_is_not_allowed operation_not_approved invalid_proto_msg invalid_gov_msg : CustomError
  invalid_method_selector invalid_op_data invalid_address protocol_address_not_provided :
      CustomError
  no_transmitters_allowed max_transmitters_exceeded max_executors_exceeded : CustomError
  executor_is_already_allowed proposer_is_already_allowed : CustomError
  trying_to_remove_last_gov_executor invalid_executor_address invalid_proposer_address : CustomError
  max_proposers_exceeded consensus_target_rate_too_low consensus_target_rate_too_high : CustomError
  selector_too_big : CustomError

-- The errors of Anchor and of the runtime that the source can meet.
pub data AnchorError : Type 0 where
  account_not_initialized account_already_in_use max_seed_length_exceeded : AnchorError
  require_eq_violated constraint_address instruction_fallback_not_found : AnchorError

-- `panic` is an abort: an index out of bounds, an `expect`, an arithmetic overflow.
pub data Failure : Type 0 where
  custom : CustomError → Failure
  anchor : AnchorError → Failure
  cpi : ℕ → Failure
  panic : Failure

pub data Result {ℓ} (A : Type ℓ) : Type ℓ where
  ok : A → Result A
  err : Failure → Result A

infixl 5 ◌>>=◌ ◌>>◌
abbrev pub ◌>>=◌ {ℓ κ} : {X : Type ℓ} {Y : Type κ} → Result X → (X → Result Y) → Result Y
err failure >>= next = err failure
ok x >>= next = next x

abbrev pub ◌>>◌ {ℓ} : {Y : Type ℓ} → Result (Unit {0}) → Result Y → Result Y
first >> second = first >>= λ _. second

-- `require!(b, e)`
abbrev pub require : Bool → Failure → Result (Unit {0})
require true e = ok tt
require false e = err e

-- `o.ok_or(e)?`
abbrev pub ok_or {ℓ} : {A : Type ℓ} → Option A → Failure → Result A
ok_or none e = err e
ok_or (some a) e = ok a

pub >>=-eq-ok {ℓ κ} :
    {X : Type ℓ} {Y : Type κ} (first : Result X) (next : X → Result Y) {y : Y}
    → (first >>= next) ≡ ok y
    → (x : X) × (first ≡ ok x) × (next x ≡ ok y)
>>=-eq-ok (err _) next e = absurd (cc e)
>>=-eq-ok (ok x) next e = (x, refl, e)

pub ok-injective {ℓ} : {A : Type ℓ} {a b : A} → ok a ≡ ok b → a ≡ b
ok-injective h = cc

-- The same, handed on: what follows sees the intermediate value as a variable.
pub >>=-elim {ℓ κ μ} :
    {A : Type ℓ} {B : Type κ} {P : Type μ} (m : Result A) (f : A → Result B) {b : B}
    → (m >>= f) ≡ ok b
    → ((a : A) → m ≡ ok a → f a ≡ ok b → P)
    → P
>>=-elim (ok a) f h k = k a refl h
>>=-elim (err e) f h k = absurd (cc)
