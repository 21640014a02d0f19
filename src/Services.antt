-- ===== src/Services.antt =====
-- The services outside the program (transmitter-module/src, transmitter-common/src,
-- transmitter-protocol-extensions): how they end, as values.
pub mod Logs
pub mod Data
pub mod OpRegistry
pub mod Bundles
pub mod Manager
pub mod Retro
pub mod Listener
pub mod GovExtension
mod Tests
use photon_solana_contracts.Prelude.{◌≡◌, refl, Option, none, some, Bool, true, false}

-- `EventListenerError`, `ExecutorError` and `ExtensionError`, with the values that the modelled code
-- returns, and an abort.
pub data ServiceError : Type 0 where
  solana_parse_logs malformed_data extension_mng extension abort : ServiceError

pub data Answer {ℓ} (A : Type ℓ) : Type ℓ where
  success : A → Answer A
  failure : ServiceError → Answer A

infixl 5 ◌>>=◌
abbrev pub ◌>>=◌ {ℓ κ} : {A : Type ℓ} {B : Type κ} → Answer A → (A → Answer B) → Answer B
failure reason >>= next = failure reason
success value >>= next = next value

-- `o.ok_or(e)?`
abbrev pub answer_or {ℓ} : {A : Type ℓ} → Option A → ServiceError → Answer A
answer_or none reason = failure reason
answer_or (some value) reason = success value

-- What follows a computation that succeeded sees its value as a variable.
pub >>=-success {ℓ κ μ} :
    {A : Type ℓ} {B : Type κ} {P : Type μ} (first : Answer A) (next : A → Answer B) {result : B}
    → (first >>= next) ≡ success result
    → ((value : A) → first ≡ success value → next value ≡ success result → P)
    → P
>>=-success (failure reason) next e finish = absurd (cc e)
>>=-success (success value) next e finish = finish value refl e

pub success_injective {ℓ} : {A : Type ℓ} {a b : A} → success a ≡ success b → a ≡ b
success_injective e = cc e
