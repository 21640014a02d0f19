-- ===== src/Services/GovExtension.antt =====
-- The extension of the governance protocol (transmitter-protocol-extensions/gov-extension/src/
-- gov_extension.rs), which lists the accounts of a governance call, and its agreement with the
-- program. The address of the system program is a parameter.
pub mod Serving
use photon_solana_contracts.Prelude.{
  ℕ, zero, suc, ◌≤◌, length-take, ◌≡◌, true, false, not, ◌&&◌, Bytes, List, [], ◌∷◌, some,
  get_elem?, length, take, ltb, ◌==◌, arith, if◌then◌else◌,
}
use photon_solana_contracts.Prelude.BigEndian.{from_be_bytes}
use photon_solana_contracts.Errors.{Result, ok, err}
use photon_solana_contracts.Environment.{Environment, AccountMeta}
use photon_solana_contracts.ProtocolData.{gov_protocol_id, by_code}
use photon_solana_contracts.Gov.Operation.{
  try_from_u32, gov_operation_of, decode_abi_params, abi_decode_scheme, token_at,
  target_protocol_by_code, target_protocol,
}
use photon_solana_contracts.Endpoint.Execute.{root}
use photon_solana_contracts.Services.{Answer, success, failure, extension, abort, ◌>>=◌, answer_or}
use photon_solana_contracts.Services.Bundles.{Extension}

-- b"PROTOCOL" and b"CONFIG"
abbrev pub protocol_seed : Bytes
protocol_seed = b'P' ∷ b'R' ∷ b'O' ∷ b'T' ∷ b'O' ∷ b'C' ∷ b'O' ∷ b'L' ∷ []

abbrev pub config_seed : Bytes
config_seed = b'C' ∷ b'O' ∷ b'N' ∷ b'F' ∷ b'I' ∷ b'G' ∷ []

-- The first chunk of four bytes as a number; a shorter one aborts.
unfoldable pub selector_number : Bytes → Answer ℕ
selector_number [] = failure extension
selector_number (b ∷ selector) =
    if length (take 4 (b ∷ selector)) == 4
    then success (from_be_bytes (take 4 (b ∷ selector)))
    else failure abort

-- `map_err` to `ExtensionError::Extension`
abbrev or_extension {ℓ} : {A : Type ℓ} → Result A → Answer A
or_extension (ok value) = success value
or_extension (err reason) = failure extension

length-take_shorter : (n : ℕ) (xs : Bytes) → length (take n xs) ≤ length xs
length-take_shorter zero xs = omega arith
length-take_shorter (suc n) [] = omega arith
length-take_shorter (suc n) (x ∷ xs) = omega (arith, length-take_shorter n xs)

module _ (env : Environment) (system_program : Bytes) where
  open env use {find_program_address, photon_id, into_fixed_bytes}

  -- `AccountMeta::new_readonly` and `AccountMeta::new`, without a signature
  abbrev readonly : Bytes → AccountMeta
  readonly key = record { key = key; is_signer = false; is_writable = false }

  abbrev writable : Bytes → AccountMeta
  writable key = record { key = key; is_signer = false; is_writable = true }

  unfoldable pub accounts_for : Bytes → List AccountMeta
  accounts_for target =
      readonly photon_id
      ∷ writable (find_program_address (root ∷ config_seed ∷ []))
      ∷ writable (find_program_address (root ∷ protocol_seed ∷ gov_protocol_id ∷ []))
      ∷ writable (find_program_address (root ∷ protocol_seed ∷ target ∷ []))
      ∷ writable system_program
      ∷ []

  unfoldable pub gov_accounts : Bytes → Bytes → Answer (List AccountMeta)
  gov_accounts selector params = do
    number ← selector_number selector
    operation ← answer_or (try_from_u32 number) extension
    decoded ← or_extension (decode_abi_params env params (abi_decode_scheme env operation))
    first ← answer_or (get_elem? decoded 0) extension
    target ← answer_or (into_fixed_bytes first) extension
    success (accounts_for target)

  unfoldable pub gov_extension : Extension
  gov_extension = record {
    get_accounts = gov_accounts;
    get_compute_budget = λ selector params. some 400000;
  }

  -- What the extension should answer where the program finds a target, or none.
  unfoldable pub accounts_of_target : Bytes → Result Bytes → Answer (List AccountMeta)
  accounts_of_target selector (ok target) = success (accounts_for target)
  accounts_of_target selector (err reason) =
      failure (if not (length selector == 0) && ltb (length selector) 4 then abort else extension)

  -- For every selector and all parameters: where the program finds a target protocol, the
  -- extension lists the accounts of that very target; where the program fails, so does the extension,
  -- and it aborts exactly for a selector of one, two or three bytes.
  pub gov_accounts-target_protocol :
      (selector params : Bytes)
      → gov_accounts selector params
        ≡ accounts_of_target selector (target_protocol env (by_code selector) params)
  unfolding gov_accounts accounts_of_target selector_number target_protocol target_protocol_by_code
      gov_operation_of token_at
  gov_accounts-target_protocol [] params = ground arith
  gov_accounts-target_protocol (b ∷ selector) params =
      ground (arith, length-take 4 (b ∷ selector), length-take_shorter 4 (b ∷ selector))
