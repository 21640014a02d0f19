-- ===== src/Services/GovExtension/Serving.antt =====
-- The accounts that the governance extension lists are the ones that `receive_photon_msg` takes:
-- `ReceivePhotonMsg` (lib.rs) against gov_extension.rs, through the call that `execute_operation`
-- builds.
use photon_solana_contracts.Prelude.{
  ◌≡◌, refl, sym, ap, ◌∙◌, subst, true, false, not, ◌&&◌, ◌||◌, Bool, Bytes, List, [], ◌∷◌, ◌++◌,
  length, ltb, ◌==◌, bytes_eq, bytes_eq_iff, filter_b, All, if◌then◌else◌, arith,
}
use photon_solana_contracts.Errors.{Failure, Result, ok, err}
use photon_solana_contracts.Environment.{Environment, AccountMeta, CpiInstruction}
use photon_solana_contracts.ProtocolData.{Pubkey, OperationData, by_code, gov_protocol_id}
use photon_solana_contracts.Gov.Operation.{target_protocol}
use photon_solana_contracts.Endpoint.Execute.{
  root, op_seed, call_authority_seed, program_account, call_of, build_call, call_accounts, rest_of,
  sighash, global, receive_photon_msg_name,
}
use photon_solana_contracts.Services.{Answer, success, failure, extension, abort}
use photon_solana_contracts.Services.GovExtension.{
  config_seed, protocol_seed, accounts_for, gov_accounts, accounts_of_target,
  gov_accounts-target_protocol,
}

-- The account given is the one needed, with every right that is needed.
abbrev pub Covers : AccountMeta → AccountMeta → Type 0
Covers given needed =
    (given.key ≡ needed.key)
    × ((not needed.is_signer || given.is_signer) ≡ true)
    × ((not needed.is_writable || given.is_writable) ≡ true)

-- One by one, in order, and none too many.
abbrev pub CoverAll : List AccountMeta → List AccountMeta → Type 0
CoverAll [] [] = Unit
CoverAll [] (n ∷ needed) = ⊥
CoverAll (g ∷ given) [] = ⊥
CoverAll (g ∷ given) (n ∷ needed) = Covers g n × CoverAll given needed

filter_b-All :
    (p : AccountMeta → Bool) (xs : List AccountMeta) → All (λ a. p a ≡ true) xs → filter_b p xs ≡ xs
filter_b-All p [] h = refl
filter_b-All p (x ∷ xs) h = ground (arith, filter_b-All p xs h.1)

-- All but the first account.
filter_b-others :
    (p : AccountMeta → Bool) (x : AccountMeta) (xs : List AccountMeta)
    → p x ≡ false
    → All (λ a. p a ≡ true) xs
    → filter_b p (x ∷ xs) ≡ xs
filter_b-others p x xs out h = ground (arith, filter_b-All p xs h)

module _ (env : Environment) (system_program executor : Pubkey) (op_hash : Bytes)
    (d : OperationData) where
  open env use {find_program_address, photon_id}

  -- The accounts of `ReceivePhotonMsg`: `signer` asks for a signature, `mut` and `init_if_needed`
  -- for the right to write.
  abbrev pub receive_metas : Bytes → List AccountMeta
  receive_metas target =
      record { key = executor; is_signer = true; is_writable = true }
      ∷ record {
        key = find_program_address (root ∷ call_authority_seed ∷ d.protocol_id ∷ []);
        is_signer = true;
        is_writable = false;
      }
      ∷ record {
        key = find_program_address (root ∷ op_seed ∷ op_hash ∷ []);
        is_signer = false;
        is_writable = false;
      }
      ∷ record {
        key = find_program_address (root ∷ config_seed ∷ []);
        is_signer = false;
        is_writable = true;
      }
      ∷ record {
        key = find_program_address (root ∷ protocol_seed ∷ gov_protocol_id ∷ []);
        is_signer = false;
        is_writable = false;
      }
      ∷ record {
        key = find_program_address (root ∷ protocol_seed ∷ target ∷ []);
        is_signer = false;
        is_writable = true;
      }
      ∷ record { key = system_program; is_signer = false; is_writable = false }
      ∷ []

  -- What the extension's answer means where the program finds a target, or none.
  pub data Serves (code : Bytes) : Result Bytes → Answer (List AccountMeta) → Type 0 where
    served :
        (target : Bytes) (accounts : List AccountMeta) (ix : CpiInstruction)
        → build_call env executor op_hash d accounts ≡ ok ix
        → ix.program_id ≡ photon_id
        → CoverAll ix.metas (receive_metas target)
        → Serves code (ok target) (success accounts)
    refused :
        (reason : Failure)
        → Serves code
            (err reason)
            (failure (if not (length code == 0) && ltb (length code) 4 then abort else extension))

  module _ (code : Bytes) (here : d.protocol_addr ≡ photon_id)
      (coded : d.function_selector ≡ by_code code)
      (no_pda : (seeds : List Bytes) → bytes_eq (find_program_address seeds) photon_id ≡ false)
      (no_executor : bytes_eq executor photon_id ≡ false)
      (no_system : bytes_eq system_program photon_id ≡ false) where
    is_kept :
        (key : Bytes) → bytes_eq key photon_id ≡ false → not (bytes_eq key d.protocol_addr) ≡ true
    is_kept key e = ap (λ a. not (bytes_eq key a)) here ∙ ap not e

    is_pda_kept :
        (seeds : List Bytes) → not (bytes_eq (find_program_address seeds) d.protocol_addr) ≡ true
    is_pda_kept seeds = is_kept (find_program_address seeds) (no_pda seeds)

    is_dropped : not (bytes_eq photon_id d.protocol_addr) ≡ false
    is_dropped = ap not ((bytes_eq_iff photon_id d.protocol_addr).1 (sym here))

    -- The metas of the call: the program itself is left out.
    abbrev program_meta : AccountMeta
    program_meta = record { key = photon_id; is_signer = false; is_writable = false }

    abbrev all_accounts : Bytes → List AccountMeta
    all_accounts target =
        call_accounts env executor op_hash d program_meta (accounts_for env system_program target)

    call_metas :
        (target : Bytes)
        → filter_b (λ (a : AccountMeta). not (bytes_eq a.key d.protocol_addr)) (all_accounts target)
          ≡ rest_of (all_accounts target)
    unfolding accounts_for
    call_metas target =
        filter_b-others (λ a. not (bytes_eq a.key d.protocol_addr)) program_meta
          (rest_of (all_accounts target)) is_dropped
          (
            is_kept executor no_executor,
            (
              is_pda_kept (root ∷ call_authority_seed ∷ d.protocol_id ∷ []),
              (
                is_pda_kept (root ∷ op_seed ∷ op_hash ∷ []),
                (
                  is_pda_kept (root ∷ config_seed ∷ []),
                  (
                    is_pda_kept (root ∷ protocol_seed ∷ gov_protocol_id ∷ []),
                    (
                      is_pda_kept (root ∷ protocol_seed ∷ target ∷ []),
                      (is_kept system_program no_system, tt),
                    ),
                  ),
                ),
              ),
            ),
          )

    -- The call that is built.
    abbrev call_to : Bytes → List AccountMeta → CpiInstruction
    call_to target metas = record {
      program_id = d.protocol_addr;
      metas = metas;
      ix_data =
          sighash env global receive_photon_msg_name ++ env.borsh (op_hash ∷ code ∷ d.params ∷ []);
    }

    program_found :
        (target : Bytes)
        → program_account d.protocol_addr (accounts_for env system_program target) ≡ ok program_meta
    unfolding program_account accounts_for
    program_found target = rw ((bytes_eq_iff photon_id d.protocol_addr).1 (sym here)) refl

    call_coded :
        call_of env d op_hash
        ≡ ok (receive_photon_msg_name, env.borsh (op_hash ∷ code ∷ d.params ∷ []))
    unfolding call_of
    call_coded = rw coded refl

    call_built :
        (target : Bytes)
        → build_call env executor op_hash d (accounts_for env system_program target)
          ≡ ok (call_to target (rest_of (all_accounts target)))
    unfolding build_call
    call_built target = rw (program_found target, call_coded, call_metas target) refl

    call_served :
        (target : Bytes)
        → Serves code (ok target) (success (accounts_for env system_program target))
    unfolding accounts_for
    call_served target =
        served target (accounts_for env system_program target)
          (call_to target (rest_of (all_accounts target))) (call_built target) here
          (
            (refl, refl, refl),
            (
              (refl, refl, refl),
              (
                (refl, refl, refl),
                (
                  (refl, refl, refl),
                  ((refl, refl, refl), ((refl, refl, refl), ((refl, refl, refl), tt))),
                ),
              ),
            ),
          )

    target_served :
        (r : Result Bytes) → Serves code r (accounts_of_target env system_program code r)
    unfolding accounts_of_target
    target_served (ok target) = call_served target
    target_served (err reason) = refused reason

    -- For a governance operation on the endpoint, called by code, where no derived address, nor the
    -- executor, nor the system program has the program's address. If the program finds a target
    -- protocol in the parameters, the extension answers with accounts from which `execute_operation`
    -- builds a call of the program whose accounts are those of `receive_photon_msg` for that very
    -- target, in order and with the rights that they need. If the program finds none, the extension
    -- fails too, and aborts exactly for a selector of one, two or three bytes.
    pub gov_accounts-Serves :
        Serves code
          (target_protocol env (by_code code) d.params)
          (gov_accounts env system_program code d.params)
    gov_accounts-Serves =
        subst (Serves code (target_protocol env (by_code code) d.params))
          (sym (gov_accounts-target_protocol env system_program code d.params))
          (target_served (target_protocol env (by_code code) d.params))
