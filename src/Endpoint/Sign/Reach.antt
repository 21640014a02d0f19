-- ===== src/Endpoint/Sign/Reach.antt =====
-- `sign_operation` with enough signatures: the loop reaches the target, and the operation is signed.
use photon_solana_contracts.Prelude.{
  ℕ, ◌+◌, ◌≤◌, ◌<◌, ◌≡◌, refl, sym, ap, subst, inl, inr, true, false, Bytes, List, [], ◌∷◌, ◌++◌,
  append-nil, append_assoc, length, length-append, leb, ltb, contains, All, arith, bytes_eq,
  bytes_eq_iff, Bool-cases,
}
use native.Mathlib.Nat.{zero-div}
use photon_solana_contracts.Errors.{ok}
use photon_solana_contracts.Environment.{Environment}
use photon_solana_contracts.Slots.{without}
use photon_solana_contracts.Slots.Laws.{AreDistinct, contains-append, padded, store_fits}
use photon_solana_contracts.ProtocolData.{
  EthAddress, default_eth_address, TransmitterSignature, OperationData, OpStatus, ecrecover,
}
use photon_solana_contracts.State.{OpInfo, ProtocolInfo, transmitters, max_signers}
use photon_solana_contracts.Endpoint.Load.Effects.{loaded}
use photon_solana_contracts.Endpoint.Sign.{consensus_rate, sign_loop, sign_op}

-- Those after a new signer are still new.
All-new :
    (signers : List EthAddress) (t : EthAddress) (ts : List EthAddress)
    → contains ts t ≡ false
    → All (λ u. contains signers u ≡ false) ts
    → All (λ u. contains (signers ++ t ∷ []) u ≡ false) ts
unfolding contains
All-new signers t [] h n = tt
All-new signers t (u ∷ ts) h n = (
  ground (arith, contains-append signers (t ∷ []) u, bytes_eq_iff t u, bytes_eq_iff u t),
  All-new signers t ts (ground arith) n.1,
)

module _ (env : Environment) (allowed : List EthAddress) (target : ℕ) (op_hash : Bytes) where
  -- Each signature recovers to the transmitter at its place.
  abbrev pub RecoverTo : List TransmitterSignature → List EthAddress → Type 0
  RecoverTo [] [] = Unit
  RecoverTo [] (t ∷ ts) = ⊥
  RecoverTo (sig ∷ sigs) [] = ⊥
  RecoverTo (sig ∷ sigs) (t ∷ ts) = (ecrecover env op_hash sig ≡ ok t) × RecoverTo sigs ts

  -- The loop breaks off on consensus.
  abbrev pub Reaches : List TransmitterSignature → List EthAddress → List EthAddress → Type 0
  Reaches sigs signers ts =
      (out : List EthAddress) × (sign_loop env allowed target op_hash sigs signers ≡ ok (out, true))
      × (length out ≤ length signers + length ts)

  pub sign_loop-Reaches :
      (sigs : List TransmitterSignature) (signers ts : List EthAddress)
      → RecoverTo sigs ts
      → All (λ t. contains allowed t ≡ true) ts
      → AreDistinct ts
      → All (λ t. contains signers t ≡ false) ts
      → consensus_rate (length signers) (length allowed) < target
      → target ≤ consensus_rate (length (signers ++ ts)) (length allowed)
      → Reaches sigs signers ts
  unfolding sign_loop
  sign_loop-Reaches [] signers [] r a d n few enough =
      let same = ap (λ xs. consensus_rate (length xs) (length allowed)) (append-nil signers) in
      absurd (omega arith)
  sign_loop-Reaches [] signers (t ∷ ts) r a d n few enough = absurd r
  sign_loop-Reaches (sig ∷ sigs) signers [] r a d n few enough = absurd r
  sign_loop-Reaches (sig ∷ sigs) signers (t ∷ ts) r a d n few enough =
      elim (Bool-cases
        (leb target (consensus_rate (length (signers ++ t ∷ [])) (length allowed)))) [
          | inl stop ↦ (
            signers ++ t ∷ [],
            rw (r.0, a.0, n.0, stop) refl,
            omega (arith, length-append signers (t ∷ [])),
          )
          | inr more ↦
              let (out, looped, short) =
                sign_loop-Reaches sigs (signers ++ t ∷ []) ts r.1 a.1 d.1
                  (All-new signers t ts d.0 n.1) (ground arith)
                  (subst (λ xs. target ≤ consensus_rate (length xs) (length allowed))
                    (sym (append_assoc signers (t ∷ []) ts)) enough) in
              (out, rw (r.0, a.0, n.0, more) looped, omega (arith, length-append signers (t ∷ [])))
        ]

no_signers : (d : OperationData) → without default_eth_address (loaded d).unique_signers ≡ []
unfolding without bytes_eq
no_signers d = refl

consensus_rate-zero : (n target : ℕ) → 0 < n → 0 < target → consensus_rate 0 n < target
unfolding consensus_rate
consensus_rate-zero n target pos h = omega (arith, zero-div n)

All-unknown : (ts : List EthAddress) → All (λ t. contains [] t ≡ false) ts
unfolding contains
All-unknown [] = tt
All-unknown (t ∷ ts) = (refl, All-unknown ts)

-- The account of `d` when it is signed by the transmitters `out`.
abbrev pub signed_by : OperationData → List EthAddress → OpInfo
signed_by d out = record (loaded d) {
  status = OpStatus.signed;
  unique_signers = padded max_signers default_eth_address out;
}

module _ (env : Environment) (d : OperationData) (h : Bytes) (info : ProtocolInfo) where
  pub sign_op_reaches :
      (sigs : List TransmitterSignature) (ts : List EthAddress)
      → RecoverTo env (transmitters info) info.consensus_target_rate h sigs ts
      → All (λ t. contains (transmitters info) t ≡ true) ts
      → AreDistinct ts
      → length ts ≤ max_signers
      → 0 < length (transmitters info)
      → 0 < info.consensus_target_rate
      → info.consensus_target_rate ≤ consensus_rate (length ts) (length (transmitters info))
      → (out : List EthAddress) × (sign_op env info h sigs (loaded d)
          ≡ ok (true, signed_by d out, true))
  unfolding sign_op
  sign_op_reaches sigs ts r a dist fits pos target_pos enough =
      let few =
        consensus_rate-zero (length (transmitters info)) info.consensus_target_rate pos
          target_pos in
      let (out, looped, short) =
        sign_loop-Reaches env (transmitters info) info.consensus_target_rate h sigs [] ts r a dist
          (All-unknown ts) few enough in
      let some_allowed : ltb 0 (length (transmitters info)) ≡ true = ground arith in
      let low : leb info.consensus_target_rate (consensus_rate 0 (length (transmitters info)))
          ≡ false =
        ground arith in
      (
        out,
        rw
            (
              some_allowed,
              no_signers d,
              low,
              looped,
              store_fits max_signers default_eth_address out (omega arith),
            )
            refl,
      )
