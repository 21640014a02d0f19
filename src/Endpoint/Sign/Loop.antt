-- ===== src/Endpoint/Sign/Loop.antt =====
-- The loop of `sign_operation` over the signatures: whom it counts, and when it stops.
use photon_solana_contracts.Prelude.{
  ℕ, ◌≤◌, ◌<◌, ◌≡◌, sym, ap, ◌∙◌, subst, ◌⊎◌, inl, inr, Bool, true, false, Bytes, List, [], ◌∷◌,
  ◌++◌, append-nil, append_assoc, length, contains, All, arith, bytes_eq_iff,
}
use photon_solana_contracts.Errors.{Result, ok, >>=-elim, ok-injective}
use photon_solana_contracts.Environment.{Environment}
use photon_solana_contracts.Slots.Laws.{AreDistinct, AreDistinct-snoc, contains-append}
use photon_solana_contracts.ProtocolData.{EthAddress, TransmitterSignature, ecrecover}
use photon_solana_contracts.Endpoint.Sign.{Tally, consensus_rate, count_signer, sign_loop}

-- Some signature of the list recovers to `t`.
abbrev pub Recovers : Environment → Bytes → EthAddress → List TransmitterSignature → Type 0
Recovers env op_hash t [] = ⊥
Recovers env op_hash t (sig ∷ sigs) =
    (ecrecover env op_hash sig ≡ ok t) ⊎ Recovers env op_hash t sigs

-- The one that was just appended is in the list.
joined :
    (signers : List EthAddress) {t a : EthAddress} → t ≡ a → contains (signers ++ t ∷ []) a ≡ true
unfolding contains
joined signers {t} {a} same = ground (arith, contains-append signers (t ∷ []) a, bytes_eq_iff t a)

-- One that is passed over, though allowed, is already a signer.
known :
    (allowed signers : List EthAddress) {t a : EthAddress}
    → t ≡ a
    → contains allowed a ≡ true
    → (contains allowed t ≡ false) ⊎ (contains signers t ≡ true)
    → contains signers a ≡ true
known allowed signers {t} {a} same h (inl e) =
    absurd (cc (sym h ∙ ap (contains allowed) (sym same) ∙ e))
known allowed signers {t} {a} same h (inr e) = ap (contains signers) (sym same) ∙ e

module _ (env : Environment) (allowed : List EthAddress) (target : ℕ) (op_hash : Bytes) where
  -- An allowed transmitter that signed.
  abbrev pub IsSigner : List TransmitterSignature → EthAddress → Type 0
  IsSigner sigs t = (contains allowed t ≡ true) × Recovers env op_hash t sigs

  IsSigner-more :
      (sig : TransmitterSignature) (sigs : List TransmitterSignature) (ts : List EthAddress)
      → All (IsSigner sigs) ts
      → All (IsSigner (sig ∷ sigs)) ts
  IsSigner-more sig sigs [] h = tt
  IsSigner-more sig sigs (t ∷ ts) h = ((h.0.0, inr h.0.1), IsSigner-more sig sigs ts h.1)

  -- What one round does.
  count_signer_cases :
      (t : EthAddress) (signers : List EthAddress) (rest : List EthAddress → Result Tally)
      (r : Tally)
      → count_signer allowed target t signers rest ≡ ok r
      → ((contains allowed t ≡ true)
          × (contains signers t ≡ false)
          × (target ≤ consensus_rate (length (signers ++ t ∷ [])) (length allowed))
          × (r ≡ (signers ++ t ∷ [], true)))
        ⊎ (((contains allowed t ≡ true)
              × (contains signers t ≡ false)
              × (consensus_rate (length (signers ++ t ∷ [])) (length allowed) < target)
              × (rest (signers ++ t ∷ []) ≡ ok r))
            ⊎ (((contains allowed t ≡ false) ⊎ (contains signers t ≡ true))
                × (rest signers ≡ ok r)))
  count_signer_cases t signers rest r e = ground arith

  -- What the loop has done when it ends in `out`.
  pub record Counted (sigs : List TransmitterSignature) (signers out : List EthAddress)
      (reached : Bool) : Type 0 where
    pub added : List EthAddress
    pub extends : out ≡ signers ++ added
    pub signed : All (IsSigner sigs) added
    pub stays_distinct : AreDistinct signers → AreDistinct out
    pub in_consensus : reached ≡ true → target ≤ consensus_rate (length out) (length allowed)
    pub below :
        reached ≡ false
        → consensus_rate (length signers) (length allowed) < target
        → consensus_rate (length out) (length allowed) < target

  Counted-stop :
      (sig : TransmitterSignature) (sigs : List TransmitterSignature) (t : EthAddress)
      (signers out : List EthAddress)
      → ecrecover env op_hash sig ≡ ok t
      → contains allowed t ≡ true
      → contains signers t ≡ false
      → target ≤ consensus_rate (length (signers ++ t ∷ [])) (length allowed)
      → out ≡ signers ++ t ∷ []
      → (reached : Bool) → reached ≡ true
      → Counted (sig ∷ sigs) signers out reached
  Counted-stop sig sigs t signers out recovered allowed_t new enough e reached yes_reached =
      record {
        added = t ∷ [];
        extends = e;
        signed = ((allowed_t, inl recovered), tt);
        stays_distinct = λ d. subst AreDistinct (sym e) (AreDistinct-snoc signers t d new);
        in_consensus =
            λ _. subst (λ s. target ≤ consensus_rate (length s) (length allowed)) (sym e) enough;
        below = λ no_reached _. absurd (cc (sym yes_reached ∙ no_reached));
      }

  Counted-next :
      (sig : TransmitterSignature) (sigs : List TransmitterSignature) (t : EthAddress)
      (signers out : List EthAddress) (reached : Bool)
      → ecrecover env op_hash sig ≡ ok t
      → contains allowed t ≡ true
      → contains signers t ≡ false
      → consensus_rate (length (signers ++ t ∷ [])) (length allowed) < target
      → Counted sigs (signers ++ t ∷ []) out reached
      → Counted (sig ∷ sigs) signers out reached
  Counted-next sig sigs t signers out reached recovered allowed_t new few c = record {
    added = t ∷ c.added;
    extends = c.extends ∙ append_assoc signers (t ∷ []) c.added;
    signed = ((allowed_t, inl recovered), IsSigner-more sig sigs c.added c.signed);
    stays_distinct = λ d. c.stays_distinct (AreDistinct-snoc signers t d new);
    in_consensus = c.in_consensus;
    below = λ no_reached _. c.below no_reached few;
  }

  Counted-skip :
      (sig : TransmitterSignature) (sigs : List TransmitterSignature)
      (signers out : List EthAddress) (reached : Bool)
      → Counted sigs signers out reached
      → Counted (sig ∷ sigs) signers out reached
  Counted-skip sig sigs signers out reached c = record {
    added = c.added;
    extends = c.extends;
    signed = IsSigner-more sig sigs c.added c.signed;
    stays_distinct = c.stays_distinct;
    in_consensus = c.in_consensus;
    below = c.below;
  }

  -- The loop only appends allowed transmitters whose signature is in the list, none of them twice,
  -- and, from below the target rate, it breaks off exactly when the signers reach it.
  pub sign_loop-Counted :
      (sigs : List TransmitterSignature) (signers out : List EthAddress) (reached : Bool)
      → sign_loop env allowed target op_hash sigs signers ≡ ok (out, reached)
      → Counted sigs signers out reached
  unfolding sign_loop
  sign_loop-Counted [] signers out reached e =
      let same : ◌≡◌ {A = Tally} (signers, false) (out, reached) = ok-injective e in
      record {
        added = [];
        extends = sym (ap (λ (t : Tally). t.0) same) ∙ sym (append-nil signers);
        signed = tt;
        stays_distinct = λ d. subst AreDistinct (ap (λ (t : Tally). t.0) same) d;
        in_consensus = λ r. absurd (cc (ap (λ (t : Tally). t.1) same));
        below = λ _ few.
            subst (λ s. consensus_rate (length s) (length allowed) < target)
              (ap (λ (t : Tally). t.0) same) few;
      }
  sign_loop-Counted (sig ∷ sigs) signers out reached e =
      >>=-elim (ecrecover env op_hash sig) _ e λ t recovered e1.
        elim (count_signer_cases t signers (sign_loop env allowed target op_hash sigs)
          (out, reached) e1) [
            | inl (allowed_t, new, enough, stop) ↦
                Counted-stop sig sigs t signers out recovered allowed_t new enough
                  (ap (λ (r : Tally). r.0) stop) reached (ap (λ (r : Tally). r.1) stop)
            | inr (inl (allowed_t, new, few, next)) ↦
                Counted-next sig sigs t signers out reached recovered allowed_t new few
                  (sign_loop-Counted sigs (signers ++ t ∷ []) out reached next)
            | inr (inr (ignored, next)) ↦
                Counted-skip sig sigs signers out reached
                  (sign_loop-Counted sigs signers out reached next)
          ]

  -- Whoever was a signer stays one.
  pub sign_loop-keeps :
      (sigs : List TransmitterSignature) (signers out : List EthAddress) (reached : Bool)
      (a : EthAddress)
      → sign_loop env allowed target op_hash sigs signers ≡ ok (out, reached)
      → contains signers a ≡ true
      → contains out a ≡ true
  sign_loop-keeps sigs signers out reached a e h =
      let c = sign_loop-Counted sigs signers out reached e in
      ap (λ xs. contains xs a) c.extends ∙ ground (arith, contains-append signers c.added a)

  -- If the loop ends without consensus, every allowed transmitter with a signature in the list
  -- is among the signers.
  pub sign_loop_complete :
      (sigs : List TransmitterSignature) (signers out : List EthAddress) (a : EthAddress)
      → sign_loop env allowed target op_hash sigs signers ≡ ok (out, false)
      → contains allowed a ≡ true
      → Recovers env op_hash a sigs
      → contains out a ≡ true
  unfolding sign_loop
  sign_loop_complete [] signers out a e h r = absurd r
  sign_loop_complete (sig ∷ sigs) signers out a e h r =
      >>=-elim (ecrecover env op_hash sig) _ e λ t recovered e1.
        elim (count_signer_cases t signers (sign_loop env allowed target op_hash sigs) (out, false)
          e1) [
            | inl (allowed_t, new, enough, stop) ↦ absurd (cc (ap (λ (r : Tally). r.1) stop))
            | inr (inl (allowed_t, new, few, next)) ↦ elim r [
              | inl mine ↦
                  sign_loop-keeps sigs (signers ++ t ∷ []) out false a next
                    (joined signers (ok-injective (sym recovered ∙ mine)))
              | inr later ↦ sign_loop_complete sigs (signers ++ t ∷ []) out a next h later
            ]
            | inr (inr (ignored, next)) ↦ elim r [
              | inl mine ↦
                  sign_loop-keeps sigs signers out false a next
                    (known allowed signers (ok-injective (sym recovered ∙ mine)) h ignored)
              | inr later ↦ sign_loop_complete sigs signers out a next h later
            ]
          ]
