-- ===== src/Transactor/IxCompiler/Delivery.antt =====
-- No instruction is lost, repeated or reordered on its way through the compiler.
use photon_solana_contracts.Prelude.{
  ℕ, ◌+◌, ◌≤◌, ◌≡◌, refl, sym, ap, subst, List, [], ◌∷◌, ◌++◌, append-nil, Option, none, some,
  Bytes, if-elim, arith,
}
use photon_solana_contracts.Transactor.IxCompiler.{
  Sdk, IxCompiler, Attempt, done, failed, ◌>>=◌, with_budget, message_of, place, compile, flush,
  exceeds_limits, approaches_limits, add_u32, max_cu,
}

pub >>=-done {ℓ κ μ} :
    {A : Type ℓ} {B : Type κ} {P : Type μ} (m : Attempt A) (f : A → Attempt B) {b : B}
    → (m >>= f) ≡ done b
    → ((a : A) → m ≡ done a → f a ≡ done b → P)
    → P
>>=-done (done a) f e k = k a refl e
>>=-done (failed reason) f e k = absurd (cc e)

pub done_injective {ℓ} : {A : Type ℓ} {a b : A} → done a ≡ done b → a ≡ b
done_injective e = cc

module _ (sdk : Sdk) where
  open sdk use {Ix, Table, Message, try_compile, serialized_length}

  -- The message was compiled from exactly these instructions, behind a unit limit and the price.
  pub record Carries (payer : Bytes) (price : Option ℕ) (m : Message) (sent : List Ix)
      : Type 0 where
    pub units : ℕ
    pub used : List Table
    pub compiled : try_compile payer (with_budget sdk units price sent) used ≡ some m

  -- What leaves with an answer: nothing, or the instructions of its message.
  abbrev pub Leaves : IxCompiler sdk → Option Message → List Ix → Type 0
  Leaves c none sent = sent ≡ []
  Leaves c (some m) sent = Carries c.payer c.compute_units_price m sent

  message_of-Carries :
      (c : IxCompiler sdk) (units : ℕ) (ixs : List Ix) (used : List Table) {m : Message}
      → message_of sdk c units ixs used ≡ done m
      → Carries c.payer c.compute_units_price m ixs
  unfolding message_of
  message_of-Carries c units ixs used e = record {
    units = units;
    used = used;
    compiled = ground arith;
  }

  -- What a call of `compile` has done: the instructions that leave and those that stay are the
  -- buffered ones and the new one, in this order.
  pub record Kept (c c' : IxCompiler sdk) (out : Option Message) (ixs : List Ix) : Type 0 where
    pub sent : List Ix
    pub leaves : Leaves c out sent
    pub in_order : sent ++ c'.ix_buffer ≡ c.ix_buffer ++ ixs
    pub same_payer : c'.payer ≡ c.payer
    pub same_price : c'.compute_units_price ≡ c.compute_units_price

  place-Kept :
      (c c' : IxCompiler sdk) (ix : Ix) (used : List Table) (units total : ℕ) (m : Message)
      (out : Option Message)
      → message_of sdk c total (c.ix_buffer ++ ix ∷ []) (c.tables ++ used) ≡ done m
      → place sdk c ix used units total m ≡ done (out, c')
      → Kept c c' out (ix ∷ [])
  unfolding place
  place-Kept c c' ix used units total m out compiled e =
      if-elim (exceeds_limits (serialized_length m) total) e
        (λ _ e1.
          >>=-done (message_of sdk c c.total_compute_units c.ix_buffer c.tables) _ e1
            λ previous sent e2.
              subst (λ (t : Option Message × IxCompiler sdk). Kept c t.1 t.0 (ix ∷ []))
                (done_injective e2)
                (record {
                  sent = c.ix_buffer;
                  leaves = message_of-Carries c c.total_compute_units c.ix_buffer c.tables sent;
                  in_order = refl;
                  same_payer = refl;
                  same_price = refl;
                }))
        (λ _ e1.
          if-elim (approaches_limits (serialized_length m) total) e1
            (λ _ e2.
              subst (λ (t : Option Message × IxCompiler sdk). Kept c t.1 t.0 (ix ∷ []))
                (done_injective e2)
                (record {
                  sent = c.ix_buffer ++ ix ∷ [];
                  leaves =
                      message_of-Carries c total (c.ix_buffer ++ ix ∷ []) (c.tables ++ used)
                        compiled;
                  in_order = append-nil (c.ix_buffer ++ ix ∷ []);
                  same_payer = refl;
                  same_price = refl;
                }))
            (λ _ e2. >>=-done (add_u32 c.total_compute_units total) _ e2 λ sum _ e3.
              subst (λ (t : Option Message × IxCompiler sdk). Kept c t.1 t.0 (ix ∷ []))
                (done_injective e3)
                (record {
                  sent = [];
                  leaves = refl;
                  in_order = refl;
                  same_payer = refl;
                  same_price = refl;
                })))

  -- A call of `compile` that succeeds neither drops nor repeats an instruction: those of the message
  -- that it returns, followed by those that it keeps, are the buffered ones followed by the new one.
  pub compile-Kept :
      (c c' : IxCompiler sdk) (ix : Ix) (used : List Table) (units : ℕ) (out : Option Message)
      → compile sdk c ix used units ≡ done (out, c')
      → Kept c c' out (ix ∷ [])
  unfolding compile
  compile-Kept c c' ix used units out e =
      >>=-done (message_of sdk c units (ix ∷ []) used) _ e λ single _ e1.
        if-elim (exceeds_limits (serialized_length single) units) e1 (λ _ e2. absurd (cc e2))
          (λ _ e2. >>=-done (add_u32 c.total_compute_units units) _ e2 λ total _ e3.
            >>=-done (message_of sdk c total (c.ix_buffer ++ ix ∷ []) (c.tables ++ used)) _ e3
              λ m compiled e4. place-Kept c c' ix used units total m out compiled e4)

  -- A flush sends the buffer and leaves it empty.
  pub flush-Kept :
      (c c' : IxCompiler sdk) (out : Option Message)
      → flush sdk c ≡ done (out, c')
      → Kept c c' out [] × (c'.ix_buffer ≡ [])
  unfolding flush
  flush-Kept c c' out e = flushed c.ix_buffer refl e
    where
      flushed :
          (buffer : List Ix)
          → c.ix_buffer ≡ buffer
          → elim buffer as (λ _. Attempt (Option Message × IxCompiler sdk)) [
            | [] ↦ done (none, c)
            | ix ∷ rest ↦ message_of sdk c c.total_compute_units c.ix_buffer c.tables >>= λ m.
                done (some m, record c { ix_buffer = []; tables = []; total_compute_units = 0 })
          ]
            ≡ done (out, c')
          → Kept c c' out [] × (c'.ix_buffer ≡ [])
      flushed [] same e1 =
          subst (λ (t : Option Message × IxCompiler sdk). Kept c t.1 t.0 [] × (t.1.ix_buffer ≡ []))
            (done_injective e1)
            (
              record {
                sent = [];
                leaves = refl;
                in_order = sym (append-nil c.ix_buffer);
                same_payer = refl;
                same_price = refl;
              },
              same,
            )
      flushed (ix ∷ rest) same e1 =
          >>=-done (message_of sdk c c.total_compute_units c.ix_buffer c.tables) _ e1
            λ m compiled e2.
              subst
                (λ (t : Option Message × IxCompiler sdk). Kept c t.1 t.0 [] × (t.1.ix_buffer ≡ []))
                (done_injective e2)
                (
                  record {
                    sent = c.ix_buffer;
                    leaves =
                        message_of-Carries c c.total_compute_units c.ix_buffer c.tables compiled;
                    in_order = refl;
                    same_payer = refl;
                    same_price = refl;
                  },
                  refl,
                )

  -- Where an instruction is only buffered, the stored total grows by the old total and the new
  -- one, so that the units that were buffered before are counted twice; the old total with the
  -- instruction's units is at most the limit.
  pub compile_units :
      (c c' : IxCompiler sdk) (ix : Ix) (used : List Table) (units : ℕ)
      → compile sdk c ix used units ≡ done (none, c')
      → (c'.total_compute_units ≡ c.total_compute_units + (c.total_compute_units + units))
        × (c.total_compute_units + units ≤ max_cu)
  unfolding compile place add_u32 exceeds_limits
  compile_units c c' ix used units e =
      >>=-done (message_of sdk c units (ix ∷ []) used) _ e λ single _ e1.
        if-elim (exceeds_limits (serialized_length single) units) e1 (λ _ e2. absurd (cc e2))
          (λ _ e2. >>=-done (add_u32 c.total_compute_units units) _ e2 λ total added e3.
            >>=-done (message_of sdk c total (c.ix_buffer ++ ix ∷ []) (c.tables ++ used)) _ e3
              λ m compiled e4.
                let total_is : total ≡ c.total_compute_units + units = ground arith in
                if-elim (exceeds_limits (serialized_length m) total) e4
                  (λ _ e5.
                    >>=-done (message_of sdk c c.total_compute_units c.ix_buffer c.tables) _ e5
                      λ _ _ e6. absurd (cc e6))
                  (λ small e5.
                    if-elim (approaches_limits (serialized_length m) total) e5
                      (λ _ e6. absurd (cc e6))
                      (λ _ e6. >>=-done (add_u32 c.total_compute_units total) _ e6 λ sum summed e7.
                        (
                          let s =
                                ap
                                  (λ (t : Option Message × IxCompiler sdk). t.1.total_compute_units)
                                  (done_injective e7) in
                              ground arith,
                          ground arith,
                        ))))
