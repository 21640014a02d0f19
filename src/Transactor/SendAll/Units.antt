-- ===== src/Transactor/SendAll/Units.antt =====
-- The compute units that a message asks for when its instructions were buffered one after the other:
-- `compile` adds the old total twice (ix_compiler.rs), and `flush` asks for the stored total.
use photon_solana_contracts.Prelude.{
  ℕ, zero, suc, ◌+◌, ◌*◌, ◌^◌, ◌≤◌, ◌<◌, ◌≡◌, refl, sym, ap, ◌∙◌, subst₂, List, [], ◌∷◌, ◌++◌,
  length, Bytes, Option, none, some, arith,
}
use native.Mathlib.Nat.{two-pow-succ}
use photon_solana_contracts.Transactor.IxCompiler.{
  Sdk, done, IxCompiler, new, compile, flush, with_budget, message_of,
}
use photon_solana_contracts.Transactor.IxCompiler.Delivery.{compile_units, >>=-done, done_injective}
use photon_solana_contracts.Transactor.SendAll.{
  InstructionBundle, compile_all, or_nothing, instructions_of, compile_all-Delivered,
}

doubled_once : (t u p w : ℕ) → (t + (t + u)) * p + w ≡ t * (2 * p) + (u * p + w)
doubled_once t u p w = grind arith

two_pow_pos : (n : ℕ) → 1 ≤ 2 ^ n
two_pow_pos zero = omega arith
two_pow_pos (suc n) = omega (arith, two-pow-succ n, two_pow_pos n)

two-pow-double : (n : ℕ) → 2 ^ suc n ≡ 2 * 2 ^ n
two-pow-double n = omega (arith, two-pow-succ n)

module _ (sdk : Sdk) where
  open sdk use {Ix, Table, Message, try_compile}

  -- What the instructions need together.
  unfoldable pub total_units : List (InstructionBundle sdk) → ℕ
  total_units [] = 0
  total_units (b ∷ bundles) = b.compute_units + total_units bundles

  -- Every instruction's units, doubled once for each instruction after it.
  unfoldable pub doubled_units : List (InstructionBundle sdk) → ℕ
  doubled_units [] = 0
  doubled_units (b ∷ bundles) = b.compute_units * 2 ^ length bundles + doubled_units bundles

  total_units-le-doubled_units :
      (bundles : List (InstructionBundle sdk)) → total_units bundles ≤ doubled_units bundles
  unfolding total_units doubled_units
  total_units-le-doubled_units [] = omega arith
  total_units-le-doubled_units (b ∷ bundles) =
      let rest = total_units-le-doubled_units bundles in
      let once : 1 ≤ 2 ^ length bundles = two_pow_pos (length bundles) in grind arith

  total_units-lt-doubled_units :
      (b b' : InstructionBundle sdk) (bundles : List (InstructionBundle sdk))
      → 0 < b.compute_units
      → total_units (b ∷ b' ∷ bundles) < doubled_units (b ∷ b' ∷ bundles)
  unfolding total_units doubled_units
  total_units-lt-doubled_units b b' bundles pos =
      let rest = total_units-le-doubled_units (b' ∷ bundles) in
      let once = two_pow_pos (length bundles) in
      let twice = two-pow-succ (length bundles) in grind arith

  nothing_sent :
      (out : Option Message) (rest : List Message)
      → or_nothing sdk out ++ rest ≡ []
      → (out ≡ none) × (rest ≡ [])
  nothing_sent none rest e = (refl, e)
  nothing_sent (some m) rest e = absurd (cc e)

  compile_all-total :
      (alt : List Table) (bundles : List (InstructionBundle sdk)) (c c' : IxCompiler sdk)
      → compile_all sdk alt bundles c ≡ done ([], c')
      → c'.total_compute_units ≡ c.total_compute_units * 2 ^ length bundles + doubled_units bundles
  unfolding compile_all doubled_units
  compile_all-total alt [] c c' e =
      let s =
        ap (λ (r : List Message × IxCompiler sdk). r.1.total_compute_units) (done_injective e) in
      omega arith
  compile_all-total alt (b ∷ bundles) c c' e =
      >>=-done (compile sdk c b.instruction alt b.compute_units) _ e λ first compiled e1.
        >>=-done (compile_all sdk alt bundles first.1) _ e1 λ rest later e2.
          let same = done_injective e2 in
          let (none_now, none_later) =
            nothing_sent first.0 rest.0 (ap (λ (r : List Message × IxCompiler sdk). r.0) same) in
          let now =
            (compile_units sdk c first.1 b.instruction alt b.compute_units
              (compiled ∙ ap (λ o. done (o, first.1)) none_now)).0 in
          let after = compile_all-total alt bundles first.1 c' (
            subst₂ (λ ms x. compile_all sdk alt bundles first.1 ≡ done (ms, x)) none_later
              (ap (λ (r : List Message × IxCompiler sdk). r.1) same) later) in
          after
          ∙ ap (λ t. t * 2 ^ length bundles + doubled_units bundles) now
          ∙ doubled_once c.total_compute_units b.compute_units (2 ^ length bundles)
              (doubled_units bundles)
          ∙ ap (λ p. c.total_compute_units * p + doubled_units (b ∷ bundles))
              (sym (two-pow-double (length bundles)))

  flush-total :
      (c c' : IxCompiler sdk) (m : Message)
      → flush sdk c ≡ done (some m, c')
      → try_compile c.payer
          (with_budget sdk c.total_compute_units c.compute_units_price c.ix_buffer)
          c.tables
        ≡ some m
  unfolding flush message_of
  flush-total c c' m e = ground arith

  -- Let two bundles or more be compiled by a new compiler without a message that is due, so that all
  -- of them are buffered, and let the first need some compute units. The message of the flush then
  -- carries exactly their instructions, and it asks for every instruction's units doubled once for
  -- each instruction after it, which is more than they need together.
  pub flush-doubled_units :
      (payer : Bytes) (price : Option ℕ) (alt : List Table) (b b' : InstructionBundle sdk)
      (bundles : List (InstructionBundle sdk)) (c c' : IxCompiler sdk) (m : Message)
      → compile_all sdk alt (b ∷ b' ∷ bundles) (new sdk payer price) ≡ done ([], c)
      → flush sdk c ≡ done (some m, c')
      → 0 < b.compute_units
      → (try_compile payer
            (with_budget sdk
              (doubled_units (b ∷ b' ∷ bundles))
              price
              (instructions_of sdk (b ∷ b' ∷ bundles)))
            c.tables
          ≡ some m)
        × (total_units (b ∷ b' ∷ bundles) < doubled_units (b ∷ b' ∷ bundles))
  unfolding new
  flush-doubled_units payer price alt b b' bundles c c' m all flushed pos =
      let (sent, none_sent, order, same_payer, same_price) =
        compile_all-Delivered sdk alt (b ∷ b' ∷ bundles) (new sdk payer price) all in
      let buffered = sym (ap (λ l. l ++ c.ix_buffer) none_sent) ∙ order in
      let total : c.total_compute_units ≡ doubled_units (b ∷ b' ∷ bundles) =
        (let stored = compile_all-total alt (b ∷ b' ∷ bundles) (new sdk payer price) c all in
          grind arith) in
      (
        ap
              (λ y.
                try_compile y
                  (with_budget sdk (doubled_units (b ∷ b' ∷ bundles)) price
                    (instructions_of sdk (b ∷ b' ∷ bundles)))
                  c.tables)
              (sym same_payer)
            ∙ ap
                (λ p.
                  try_compile c.payer
                    (with_budget sdk (doubled_units (b ∷ b' ∷ bundles)) p
                      (instructions_of sdk (b ∷ b' ∷ bundles)))
                    c.tables)
                (sym same_price)
            ∙ ap
                (λ ixs.
                  try_compile c.payer
                    (with_budget sdk (doubled_units (b ∷ b' ∷ bundles)) c.compute_units_price ixs)
                    c.tables)
                (sym buffered)
            ∙ ap
                (λ units.
                  try_compile c.payer (with_budget sdk units c.compute_units_price c.ix_buffer)
                    c.tables)
                (sym total)
            ∙ flush-total c c' m flushed,
        total_units-lt-doubled_units b b' bundles pos,
      )
