-- ===== src/Transactor/SendAll.antt =====
-- `send_all_instructions` (solana-transactor/src/transactor.rs): the messages that a list of bundles
-- becomes, in the order in which they are sent when the limit of parallel messages is 1. A message
-- that cannot be sent is reported and does not stop the others.
pub mod Units
use photon_solana_contracts.Prelude.{
  ℕ, ◌≡◌, refl, sym, ap, ◌∙◌, subst, subst₂, List, [], ◌∷◌, ◌++◌, append_assoc, append-nil, map,
  Bytes, Option, none, some,
}
use photon_solana_contracts.Transactor.IxCompiler.{
  Sdk, Attempt, done, ◌>>=◌, IxCompiler, new, compile, flush,
}
use photon_solana_contracts.Transactor.IxCompiler.Delivery.{
  Carries, Leaves, Kept, compile-Kept, flush-Kept, >>=-done, done_injective,
}

module _ (sdk : Sdk) where
  open sdk use {Ix, Table, Message}

  -- `InstructionBundle`
  pub record InstructionBundle : Type 0 where
    pub instruction : Ix
    pub compute_units : ℕ

  abbrev pub or_nothing : Option Message → List Message
  or_nothing none = []
  or_nothing (some m) = m ∷ []

  -- The `filter_map` with `collect`, which stops at the first failure.
  unfoldable pub compile_all :
      List Table → List InstructionBundle → IxCompiler sdk → Attempt (List Message × IxCompiler sdk)
  compile_all alt [] c = done ([], c)
  compile_all alt (bundle ∷ bundles) c =
      compile sdk c bundle.instruction alt bundle.compute_units >>= λ first.
      compile_all alt bundles first.1 >>= λ rest. done (or_nothing first.0 ++ rest.0, rest.1)

  unfoldable pub messages_of :
      Bytes → Option ℕ → List Table → List InstructionBundle → Attempt (List Message)
  messages_of payer compute_unit_price alt instructions =
      compile_all alt instructions (new sdk payer compute_unit_price) >>= λ compiled.
      flush sdk compiled.1 >>= λ last. done (compiled.0 ++ or_nothing last.0)

  -- The messages carry the instructions, in order.
  abbrev pub AllCarry : Bytes → Option ℕ → List Message → List Ix → Type 0
  AllCarry payer price [] ixs = ixs ≡ []
  AllCarry payer price (m ∷ messages) ixs =
      (sent : List Ix) × (later : List Ix) × (ixs ≡ sent ++ later)
      × Carries sdk payer price m sent
      × AllCarry payer price messages later

  AllCarry-append :
      (payer : Bytes) (price : Option ℕ) (ms ns : List Message) (xs ys : List Ix)
      → AllCarry payer price ms xs
      → AllCarry payer price ns ys
      → AllCarry payer price (ms ++ ns) (xs ++ ys)
  AllCarry-append payer price [] ns xs ys h k =
      subst (λ l. AllCarry payer price ns (l ++ ys)) (sym h) k
  AllCarry-append payer price (m ∷ ms) ns xs ys (sent, later, cut, carries, rest) k = (
    sent,
    later ++ ys,
    ap (λ l. l ++ ys) cut ∙ append_assoc sent later ys,
    carries,
    AllCarry-append payer price ms ns later ys rest k,
  )

  Leaves-AllCarry :
      (c : IxCompiler sdk) (out : Option Message) (sent : List Ix)
      → Leaves sdk c out sent
      → AllCarry c.payer c.compute_units_price (or_nothing out) sent
  Leaves-AllCarry c none sent h = h
  Leaves-AllCarry c (some m) sent h = (sent, [], sym (append-nil sent), h, refl)

  abbrev pub instructions_of : List InstructionBundle → List Ix
  instructions_of bundles = map (λ (b : InstructionBundle). b.instruction) bundles

  -- What the messages so far carry, and what is left in the buffer.
  abbrev pub Delivered : IxCompiler sdk → List Ix → List Message × IxCompiler sdk → Type 0
  Delivered c ixs r =
      (sent : List Ix) × AllCarry c.payer c.compute_units_price r.0 sent
      × (sent ++ r.1.ix_buffer ≡ c.ix_buffer ++ ixs)
      × (r.1.payer ≡ c.payer)
      × (r.1.compute_units_price ≡ c.compute_units_price)

  -- One step, and what follows it.
  then-Delivered :
      (c c' : IxCompiler sdk) (out : Option Message) (now later : List Ix)
      (r : List Message × IxCompiler sdk)
      → Kept sdk c c' out now
      → Delivered c' later r
      → Delivered c (now ++ later) (or_nothing out ++ r.0, r.1)
  then-Delivered c c' out now later r kept (sent, carried, order, payer, price) = (
    kept.sent ++ sent,
    AllCarry-append c.payer c.compute_units_price (or_nothing out) r.0 kept.sent sent
        (Leaves-AllCarry c out kept.sent kept.leaves)
        (subst₂ (λ y p. AllCarry y p r.0 sent) kept.same_payer kept.same_price carried),
    append_assoc kept.sent sent r.1.ix_buffer
        ∙ ap (λ l. kept.sent ++ l) order
        ∙ sym (append_assoc kept.sent c'.ix_buffer later)
        ∙ ap (λ l. l ++ later) kept.in_order
        ∙ append_assoc c.ix_buffer now later,
    payer ∙ kept.same_payer,
    price ∙ kept.same_price,
  )

  pub compile_all-Delivered :
      (alt : List Table) (bundles : List InstructionBundle) (c : IxCompiler sdk)
      {r : List Message × IxCompiler sdk}
      → compile_all alt bundles c ≡ done r
      → Delivered c (instructions_of bundles) r
  unfolding compile_all
  compile_all-Delivered alt [] c e =
      subst (Delivered c []) (done_injective e) ([], refl, sym (append-nil c.ix_buffer), refl, refl)
  compile_all-Delivered alt (bundle ∷ bundles) c e =
      >>=-done (compile sdk c bundle.instruction alt bundle.compute_units) _ e λ first compiled e1.
        >>=-done (compile_all alt bundles first.1) _ e1 λ rest later e2.
          subst (Delivered c (bundle.instruction ∷ instructions_of bundles)) (done_injective e2) (
            then-Delivered c first.1 first.0 (bundle.instruction ∷ []) (instructions_of bundles)
              rest
              (compile-Kept sdk c first.1 bundle.instruction alt bundle.compute_units first.0
                compiled)
              (compile_all-Delivered alt bundles first.1 later))

  -- If the bundles can be packed, the messages carry all of their instructions, each exactly once and
  -- in the given order, behind the payer's unit limit and price.
  pub messages_of-AllCarry :
      (payer : Bytes) (price : Option ℕ) (alt : List Table) (bundles : List InstructionBundle)
      {messages : List Message}
      → messages_of payer price alt bundles ≡ done messages
      → AllCarry payer price messages (instructions_of bundles)
  unfolding messages_of new
  messages_of-AllCarry payer price alt bundles e =
      >>=-done (compile_all alt bundles (new sdk payer price)) _ e λ compiled all e1.
        >>=-done (flush sdk compiled.1) _ e1 λ last flushed e2.
          let (sent, carried, order, same_payer, same_price) =
            compile_all-Delivered alt bundles (new sdk payer price) all in
          let (kept, emptied) = flush-Kept sdk compiled.1 last.1 last.0 flushed in
          let all_sent : kept.sent ≡ compiled.1.ix_buffer =
            sym (append-nil kept.sent)
            ∙ ap (λ l. kept.sent ++ l) (sym emptied)
            ∙ kept.in_order
            ∙ append-nil compiled.1.ix_buffer in
          subst₂ (AllCarry payer price) (done_injective e2) (ap (λ l. sent ++ l) all_sent ∙ order) (
            AllCarry-append payer price compiled.0 (or_nothing last.0) sent kept.sent carried (
              subst₂ (λ y p. AllCarry y p (or_nothing last.0) kept.sent) same_payer same_price
                (Leaves-AllCarry compiled.1 last.0 kept.sent kept.leaves)))
