-- ===== src/Transactor/IxCompiler.antt =====
-- `IxCompiler` (solana-transactor/src/ix_compiler.rs). The Solana SDK is a parameter: instructions,
-- address tables, messages, their compilation and their serialized size.
pub mod Delivery
use photon_solana_contracts.Prelude.{
  ℕ, ◌+◌, ◌-◌, ◌^◌, Bool, true, false, ◌||◌, List, [], ◌∷◌, ◌++◌, Option, none, some, ltb, leb,
  if◌then◌else◌, Bytes,
}

pub record Sdk : Type 1 where
  pub Ix : Type 0
  pub Table : Type 0
  pub Message : Type 0
  pub set_compute_unit_limit : ℕ → Ix
  pub set_compute_unit_price : ℕ → Ix
  pub try_compile : Bytes → List Ix → List Table → Option Message
  pub serialized_length : Message → ℕ

-- An abort for an overflow is a failure of its own.
pub data TransactorError : Type 0 where
  failed_to_compile instruction_too_big overflow : TransactorError

pub data Attempt {ℓ} (A : Type ℓ) : Type ℓ where
  done : A → Attempt A
  failed : TransactorError → Attempt A

infixl 5 ◌>>=◌
abbrev pub ◌>>=◌ {ℓ κ} : {A : Type ℓ} {B : Type κ} → Attempt A → (A → Attempt B) → Attempt B
failed reason >>= continue = failed reason
done result >>= continue = continue result

abbrev pub max_cu : ℕ
max_cu = 1400000

abbrev pub max_msg_len : ℕ
max_msg_len = 1167

unfoldable pub exceeds_limits : ℕ → ℕ → Bool
exceeds_limits msg_len compute_units = ltb max_msg_len msg_len || ltb max_cu compute_units

unfoldable pub approaches_limits : ℕ → ℕ → Bool
approaches_limits msg_len compute_units =
    leb (max_msg_len - 32) msg_len || leb (max_cu - 200000) compute_units

-- `+` on `u32`, with the overflow checks of the workspace's release profile.
unfoldable pub add_u32 : ℕ → ℕ → Attempt ℕ
add_u32 a b = if ltb (a + b) (2 ^ 32) then done (a + b) else failed overflow

module _ (sdk : Sdk) where
  open sdk use {
    Ix, Table, Message, set_compute_unit_limit, set_compute_unit_price, try_compile,
    serialized_length,
  }

  pub record IxCompiler : Type 0 where
    pub ix_buffer : List Ix
    pub total_compute_units : ℕ
    pub payer : Bytes
    pub tables : List Table
    pub compute_units_price : Option ℕ

  unfoldable pub new : Bytes → Option ℕ → IxCompiler
  new payer price = record {
    ix_buffer = [];
    total_compute_units = 0;
    payer = payer;
    tables = [];
    compute_units_price = price;
  }

  abbrev pub set_cu_price : Option ℕ → IxCompiler → IxCompiler
  set_cu_price price c = record c { compute_units_price = price }

  unfoldable pub get_ix_price_if_any : Option ℕ → List Ix
  get_ix_price_if_any none = []
  get_ix_price_if_any (some price) = set_compute_unit_price price ∷ []

  -- The instructions of a message: the unit limit and the price in front.
  abbrev pub with_budget : ℕ → Option ℕ → List Ix → List Ix
  with_budget units price ixs = set_compute_unit_limit units ∷ (get_ix_price_if_any price ++ ixs)

  unfoldable pub message_of : IxCompiler → ℕ → List Ix → List Table → Attempt Message
  message_of c units ixs tables =
      elim (try_compile c.payer (with_budget units c.compute_units_price ixs) tables) [
        | none ↦ failed failed_to_compile
        | some m ↦ done m
      ]

  -- The end of `compile`, for the message of the buffer with the new instruction.
  unfoldable pub place :
      IxCompiler → Ix → List Table → ℕ → ℕ → Message → Attempt (Option Message × IxCompiler)
  place c ix tables units total m =
      if exceeds_limits (serialized_length m) total
      then (message_of c c.total_compute_units c.ix_buffer c.tables >>= λ previous. done (
        some previous,
        record c { ix_buffer = ix ∷ []; tables = tables; total_compute_units = units },
      ))
      else if approaches_limits (serialized_length m) total
      then done (some m, record c { ix_buffer = []; tables = []; total_compute_units = 0 })
      else add_u32 c.total_compute_units total >>= λ sum. done (
        none,
        record c {
          ix_buffer = c.ix_buffer ++ ix ∷ [];
          tables = c.tables ++ tables;
          total_compute_units = sum;
        },
      )

  -- The next message to send, if one is due. A failure but an overflow leaves the compiler as it
  -- was, since nothing is written before it.
  unfoldable pub compile : IxCompiler → Ix → List Table → ℕ → Attempt (Option Message × IxCompiler)
  compile c ix tables units = message_of c units (ix ∷ []) tables >>= λ single.
      if exceeds_limits (serialized_length single) units
      then failed instruction_too_big
      else add_u32 c.total_compute_units units >>= λ total.
          message_of c total (c.ix_buffer ++ ix ∷ []) (c.tables ++ tables) >>= λ m.
          place c ix tables units total m

  unfoldable pub flush : IxCompiler → Attempt (Option Message × IxCompiler)
  flush c = elim c.ix_buffer [
    | [] ↦ done (none, c)
    | ix ∷ rest ↦ message_of c c.total_compute_units c.ix_buffer c.tables >>= λ m.
        done (some m, record c { ix_buffer = []; tables = []; total_compute_units = 0 })
  ]
