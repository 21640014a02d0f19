-- ===== src/ProtocolData/Encoding.antt =====
-- What the operation hash binds (`op_data_evm` of protocol_data.rs): the encoding determines the
-- operation once the lengths of its variable parts are known, and not otherwise.
use photon_solana_contracts.Prelude.{
  ℕ, ◌^◌, ◌%◌, ◌<◌, ◌≡◌, refl, sym, ◌∙◌, ◌∷◌, ◌++◌, Bytes, length, length-append, append-injective,
  append_assoc, arith, replicate,
}
use photon_solana_contracts.Prelude.BigEndian.{
  to_be_bytes, length-to_be_bytes, to_be_bytes-injective,
}
use photon_solana_contracts.Errors.{ok, >>=-eq-ok, ok-injective}
use photon_solana_contracts.Environment.{Environment}
use photon_solana_contracts.ProtocolData.{
  FunctionSelector, by_code, by_name, dummy, OperationData, u64_to_bytes32, u128_to_bytes32,
  selector_evm, op_data_evm, op_hash_with_message, op_hash,
}

length-u64 : (x : ℕ) → length (u64_to_bytes32 x) ≡ 32
unfolding u64_to_bytes32
length-u64 x =
    omega (arith, length-append (replicate 24 0) (to_be_bytes 8 x), length-to_be_bytes 8 x)

length-u128 : (x : ℕ) → length (u128_to_bytes32 x) ≡ 32
unfolding u128_to_bytes32
length-u128 x =
    omega (arith, length-append (replicate 16 0) (to_be_bytes 16 x), length-to_be_bytes 16 x)

u64-injective : (x y : ℕ) → x < 2 ^ 64 → y < 2 ^ 64 → u64_to_bytes32 x ≡ u64_to_bytes32 y → x ≡ y
unfolding u64_to_bytes32
u64-injective x y hx hy e =
    to_be_bytes-injective 8 x y hx hy
      (append-injective (replicate 24 0) (to_be_bytes 8 x) (replicate 24 0) (to_be_bytes 8 y) refl
        e).1

u128-injective :
    (x y : ℕ) → x < 2 ^ 128 → y < 2 ^ 128 → u128_to_bytes32 x ≡ u128_to_bytes32 y → x ≡ y
unfolding u128_to_bytes32
u128-injective x y hx hy e =
    to_be_bytes-injective 16 x y hx hy
      (append-injective (replicate 16 0) (to_be_bytes 16 x) (replicate 16 0) (to_be_bytes 16 y) refl
        e).1

-- One number of the header, and what follows it.
u64_field :
    (x y : ℕ) (p q : Bytes)
    → x < 2 ^ 64
    → y < 2 ^ 64
    → u64_to_bytes32 x ++ p ≡ u64_to_bytes32 y ++ q
    → (x ≡ y) × (p ≡ q)
u64_field x y p q hx hy e =
    let both =
      append-injective (u64_to_bytes32 x) p (u64_to_bytes32 y) q
        (omega (arith, length-u64 x, length-u64 y)) e in
    (u64-injective x y hx hy both.0, both.1)

u128_field :
    (x y : ℕ) (p q : Bytes)
    → x < 2 ^ 128
    → y < 2 ^ 128
    → u128_to_bytes32 x ++ p ≡ u128_to_bytes32 y ++ q
    → (x ≡ y) × (p ≡ q)
u128_field x y p q hx hy e =
    let both =
      append-injective (u128_to_bytes32 x) p (u128_to_bytes32 y) q
        (omega (arith, length-u128 x, length-u128 y)) e in
    (u128-injective x y hx hy both.0, both.1)

-- The length byte of the selector does not wrap.
abbrev pub SelectorFits : FunctionSelector → Type 0
SelectorFits (by_code code) = length code < 256
SelectorFits (by_name name) = length name < 256
SelectorFits dummy = Unit

tagged_field :
    (k l : ℕ) (c d p q : Bytes)
    → length c < 256
    → length d < 256
    → (k ∷ (length c % 256) ∷ c) ++ p ≡ (l ∷ (length d % 256) ∷ d) ++ q
    → (k ≡ l) × (c ≡ d) × (p ≡ q)
tagged_field k l c d p q hc hd e =
    let len : length c % 256 ≡ length d % 256 = cc in
    let rest : c ++ p ≡ d ++ q = cc in
    let both = append-injective c p d q (omega arith) rest in (cc, both.0, both.1)

selector_field :
    (s t : FunctionSelector) (x y p q : Bytes)
    → SelectorFits s
    → SelectorFits t
    → selector_evm s ≡ ok x
    → selector_evm t ≡ ok y
    → x ++ p ≡ y ++ q
    → (s ≡ t) × (p ≡ q)
unfolding selector_evm
selector_field dummy t x y p q hs ht es et e = absurd (cc)
selector_field (by_code c) dummy x y p q hs ht es et e = absurd (cc)
selector_field (by_name c) dummy x y p q hs ht es et e = absurd (cc)
selector_field (by_code c) (by_code d) x y p q hs ht es et e =
    let both = tagged_field 0 0 c d p q hs ht (cc) in (cc (both.1), both.2)
selector_field (by_name c) (by_name d) x y p q hs ht es et e =
    let both = tagged_field 1 1 c d p q hs ht (cc) in (cc (both.1), both.2)
selector_field (by_code c) (by_name d) x y p q hs ht es et e =
    absurd (omega (arith, (tagged_field 0 1 c d p q hs ht (cc)).0))
selector_field (by_name c) (by_code d) x y p q hs ht es et e =
    absurd (omega (arith, (tagged_field 1 0 c d p q hs ht (cc)).0))

-- The ranges that the types of the fields give, and the check of `protocol_id` in `load_operation`.
pub record IsSized (d : OperationData) : Type 0 where
  pub protocol_id_32 : length d.protocol_id ≡ 32
  pub meta_32 : length d.meta ≡ 32
  pub src_chain_u128 : d.src_chain_id < 2 ^ 128
  pub block_u64 : d.src_block_number < 2 ^ 64
  pub nonce_u64 : d.nonce < 2 ^ 64
  pub dest_chain_u128 : d.dest_chain_id < 2 ^ 128
  pub addr_32 : length d.protocol_addr ≡ 32
  pub selector_fits : SelectorFits d.function_selector

-- Two operations with the same encoding agree in every field, if their fields have the sizes of the
-- program's types, their selectors are shorter than 256 bytes, and their transaction ids and their
-- parameters have the same lengths.
pub op_data_evm-injective :
    (a b : OperationData) (e : Bytes)
    → IsSized a
    → IsSized b
    → length a.src_op_tx_id ≡ length b.src_op_tx_id
    → length a.params ≡ length b.params
    → op_data_evm a ≡ ok e
    → op_data_evm b ≡ ok e
    → a ≡ b
unfolding op_data_evm
op_data_evm-injective a b e ha hb tx ps ea eb =
    let (x, sx, fx) = >>=-eq-ok (selector_evm a.function_selector) _ ea in
    let (y, sy, fy) = >>=-eq-ok (selector_evm b.function_selector) _ eb in
    let f0 =
      append-injective _ _ _ _ (ha.protocol_id_32 ∙ sym hb.protocol_id_32)
        (ok-injective (fx ∙ sym fy)) in
    let f1 = append-injective _ _ _ _ (ha.meta_32 ∙ sym hb.meta_32) f0.1 in
    let f2 = u128_field _ _ _ _ ha.src_chain_u128 hb.src_chain_u128 f1.1 in
    let f3 = u64_field _ _ _ _ ha.block_u64 hb.block_u64 f2.1 in
    let f4 = append-injective _ _ _ _ tx f3.1 in
    let f5 = u64_field _ _ _ _ ha.nonce_u64 hb.nonce_u64 f4.1 in
    let f6 = u128_field _ _ _ _ ha.dest_chain_u128 hb.dest_chain_u128 f5.1 in
    let f7 = append-injective _ _ _ _ (ha.addr_32 ∙ sym hb.addr_32) f6.1 in
    let f8 = selector_field _ _ x y _ _ ha.selector_fits hb.selector_fits sx sy f7.1 in
    let f9 = append-injective _ _ _ _ ps f8.1 in
    λ i. record {
      protocol_id = f0.0 i;
      meta = f1.0 i;
      src_chain_id = f2.0 i;
      src_block_number = f3.0 i;
      src_op_tx_id = f4.0 i;
      nonce = f5.0 i;
      dest_chain_id = f6.0 i;
      protocol_addr = f7.0 i;
      function_selector = f8.0 i;
      params = f9.0 i;
      reserved = f9.1 i;
    }

-- The boundary between the parameters and the reserved bytes is not part of the encoding.
pub op_data_evm-move_params :
    (d : OperationData) (p q r : Bytes)
    → op_data_evm (record d { params = p ++ q; reserved = r })
      ≡ op_data_evm (record d { params = p; reserved = q ++ r })
unfolding op_data_evm
op_data_evm-move_params d p q r = simp append_assoc

-- So the hash under which an operation is signed and stored is the same for every place at which
-- the parameters are cut off and the rest is passed as reserved bytes.
pub op_hash_with_message-move_params :
    (env : Environment) (d : OperationData) (p q r : Bytes)
    → op_hash_with_message env (record d { params = p ++ q; reserved = r })
      ≡ op_hash_with_message env (record d { params = p; reserved = q ++ r })
unfolding op_hash_with_message op_hash
op_hash_with_message-move_params env d p q r = rw (op_data_evm-move_params d p q r)
