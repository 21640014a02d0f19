-- ===== src/Services/Data/Agreement.antt =====
-- The services and the program agree on the encoding and the hash of an operation.
use photon_solana_contracts.Prelude.{
  ℕ, ◌%◌, ◌≡◌, refl, sym, ap, ◌∙◌, subst, ◌↔◌, Bool, Bytes, [], ◌∷◌, ◌++◌, length, take_all,
  append-injective, ◌==◌, arith, if-elim,
}
use photon_solana_contracts.Errors.{ok, ok-injective}
use photon_solana_contracts.Environment.{Environment}
use photon_solana_contracts.ProtocolData
use photon_solana_contracts.ProtocolData.{
  FunctionSelector, by_code, by_name, dummy, selector_evm, selector_try_from, u64_to_bytes32,
  u128_to_bytes32, Conversion, converted, rejected, aborted, hash_with_message, msg,
}
use photon_solana_contracts.Services.Data.{
  OperationData, op_data_evm, op_hash, op_hash_with_message, chain_address, with_selector,
  chain_operation,
}

-- The second byte of a selector is the length of what follows, modulo 256.
abbrev pub HasLength : Bytes → Type 0
HasLength [] = ⊥
HasLength (tag ∷ []) = ⊥
HasLength (tag ∷ len ∷ rest) = len ≡ length rest % 256

-- What a converted selector is encoded to again.
selector_agrees :
    (is_utf8 : Bytes → Bool) (bytes : Bytes) {f : FunctionSelector}
    → selector_try_from is_utf8 bytes ≡ converted f
    → (tag : ℕ) × (len : ℕ) × (rest : Bytes) × (bytes ≡ tag ∷ len ∷ rest)
      × (selector_evm f ≡ ok (tag ∷ (length rest % 256) ∷ rest))
unfolding selector_try_from selector_evm
selector_agrees is_utf8 [] e = absurd (cc e)
selector_agrees is_utf8 (tag ∷ []) e = absurd (ground arith)
selector_agrees is_utf8 (tag ∷ len ∷ rest) {f} e = (
  tag,
  len,
  rest,
  refl,
  if-elim (tag == 0) e (λ code done. ground arith)
      (λ _ e1.
        if-elim (tag == 1) e1
          (λ name e2. if-elim (is_utf8 rest) e2 (λ _ done. ground arith) (λ _ e3. absurd (cc e3)))
          (λ _ e2. absurd (cc e2))),
)

-- The encoding of an operation, with the bytes of its selector left open.
abbrev encoding : OperationData → Bytes → Bytes
unfolding op_data_evm
encoding d selector = op_data_evm (record d { function_selector = selector })

same_rest : (xs ys zs : Bytes) → xs ++ ys ≡ xs ++ zs → ys ≡ zs
same_rest xs ys zs e = (append-injective xs ys xs zs refl e).1

encoding_injective :
    (d : OperationData) (s t : Bytes)
    → encoding d s ≡ encoding d t
    → s ++ (d.params ++ d.reserved) ≡ t ++ (d.params ++ d.reserved)
unfolding encoding op_data_evm
encoding_injective d s t e = same_rest d.protocol_addr _ _ (
    same_rest (u128_to_bytes32 d.dest_chain_id) _ _ (
      same_rest (u64_to_bytes32 d.nonce) _ _ (
        same_rest d.src_op_tx_id _ _ (
          same_rest (u64_to_bytes32 d.src_block_number) _ _ (
            same_rest (u128_to_bytes32 d.src_chain_id) _ _
              (same_rest d.meta _ _ (same_rest d.protocol_id _ _ e)))))))

converted_injective {ℓ} : {A : Type ℓ} {a b : A} → converted a ≡ converted b → a ≡ b
converted_injective e = cc e

module _ (env : Environment) where
  selected :
      (d : OperationData) (a : Bytes) (x : Conversion FunctionSelector)
      {c : ProtocolData.OperationData}
      → with_selector env d a x ≡ converted c
      → (f : FunctionSelector) × (x ≡ converted f)
  unfolding with_selector
  selected d a (rejected bytes) e = absurd (cc e)
  selected d a aborted e = absurd (cc e)
  selected d a (converted f) e = (f, refl)

  -- The address has 32 bytes and the selector can be read.
  pub chain_operation_ok :
      (d : OperationData) {c : ProtocolData.OperationData}
      → chain_operation env d ≡ converted c
      → (f : FunctionSelector) × (selector_try_from env.is_utf8 d.function_selector ≡ converted f)
        × (length d.protocol_addr ≡ 32)
        × (with_selector env d d.protocol_addr (converted f) ≡ converted c)
  unfolding chain_operation chain_address
  chain_operation_ok d {c} e =
      let long : length d.protocol_addr ≡ 32 = ground arith in
      let converts : with_selector env d d.protocol_addr
            (selector_try_from env.is_utf8 d.function_selector)
          ≡ converted c =
        ground arith in
      let (f, found) =
        selected d d.protocol_addr (selector_try_from env.is_utf8 d.function_selector) converts in
      (f, found, long, ap (with_selector env d d.protocol_addr) (sym found) ∙ converts)

  encodes :
      (d : OperationData) (c : ProtocolData.OperationData) (f : FunctionSelector) (selector : Bytes)
      → with_selector env d d.protocol_addr (converted f) ≡ converted c
      → selector_evm f ≡ ok selector
      → ProtocolData.op_data_evm c ≡ ok (encoding d selector)
  unfolding with_selector ProtocolData.op_data_evm op_data_evm encoding
  encodes d c f selector e s =
      subst (λ x. ProtocolData.op_data_evm x ≡ ok (encoding d selector)) (converted_injective e)
        (rw s refl)

  -- If an operation of the services can be converted for the program, the program encodes it to the
  -- same bytes exactly when the second byte of its selector is the length of the rest, modulo 256.
  pub chain_operation-op_data_evm :
      (d : OperationData) {c : ProtocolData.OperationData}
      → chain_operation env d ≡ converted c
      → (ProtocolData.op_data_evm c ≡ ok (op_data_evm d)) ↔ HasLength d.function_selector
  unfolding encoding
  chain_operation-op_data_evm d {c} e =
      let (f, read, _, converts) = chain_operation_ok d e in
      let (tag, len, rest, bytes, evm) = selector_agrees env.is_utf8 d.function_selector read in
      let code = encodes d c f (tag ∷ (length rest % 256) ∷ rest) converts evm in
      (
        λ same.
            let tails =
              encoding_injective d (tag ∷ (length rest % 256) ∷ rest) d.function_selector
                (ok-injective (sym code ∙ same)) in
            let both : (tag ∷ (length rest % 256) ∷ rest) ++ (d.params ++ d.reserved)
                ≡ (tag ∷ len ∷ rest) ++ (d.params ++ d.reserved) =
              tails ∙ ap (λ s. s ++ (d.params ++ d.reserved)) bytes in
            subst HasLength (sym bytes) (cc both),
        λ right.
            let len_is : len ≡ length rest % 256 = subst HasLength bytes right in
            code ∙ ap (λ s. ok (encoding d s)) (ap (λ l. tag ∷ l ∷ rest) (sym len_is) ∙ sym bytes),
      )

  -- Then the two hashes are the same, if the hash function gives 32 bytes.
  pub chain_operation-op_hash :
      (d : OperationData) {c : ProtocolData.OperationData}
      → ((x : Bytes) → length (env.keccak256 x) ≡ 32)
      → HasLength d.function_selector
      → chain_operation env d ≡ converted c
      → ProtocolData.op_hash_with_message env c ≡ op_hash_with_message env d
  unfolding ProtocolData.op_hash_with_message ProtocolData.op_hash op_hash_with_message op_hash
      hash_with_message
  chain_operation-op_hash d {c} sized right e =
      let same = (chain_operation-op_data_evm d e).1 right in
      let hash = env.keccak256 (op_data_evm d) in
      let whole = take_all 32 (env.keccak256 (msg ++ hash)) (omega (arith, sized (msg ++ hash))) in
      ground (arith, same, sized hash, sized (msg ++ hash), sized (op_data_evm d))
