-- ===== src/Services/Listener/Origin.antt =====
-- A proposal from the program that makes it to the operation that another chain gets.
use photon_solana_contracts.Prelude.{
  ℕ, ◌≡◌, refl, sym, ap, ◌∙◌, subst, Bool, true, Bytes, List, [], ◌∷◌, ◌++◌, some, length, contains,
  ltb, arith, if-elim,
}
use photon_solana_contracts.Errors.{
  ok, >>=-elim, ok-injective, require, custom, proposer_is_not_allowed,
}
use photon_solana_contracts.Environment.{Environment}
use photon_solana_contracts.ProtocolData
use photon_solana_contracts.ProtocolData.{
  Pubkey, FunctionSelector, by_code, by_name, dummy, to_bytes, converted, selector_try_from,
}
use photon_solana_contracts.ProtocolData.Selector.{reads_back, selector_try_from-to_bytes}
use photon_solana_contracts.Gov.Protocols.{next_nonce}
use photon_solana_contracts.State.{System, Event, ProposeEvent}
use photon_solana_contracts.Endpoint.Accounts.{config_account, protocol_account}
use photon_solana_contracts.Endpoint.Proposal.{propose}
use photon_solana_contracts.Services.{success}
use photon_solana_contracts.Services.Data.{
  OperationData, op_data_evm, chain_operation, chain_address, with_selector,
}
use photon_solana_contracts.Services.Data.Agreement.{HasLength, chain_operation-op_data_evm}
use photon_solana_contracts.Services.Listener.{SignatureText, Propose, propose_of, on_propose}

-- The bytes of a selector carry the right length.
to_bytes-HasLength :
    (f : FunctionSelector) {bytes : Bytes} → to_bytes f ≡ ok bytes → HasLength bytes
unfolding to_bytes
to_bytes-HasLength (by_code code) e =
    if-elim (ltb 32 (length code)) e (λ _ refused. absurd (cc refused))
      (λ _ written. subst HasLength (ok-injective written) refl)
to_bytes-HasLength (by_name name) e =
    if-elim (ltb 32 (length name)) e (λ _ refused. absurd (cc refused))
      (λ _ written. subst HasLength (ok-injective written) refl)
to_bytes-HasLength dummy e = subst HasLength (ok-injective e) refl

-- What `propose` emits.
propose_emits :
    (x p : Bytes) (dest : ℕ) (a : Bytes) (f : FunctionSelector) (ps : Bytes) (s : System)
    {t : System}
    → propose x p dest a f ps s ≡ ok t
    → (e : ProposeEvent) × (t.events ≡ s.events ++ Event.propose e ∷ [])
      × (e.protocol_id ≡ p)
      × (e.dst_chain_id ≡ dest)
      × (e.protocol_address ≡ a)
      × (to_bytes f ≡ ok e.function_selector)
      × (e.params ≡ ps)
unfolding propose
propose_emits x p dest a f ps s {t} e = >>=-elim (config_account s) _ e λ config _ e1.
    >>=-elim (protocol_account p s) _ e1 λ info _ e2.
      >>=-elim (require (contains info.proposer_slots x) (custom proposer_is_not_allowed)) _ e2
        λ _ _ e3. >>=-elim (next_nonce config.nonce) _ e3 λ bumped _ e4.
          >>=-elim (to_bytes f) _ e4 λ selector written done. (
            record {
              protocol_id = p;
              nonce = config.nonce;
              dst_chain_id = dest;
              protocol_address = a;
              function_selector = selector;
              params = ps;
            },
            ap (λ (u : System). u.events) (sym (ok-injective done)),
            refl,
            refl,
            refl,
            written,
            refl,
          )

module _ (env : Environment) (texts : SignatureText) (allowed_protocols : List Bytes) where
  converts :
      (d : OperationData) (f : FunctionSelector)
      → length d.protocol_addr ≡ 32
      → selector_try_from env.is_utf8 d.function_selector ≡ converted f
      → (c : ProtocolData.OperationData) × (chain_operation env d ≡ converted c)
        × (c.function_selector ≡ f)
        × (c.params ≡ d.params)
  unfolding chain_operation chain_address with_selector
  converts d f long read = (
    record {
      protocol_id = d.protocol_id;
      meta = d.meta;
      src_chain_id = d.src_chain_id;
      src_block_number = d.src_block_number;
      src_op_tx_id = d.src_op_tx_id;
      nonce = d.nonce;
      dest_chain_id = d.dest_chain_id;
      protocol_addr = d.protocol_addr;
      function_selector = f;
      params = d.params;
      reserved = d.reserved;
    },
    ground (arith, long, read),
    refl,
    refl,
  )

  -- Let a proposal succeed, of an allowed protocol with an id of 32 bytes, to an address of 32
  -- bytes, with a selector that its bytes read back to, and let the listener find its event in a
  -- transaction with a valid signature. Then the listener sends one message for it. The operation
  -- in the message can be converted for a program on the other side, which gets the selector and the parameters of the proposal
  -- and encodes the operation to the same bytes as the services do.
  pub on_propose-propose :
      (x p : Bytes) (dest : ℕ) (a : Bytes) (f : FunctionSelector) (ps : Bytes) (s : System)
      {t : System} (text signature : Bytes) (slot : ℕ) (need_check : Bool)
      → propose x p dest a f ps s ≡ ok t
      → contains allowed_protocols p ≡ true
      → length p ≡ 32
      → length a ≡ 32
      → reads_back env.is_utf8 f ≡ converted f
      → texts.from_str text ≡ some signature
      → (e : ProposeEvent) × (m : Propose) × (c : ProtocolData.OperationData) × (t.events
          ≡ s.events ++ Event.propose e ∷ [])
        × (on_propose env.network texts allowed_protocols e text slot need_check ≡ success (m ∷ []))
        × (chain_operation env m.operation_data ≡ converted c)
        × (c.function_selector ≡ f)
        × (c.params ≡ ps)
        × (ProtocolData.op_data_evm c ≡ ok (op_data_evm m.operation_data))
  unfolding on_propose propose_of
  on_propose-propose x p dest a f ps s text signature slot need_check done allowed long long_address
        back valid =
      let (e, emitted, same_p, same_dest, same_a, written, same_ps) =
        propose_emits x p dest a f ps s done in
      let m = propose_of env.network texts allowed_protocols e signature slot need_check in
      let (c, converted_c, selector, params) =
        converts m.operation_data f (ap length same_a ∙ long_address)
          ((selector_try_from-to_bytes env.is_utf8 f written).0 ∙ back) in
      (
        e,
        m,
        c,
        emitted,
        ground
            (arith, ap (contains allowed_protocols) same_p, allowed, ap length same_p, long, valid),
        converted_c,
        selector,
        params ∙ same_ps,
        (chain_operation-op_data_evm env m.operation_data converted_c).1
            (to_bytes-HasLength f written),
      )
