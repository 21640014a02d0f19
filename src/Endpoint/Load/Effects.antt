-- ===== src/Endpoint/Load/Effects.antt =====
-- What `load_operation` has checked and done when it succeeds, and what the hash leaves open.
use photon_solana_contracts.Prelude.{
  ◌≡◌, ◌≢◌, ◌≤◌, sym, ap, ◌∙◌, subst₂, true, Bytes, none, ◌++◌, bytes_eq_iff, contains, length,
  replicate, arith,
}
use photon_solana_contracts.Prelude.Assoc.{lookup}
use photon_solana_contracts.Errors.{custom, op_state_invalid, ok, require, >>=-elim}
use photon_solana_contracts.Environment.{Environment}
use photon_solana_contracts.ProtocolData.{
  Pubkey, OperationData, OpStatus, status_eq, op_hash_with_message,
}
use photon_solana_contracts.ProtocolData.Encoding.{op_hash_with_message-move_params}
use photon_solana_contracts.State.{
  System, OpInfo, ProtocolInfo, Config, proposal_loaded, default_op_info, emit,
}
use photon_solana_contracts.Gov.Protocols.{solana_chain_id}
use photon_solana_contracts.Endpoint.Accounts.{
  check_seed, protocol_account, config_account, check_executor, write_op,
}
use photon_solana_contracts.Endpoint.Load.{init_op, load_operation}

-- The operation account after a load.
abbrev pub loaded : OperationData → OpInfo
loaded d = record default_op_info { op_data = d; status = OpStatus.init }

-- What holds of a loaded operation.
pub record IsLoadable (env : Environment) (executor : Pubkey) (d : OperationData) (h : Bytes)
    (s : System) : Type 0 where
  pub fresh : lookup h s.ops ≡ none
  pub seed : length h ≤ 32
  pub configured : s.config ≢ none
  pub hashed : op_hash_with_message env d ≡ ok h
  pub for_this_chain : d.dest_chain_id ≡ solana_chain_id env.network
  pub id_length : length d.protocol_id ≡ 32
  pub id_nonzero : d.protocol_id ≢ replicate 32 0

init_op_ok :
    (h : Bytes) (s : System) {o : OpInfo}
    → init_op h s ≡ ok o
    → (lookup h s.ops ≡ none) × (length h ≤ 32) × (o ≡ default_op_info)
unfolding init_op check_seed
init_op_ok h s e = ground arith

configured_ok : (s : System) {c : Config} → config_account s ≡ ok c → s.config ≢ none
unfolding config_account
configured_ok s e = ground arith

-- A load that succeeds has checked that the operation account is new, that the cached hash is the
-- operation's, that the operation is for this chain, that its protocol id has 32 bytes and is not
-- zero, that the executor is listed by that protocol and the addresses agree; it stores the
-- operation in state `init` with no signer, and emits one event.
pub load_operation-effect :
    (env : Environment) (executor : Pubkey) (d : OperationData) (h : Bytes) (s : System)
    {t : System}
    → load_operation env executor d h s ≡ ok t
    → IsLoadable env executor d h s
      × ((info : ProtocolInfo) × (protocol_account d.protocol_id s ≡ ok info)
          × (contains info.executor_slots executor ≡ true)
          × (info.protocol_address ≡ d.protocol_addr))
      × (t ≡ emit (proposal_loaded h executor) (write_op h (loaded d) s))
unfolding load_operation check_executor
load_operation-effect env executor d h s {t} e =
    >>=-elim (protocol_account d.protocol_id s) _ e λ info found e1.
      >>=-elim (init_op h s) _ e1 λ op made e2.
        >>=-elim (config_account s) _ e2 λ config found_config e3.
          >>=-elim (check_executor info executor) _ e3 λ _ allowed e4.
            >>=-elim (require (status_eq op.status OpStatus.none) (custom op_state_invalid)) _ e4
              λ _ _ e5. >>=-elim (op_hash_with_message env d) _ e5 λ hash hashed e6.
                let (fresh, seed, blank) = init_op_ok h s made in
                let same : hash ≡ h = ground (arith, bytes_eq_iff hash h) in
                (
                  record {
                    fresh = fresh;
                    seed = seed;
                    configured = configured_ok s found_config;
                    hashed = hashed ∙ ap ok same;
                    for_this_chain = ground arith;
                    id_length = ground arith;
                    id_nonzero = ground (arith, bytes_eq_iff d.protocol_id (replicate 32 0));
                  },
                  (
                    info,
                    found,
                    ground arith,
                    ground (arith, bytes_eq_iff info.protocol_address d.protocol_addr),
                  ),
                  sym (
                      subst₂
                        (λ x (o : OpInfo).
                          emit (proposal_loaded x executor)
                            (write_op h (record o { op_data = d; status = OpStatus.init }) s)
                          ≡ t)
                        same blank (ground arith)),
                )

-- A load succeeds, with that result, if the operation account is new and its seed has at most 32
-- bytes, the config exists, the cached hash is the operation's, the operation is for this chain,
-- its protocol id has 32 bytes and is not zero, and its protocol is registered, lists the
-- executor and has the operation's address.
pub load_operation_complete :
    (env : Environment) (executor : Pubkey) (d : OperationData) (h : Bytes) (s : System)
    (info : ProtocolInfo)
    → IsLoadable env executor d h s
    → protocol_account d.protocol_id s ≡ ok info
    → contains info.executor_slots executor ≡ true
    → info.protocol_address ≡ d.protocol_addr
    → load_operation env executor d h s
      ≡ ok (emit (proposal_loaded h executor) (write_op h (loaded d) s))
unfolding load_operation check_executor init_op check_seed config_account
load_operation_complete env executor d h s info ok_to_load found listed same = ground (
  arith,
  bytes_eq_iff h h,
  bytes_eq_iff info.protocol_address d.protocol_addr,
  bytes_eq_iff d.protocol_id (replicate 32 0),
)

-- The same operation, cut elsewhere: bytes moved from the end of the parameters to the front of the
-- reserved bytes. Whenever the one can be loaded, so can the other, by the same executor and under
-- the same hash; the parameters that are stored differ.
pub load_operation-move_params :
    (env : Environment) (executor : Pubkey) (d : OperationData) (p q r h : Bytes) (s : System)
    {t : System}
    → load_operation env executor (record d { params = p ++ q; reserved = r }) h s ≡ ok t
    → load_operation env executor (record d { params = p; reserved = q ++ r }) h s
      ≡ ok (
          emit
            (proposal_loaded h executor)
            (write_op h (loaded (record d { params = p; reserved = q ++ r })) s))
load_operation-move_params env executor d p q r h s e =
    let (can, (info, found, listed, same), _) =
      load_operation-effect env executor (record d { params = p ++ q; reserved = r }) h s e in
    load_operation_complete env executor (record d { params = p; reserved = q ++ r }) h s info
      (record {
        fresh = can.fresh;
        seed = can.seed;
        configured = can.configured;
        hashed = sym (op_hash_with_message-move_params env d p q r) ∙ can.hashed;
        for_this_chain = can.for_this_chain;
        id_length = can.id_length;
        id_nonzero = can.id_nonzero;
      })
      found listed same
