-- ===== src/Endpoint/Receive/Effects.antt =====
-- What `receive_photon_msg` has checked and done when it succeeds.
use photon_solana_contracts.Prelude.{
  ◌≡◌, sym, true, ◌&&◌, Bytes, Option, some, bytes_eq, bytes_eq_iff, contains, arith,
}
use photon_solana_contracts.Prelude.Assoc.{lookup}
use photon_solana_contracts.Errors.{
  ok, custom, op_state_invalid, invalid_endpoint, require, >>=-elim, ok-injective,
}
use photon_solana_contracts.Environment.{Environment}
use photon_solana_contracts.ProtocolData.{Pubkey, OpStatus, status_eq, gov_protocol_id}
use photon_solana_contracts.State.{System, OpInfo, ProtocolInfo, Config, ProposeEvent}
use photon_solana_contracts.Gov.Operation.{target_protocol}
use photon_solana_contracts.Gov.Dispatch.{handle_gov_operation}
use photon_solana_contracts.Endpoint.Accounts.{
  check_seed, op_account, protocol_account, protocol_or_init, config_or_init, check_executor,
  write_config, write_protocol,
}
use photon_solana_contracts.Endpoint.Receive.{emit_propose, receive_photon_msg}

pub op_account_ok :
    (h : Bytes) (s : System) {o : OpInfo} → op_account h s ≡ ok o → lookup h s.ops ≡ some o
unfolding op_account
op_account_ok h s e = >>=-elim (check_seed h) _ e λ _ _ e1. ground arith

pub status_eq_sound : (a b : OpStatus) → status_eq a b ≡ true → a ≡ b
status_eq_sound OpStatus.none b e = ground arith
status_eq_sound OpStatus.init b e = ground arith
status_eq_sound OpStatus.signed b e = ground arith
status_eq_sound OpStatus.executed b e = ground arith

-- What a governance message has done.
pub record GovCall (env : Environment) (executor : Pubkey) (op_hash code : Bytes) (s t : System)
    : Type 0 where
  pub op : OpInfo
  pub op_found : lookup op_hash s.ops ≡ some op
  pub is_signed : op.status ≡ OpStatus.signed
  pub gov_id : op.op_data.protocol_id ≡ gov_protocol_id
  pub endpoint : op.op_data.protocol_addr ≡ env.photon_id
  pub gov_info : ProtocolInfo
  pub gov_found : protocol_account gov_protocol_id s ≡ ok gov_info
  pub listed : contains gov_info.executor_slots executor ≡ true
  pub target : Bytes
  pub target_found : target_protocol env op.op_data.function_selector op.op_data.params ≡ ok target
  pub info : ProtocolInfo
  pub config : Config
  pub event : Option ProposeEvent
  pub handled :
      handle_gov_operation env (config_or_init s) (protocol_or_init target s) code op.op_data
      ≡ ok (info, config, event)
  pub result : t ≡ emit_propose event (write_config config (write_protocol target info s))

-- A governance message that succeeds belongs to a signed operation of the governance protocol at the
-- endpoint's own address, and comes from an executor of the governance protocol. It runs the
-- operation of the `code` argument on the protocol that the stored selector and parameters name,
-- and writes that protocol's info and the config.
pub receive_photon_msg_ok :
    (env : Environment) (executor call_authority : Pubkey) (op_hash code params : Bytes)
    (s : System) {t : System}
    → receive_photon_msg env executor call_authority op_hash code params s ≡ ok t
    → GovCall env executor op_hash code s t
unfolding receive_photon_msg check_executor
receive_photon_msg_ok env executor call_authority op_hash code params s {t} e =
    >>=-elim (op_account op_hash s) _ e λ op found e1.
      >>=-elim (protocol_account gov_protocol_id s) _ e1 λ gov_info gov_found e2.
        >>=-elim (target_protocol env op.op_data.function_selector op.op_data.params) _ e2
          λ target target_found e3. >>=-elim (check_seed target) _ e3 λ _ _ e4.
            >>=-elim (check_executor gov_info executor) _ e4 λ _ allowed e5.
              >>=-elim (require (status_eq op.status OpStatus.signed) (custom op_state_invalid)) _
                e5
                λ _ state e6.
                  >>=-elim
                    (require
                      (bytes_eq op.op_data.protocol_id gov_protocol_id
                        && bytes_eq op.op_data.protocol_addr env.photon_id)
                      (custom invalid_endpoint))
                    _ e6
                    λ _ at_endpoint e7.
                      >>=-elim
                        (handle_gov_operation env (config_or_init s) (protocol_or_init target s)
                          code op.op_data)
                        _ e7
                        λ r handled done. record {
                          op = op;
                          op_found = op_account_ok op_hash s found;
                          is_signed = status_eq_sound op.status OpStatus.signed (ground arith);
                          gov_id =
                              ground (arith, bytes_eq_iff op.op_data.protocol_id gov_protocol_id);
                          endpoint =
                              ground (arith, bytes_eq_iff op.op_data.protocol_addr env.photon_id);
                          gov_info = gov_info;
                          gov_found = gov_found;
                          listed = ground arith;
                          target = target;
                          target_found = target_found;
                          info = r.0;
                          config = r.1;
                          event = r.2;
                          handled = handled;
                          result = sym (ok-injective done);
                        }
