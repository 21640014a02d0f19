-- ===== src/Gov/Members/Executors.antt =====
-- The effect of `add_executor` and `remove_executor` on the executors of a protocol.
use photon_solana_contracts.Prelude.{
  ◌≤◌, ◌<◌, ◌≡◌, ◌≢◌, sym, ap, ◌∙◌, false, ◌&&◌, List, [], ◌∷◌, ◌++◌, Bytes, bytes_eq, bytes_eq_iff,
  bytes_eq_ne, bytes_eq_refl, contains, length, length-append, All, All-append, arith,
  if◌then◌else◌,
}
use photon_solana_contracts.Errors.{>>=-eq-ok, ok, ◌>>=◌}
use photon_solana_contracts.Slots.{without, is_empty}
use photon_solana_contracts.Slots.Laws.{
  padded, store_fits, active-padded, active-All, contains-without, length-without-le,
  All-ne-without,
}
use photon_solana_contracts.Slots.Packed.{without-append_self}
use photon_solana_contracts.Environment.{Environment}
use photon_solana_contracts.ProtocolData.{Pubkey, default_pubkey, gov_protocol_id}
use photon_solana_contracts.State.{ProtocolInfo, executors, max_executors}
use photon_solana_contracts.Gov.Members.{
  store_executors, add_executor, remove_executor, key_param, add_executor_key, remove_executor_key,
}

-- The protocol info with these executors and free slots after them.
abbrev pub with_executors : List Pubkey → ProtocolInfo → ProtocolInfo
with_executors ks info = record info { executor_slots = padded max_executors default_pubkey ks }

pub store_executors_lem :
    (ks : List Pubkey) (info : ProtocolInfo)
    → length ks ≤ max_executors
    → store_executors ks info ≡ ok (with_executors ks info)
unfolding store_executors
store_executors_lem ks info h = rw (store_fits max_executors default_pubkey ks h)

pub executors-with_executors :
    (ks : List Pubkey) (info : ProtocolInfo)
    → All (λ k. k ≢ default_pubkey) ks
    → executors (with_executors ks info) ≡ ks
unfolding executors
executors-with_executors ks info h = active-padded max_executors default_pubkey ks h

pub executors-All : (info : ProtocolInfo) → All (λ k. k ≢ default_pubkey) (executors info)
unfolding executors
executors-All info = active-All default_pubkey info.executor_slots

-- A new key is appended, when it is not the default key, is not yet an executor, and a slot is free.
pub add_executor_key_lem :
    (key : Pubkey) (info : ProtocolInfo)
    → key ≢ default_pubkey
    → contains (executors info) key ≡ false
    → length (executors info) < max_executors
    → add_executor_key key info ≡ ok (with_executors (executors info ++ key ∷ []) info)
unfolding add_executor_key
add_executor_key_lem key info h n l = ground (
  arith,
  bytes_eq_ne key default_pubkey h,
  store_executors_lem (executors info ++ key ∷ []) info,
  length-append (executors info) (key ∷ []),
)

-- What `add_executor` does on every branch of its checks, by the list of executors.
pub add_executor_key-executors :
    (key : Pubkey) (info : ProtocolInfo) {r : ProtocolInfo}
    → add_executor_key key info ≡ ok r
    → (key ≢ default_pubkey)
      × (contains (executors info) key ≡ false)
      × (length (executors info) < max_executors)
      × (r ≡ with_executors (executors info ++ key ∷ []) info)
unfolding add_executor_key
add_executor_key-executors key info e = ground (
  arith,
  bytes_eq_iff key default_pubkey,
  store_executors_lem (executors info ++ key ∷ []) info,
  length-append (executors info) (key ∷ []),
)

without_fits :
    (key : Pubkey) (info : ProtocolInfo)
    → length (executors info) ≤ max_executors
    → length (without key (executors info)) ≤ max_executors
without_fits key info h = omega (arith, length-without-le key (executors info))

pub remove_executor_key_lem :
    (key : Pubkey) (protocol_id : Bytes) (info : ProtocolInfo)
    → length (executors info) ≤ max_executors
    → (is_empty (without key (executors info)) && bytes_eq protocol_id gov_protocol_id) ≡ false
    → remove_executor_key key protocol_id info
      ≡ ok (with_executors (without key (executors info)) info)
unfolding remove_executor_key
remove_executor_key_lem key protocol_id info l h =
    ground (arith, store_executors_lem (without key (executors info)) info, without_fits key info)

pub remove_executor_key-executors :
    (key : Pubkey) (protocol_id : Bytes) (info : ProtocolInfo) {r : ProtocolInfo}
    → length (executors info) ≤ max_executors
    → remove_executor_key key protocol_id info ≡ ok r
    → ((is_empty (without key (executors info)) && bytes_eq protocol_id gov_protocol_id) ≡ false)
      × (r ≡ with_executors (without key (executors info)) info)
unfolding remove_executor_key
remove_executor_key-executors key protocol_id info l e =
    ground (arith, store_executors_lem (without key (executors info)) info, without_fits key info)

module _ (env : Environment) where
  -- A successful `add_executor` appends the key of its calldata, which was not an executor before,
  -- to the executors, and changes nothing else of the protocol.
  pub add_executor-effect :
      (calldata : Bytes) (info : ProtocolInfo) {r : ProtocolInfo}
      → add_executor env calldata info ≡ ok r
      → (key : Pubkey) × (key_param env calldata ≡ ok key)
        × (contains (executors info) key ≡ false)
        × (executors r ≡ executors info ++ key ∷ [])
        × (r ≡ record info { executor_slots = r.executor_slots })
  unfolding add_executor
  add_executor-effect calldata info e =
      let (key, param, e') = >>=-eq-ok (key_param env calldata) _ e in
      let (proper, new, room, stored) = add_executor_key-executors key info e' in
      (
        key,
        param,
        new,
        ap executors stored
            ∙ executors-with_executors (executors info ++ key ∷ []) info
                (All-append _ (executors info) (key ∷ []) (executors-All info) (proper, tt)),
        ground arith,
      )

  -- A removal with the governance protocol's id never empties the list; what remains are the
  -- executors other than the key of the calldata.
  pub remove_executor-keeps_one :
      (calldata : Bytes) (info : ProtocolInfo) {r : ProtocolInfo}
      → length (executors info) ≤ max_executors
      → remove_executor env calldata gov_protocol_id info ≡ ok r
      → (executors r ≢ [])
        × ((key : Pubkey) × (key_param env calldata ≡ ok key)
            × ((b : Pubkey)
                → contains (executors r) b
                  ≡ (if bytes_eq b key then false else contains (executors info) b)))
  unfolding remove_executor
  remove_executor-keeps_one calldata info {r} l e =
      let (key, param, e') = >>=-eq-ok (key_param env calldata) _ e in
      let (kept, stored) = remove_executor_key-executors key gov_protocol_id info l e' in
      let read : executors r ≡ without key (executors info) =
        ap executors stored
        ∙ executors-with_executors (without key (executors info)) info
            (All-ne-without default_pubkey key (executors info) (executors-All info)) in
      (
        λ none_left. ground (arith, bytes_eq_refl gov_protocol_id, sym read ∙ none_left),
        (key, param, λ b. ap (λ xs. contains xs b) read ∙ contains-without key (executors info) b),
      )

  -- Removing what was just added restores the executors, unless there were none before and the
  -- operation is one of the governance protocol, which keeps its last executor.
  pub remove-add_executor :
      (calldata id : Bytes) (info : ProtocolInfo) {r : ProtocolInfo}
      → (is_empty (executors info) && bytes_eq id gov_protocol_id) ≡ false
      → add_executor env calldata info ≡ ok r
      → (s : ProtocolInfo) × (remove_executor env calldata id r ≡ ok s)
        × (executors s ≡ executors info)
  unfolding add_executor remove_executor
  remove-add_executor calldata id info {r} h e =
      let (key, param, e') = >>=-eq-ok (key_param env calldata) _ e in
      let (proper, new, room, stored) = add_executor_key-executors key info e' in
      let read : executors r ≡ executors info ++ key ∷ [] =
        ap executors stored
        ∙ executors-with_executors (executors info ++ key ∷ []) info
            (All-append _ (executors info) (key ∷ []) (executors-All info) (proper, tt)) in
      let back : without key (executors r) ≡ executors info =
        ap (without key) read ∙ without-append_self key (executors info) new in
      (
        with_executors (without key (executors r)) r,
        ap (λ m. m >>= λ executor. remove_executor_key executor id r) param
            ∙ (remove_executor_key_lem key id r
                (omega (arith, ap length read, length-append (executors info) (key ∷ [])))
                (ap (λ xs. is_empty xs && bytes_eq id gov_protocol_id) back ∙ h)),
        executors-with_executors (without key (executors r)) r
              (All-ne-without default_pubkey key (executors r) (executors-All r))
            ∙ back,
      )
