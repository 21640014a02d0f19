-- ===== src/Gov/Members/Proposers.antt =====
-- The effect of `add_proposer` and `remove_proposer` on the proposers of a protocol.
use photon_solana_contracts.Prelude.{
  ◌≤◌, ◌<◌, ◌≡◌, ◌≢◌, false, List, [], ◌∷◌, ◌++◌, bytes_eq_iff, bytes_eq_ne, contains, length,
  length-append, All, arith,
}
use photon_solana_contracts.Errors.{ok}
use photon_solana_contracts.Slots.{without}
use photon_solana_contracts.Slots.Laws.{
  padded, store_fits, active-padded, active-All, length-without-le,
}
use photon_solana_contracts.ProtocolData.{Pubkey, default_pubkey}
use photon_solana_contracts.State.{ProtocolInfo, proposers, max_proposers}
use photon_solana_contracts.Gov.Members.{store_proposers, add_proposer_key, remove_proposer_key}

-- The protocol info with these proposers and free slots after them.
abbrev pub with_proposers : List Pubkey → ProtocolInfo → ProtocolInfo
with_proposers ks info = record info { proposer_slots = padded max_proposers default_pubkey ks }

pub store_proposers_lem :
    (ks : List Pubkey) (info : ProtocolInfo)
    → length ks ≤ max_proposers
    → store_proposers ks info ≡ ok (with_proposers ks info)
unfolding store_proposers
store_proposers_lem ks info h = rw (store_fits max_proposers default_pubkey ks h)

pub proposers-with_proposers :
    (ks : List Pubkey) (info : ProtocolInfo)
    → All (λ k. k ≢ default_pubkey) ks
    → proposers (with_proposers ks info) ≡ ks
unfolding proposers
proposers-with_proposers ks info h = active-padded max_proposers default_pubkey ks h

pub proposers-All : (info : ProtocolInfo) → All (λ k. k ≢ default_pubkey) (proposers info)
unfolding proposers
proposers-All info = active-All default_pubkey info.proposer_slots

-- A new key is appended, when it is not the default key, is not yet an proposer, and a slot is free.
pub add_proposer_key_lem :
    (key : Pubkey) (info : ProtocolInfo)
    → key ≢ default_pubkey
    → contains (proposers info) key ≡ false
    → length (proposers info) < max_proposers
    → add_proposer_key key info ≡ ok (with_proposers (proposers info ++ key ∷ []) info)
unfolding add_proposer_key
add_proposer_key_lem key info h n l = ground (
  arith,
  bytes_eq_ne key default_pubkey h,
  store_proposers_lem (proposers info ++ key ∷ []) info,
  length-append (proposers info) (key ∷ []),
)

-- What `add_proposer` does on every branch of its checks, by the list of proposers.
pub add_proposer_key-proposers :
    (key : Pubkey) (info : ProtocolInfo) {r : ProtocolInfo}
    → add_proposer_key key info ≡ ok r
    → (key ≢ default_pubkey)
      × (contains (proposers info) key ≡ false)
      × (length (proposers info) < max_proposers)
      × (r ≡ with_proposers (proposers info ++ key ∷ []) info)
unfolding add_proposer_key
add_proposer_key-proposers key info e = ground (
  arith,
  bytes_eq_iff key default_pubkey,
  store_proposers_lem (proposers info ++ key ∷ []) info,
  length-append (proposers info) (key ∷ []),
)

without_fits :
    (key : Pubkey) (info : ProtocolInfo)
    → length (proposers info) ≤ max_proposers
    → length (without key (proposers info)) ≤ max_proposers
without_fits key info h = omega (arith, length-without-le key (proposers info))

-- A removal always succeeds.
pub remove_proposer_key_lem :
    (key : Pubkey) (info : ProtocolInfo)
    → length (proposers info) ≤ max_proposers
    → remove_proposer_key key info ≡ ok (with_proposers (without key (proposers info)) info)
unfolding remove_proposer_key
remove_proposer_key_lem key info l =
    store_proposers_lem (without key (proposers info)) info (without_fits key info l)
