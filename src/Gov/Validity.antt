-- ===== src/Gov/Validity.antt =====
-- The well-formedness of a protocol's slot arrays, and that every change of its members keeps it.
use photon_solana_contracts.Prelude.{
  ◌≤◌, ◌≡◌, ◌≢◌, sym, ◌∙◌, subst, List, [], ◌∷◌, ◌++◌, Bytes, length, length-append, All,
  All-append, arith,
}
use photon_solana_contracts.Errors.{ok, ok-injective}
use photon_solana_contracts.Slots.{without, without_all, dedup}
use photon_solana_contracts.Slots.Laws.{
  length-padded, AreDistinct, AreDistinct-snoc, AreDistinct-without, All-ne-without,
  length-without-le, length-active-le, length-without_all-le,
}
use photon_solana_contracts.Slots.Packed.{IsPacked, IsPacked-padded}
use photon_solana_contracts.ProtocolData.{Pubkey, default_pubkey, default_eth_address}
use photon_solana_contracts.State.{
  ProtocolInfo, executors, proposers, transmitters, max_executors, max_proposers, max_transmitters,
}
use photon_solana_contracts.Gov.Members.{
  add_executor_key, remove_executor_key, add_proposer_key, remove_proposer_key,
  add_transmitters_impl, remove_transmitters_impl,
}
use photon_solana_contracts.Gov.Members.Executors.{
  with_executors, executors-All, add_executor_key-executors, remove_executor_key-executors,
}
use photon_solana_contracts.Gov.Members.Proposers.{
  with_proposers, proposers-All, add_proposer_key-proposers, remove_proposer_key_lem,
}
use photon_solana_contracts.Gov.Members.Transmitters.{
  with_transmitters, add_transmitters_impl_lem, remove_transmitters_impl_lem,
}

-- 20 slots each; executors and proposers are distinct, not the default key, and stand in front.
pub record IsValidInfo (info : ProtocolInfo) : Type 0 where
  pub executors_packed : IsPacked max_executors default_pubkey info.executor_slots
  pub proposers_packed : IsPacked max_proposers default_pubkey info.proposer_slots
  pub transmitters_sized : length info.transmitter_slots ≡ max_transmitters

pub with_executors-IsValidInfo :
    (ks : List Pubkey) (info : ProtocolInfo)
    → IsValidInfo info
    → All (λ k. k ≢ default_pubkey) ks
    → AreDistinct ks
    → length ks ≤ max_executors
    → IsValidInfo (with_executors ks info)
with_executors-IsValidInfo ks info v h d l = record {
  executors_packed = IsPacked-padded max_executors default_pubkey ks h d l;
  proposers_packed = v.proposers_packed;
  transmitters_sized = v.transmitters_sized;
}

pub with_proposers-IsValidInfo :
    (ks : List Pubkey) (info : ProtocolInfo)
    → IsValidInfo info
    → All (λ k. k ≢ default_pubkey) ks
    → AreDistinct ks
    → length ks ≤ max_proposers
    → IsValidInfo (with_proposers ks info)
with_proposers-IsValidInfo ks info v h d l = record {
  executors_packed = v.executors_packed;
  proposers_packed = IsPacked-padded max_proposers default_pubkey ks h d l;
  transmitters_sized = v.transmitters_sized;
}

pub with_transmitters-IsValidInfo :
    (ks : List Bytes) (info : ProtocolInfo)
    → IsValidInfo info
    → length ks ≤ max_transmitters
    → IsValidInfo (with_transmitters ks info)
with_transmitters-IsValidInfo ks info v l = record {
  executors_packed = v.executors_packed;
  proposers_packed = v.proposers_packed;
  transmitters_sized = length-padded max_transmitters default_eth_address ks l;
}

pub executors-valid :
    {info : ProtocolInfo}
    → IsValidInfo info
    → AreDistinct (executors info) × (length (executors info) ≤ max_executors)
unfolding executors
executors-valid v = (v.executors_packed.distinct, v.executors_packed.bounded)

pub proposers-valid :
    {info : ProtocolInfo}
    → IsValidInfo info
    → AreDistinct (proposers info) × (length (proposers info) ≤ max_proposers)
unfolding proposers
proposers-valid v = (v.proposers_packed.distinct, v.proposers_packed.bounded)

pub transmitters-bounded :
    {info : ProtocolInfo} → IsValidInfo info → length (transmitters info) ≤ max_transmitters
unfolding transmitters
transmitters-bounded {info} v =
    omega (arith, length-active-le default_eth_address info.transmitter_slots, v.transmitters_sized)

pub add_executor_key-IsValidInfo :
    (key : Pubkey) (info : ProtocolInfo) {r : ProtocolInfo}
    → IsValidInfo info
    → add_executor_key key info ≡ ok r
    → IsValidInfo r
add_executor_key-IsValidInfo key info v e =
    let (proper, new, room, stored) = add_executor_key-executors key info e in
    subst IsValidInfo (sym stored) (
      with_executors-IsValidInfo (executors info ++ key ∷ []) info v
        (All-append _ (executors info) (key ∷ []) (executors-All info) (proper, tt))
        (AreDistinct-snoc (executors info) key (executors-valid v).0 new)
        (omega (arith, length-append (executors info) (key ∷ []))))

pub remove_executor_key-IsValidInfo :
    (key : Pubkey) (id : Bytes) (info : ProtocolInfo) {r : ProtocolInfo}
    → IsValidInfo info
    → remove_executor_key key id info ≡ ok r
    → IsValidInfo r
remove_executor_key-IsValidInfo key id info v e =
    let (dist, l) = executors-valid v in
    let (_, stored) = remove_executor_key-executors key id info l e in
    subst IsValidInfo (sym stored) (
      with_executors-IsValidInfo (without key (executors info)) info v
        (All-ne-without default_pubkey key (executors info) (executors-All info))
        (AreDistinct-without key (executors info) dist)
        (omega (arith, length-without-le key (executors info))))

pub add_proposer_key-IsValidInfo :
    (key : Pubkey) (info : ProtocolInfo) {r : ProtocolInfo}
    → IsValidInfo info
    → add_proposer_key key info ≡ ok r
    → IsValidInfo r
add_proposer_key-IsValidInfo key info v e =
    let (proper, new, room, stored) = add_proposer_key-proposers key info e in
    subst IsValidInfo (sym stored) (
      with_proposers-IsValidInfo (proposers info ++ key ∷ []) info v
        (All-append _ (proposers info) (key ∷ []) (proposers-All info) (proper, tt))
        (AreDistinct-snoc (proposers info) key (proposers-valid v).0 new)
        (omega (arith, length-append (proposers info) (key ∷ []))))

pub remove_proposer_key-IsValidInfo :
    (key : Pubkey) (info : ProtocolInfo) {r : ProtocolInfo}
    → IsValidInfo info
    → remove_proposer_key key info ≡ ok r
    → IsValidInfo r
remove_proposer_key-IsValidInfo key info v e =
    let (dist, l) = proposers-valid v in
    subst IsValidInfo (ok-injective (sym (remove_proposer_key_lem key info l) ∙ e)) (
      with_proposers-IsValidInfo (without key (proposers info)) info v
        (All-ne-without default_pubkey key (proposers info) (proposers-All info))
        (AreDistinct-without key (proposers info) dist)
        (omega (arith, length-without-le key (proposers info))))

pub add_transmitters_impl-IsValidInfo :
    (ts : List Bytes) (info : ProtocolInfo) {r : ProtocolInfo}
    → IsValidInfo info
    → add_transmitters_impl ts info ≡ ok r
    → IsValidInfo r
add_transmitters_impl-IsValidInfo ts info v e =
    let (l, stored) = add_transmitters_impl_lem ts info e in
    subst IsValidInfo (sym stored)
      (with_transmitters-IsValidInfo (dedup (transmitters info ++ ts)) info v (omega arith))

pub remove_transmitters_impl-IsValidInfo :
    (ts : List Bytes) (info : ProtocolInfo) {r : ProtocolInfo}
    → IsValidInfo info
    → remove_transmitters_impl ts info ≡ ok r
    → IsValidInfo r
remove_transmitters_impl-IsValidInfo ts info v e =
    let l = transmitters-bounded v in
    subst IsValidInfo (ok-injective (sym (remove_transmitters_impl_lem ts info l) ∙ e)) (
      with_transmitters-IsValidInfo (without_all ts (transmitters info)) info v
        (omega (arith, length-without_all-le ts (transmitters info))))
