-- ===== src/Gov/Members/Transmitters.antt =====
-- The effect of `add_transmitters_impl` and `remove_transmitters_impl` on a protocol's transmitters.
use photon_solana_contracts.Prelude.{
  ◌+◌, ◌≤◌, ◌<◌, ◌≡◌, ◌≢◌, sym, ap, ◌∙◌, true, false, not, ◌||◌, List, [], ◌∷◌, ◌++◌, contains,
  bytes_eq_iff, bytes_eq_refl, subst, length, length-append, length-filter_b-le, All, All-append,
  append_assoc, arith, if◌then◌else◌,
}
use photon_solana_contracts.Errors.{ok, ok-injective}
use photon_solana_contracts.Slots.{without_all, dedup}
use photon_solana_contracts.Slots.Laws.{
  padded, store_fits, active-padded, active-All, contains-append, contains-without_all, AreDistinct,
  All-ne-without_all,
}
use photon_solana_contracts.Slots.Duplicates.{
  All-ne-dedup, contains-dedup, dedup-snoc2, AreDistinct-append,
}
use photon_solana_contracts.ProtocolData.{EthAddress, default_eth_address}
use photon_solana_contracts.State.{ProtocolInfo, transmitters, max_transmitters}
use photon_solana_contracts.Gov.Members.{
  store_transmitters, add_transmitters_impl, remove_transmitters_impl,
}

abbrev pub with_transmitters : List EthAddress → ProtocolInfo → ProtocolInfo
with_transmitters ks info = record info {
  transmitter_slots = padded max_transmitters default_eth_address ks;
}

pub store_transmitters_lem :
    (ks : List EthAddress) (info : ProtocolInfo)
    → length ks ≤ max_transmitters
    → store_transmitters ks info ≡ ok (with_transmitters ks info)
unfolding store_transmitters
store_transmitters_lem ks info h = rw (store_fits max_transmitters default_eth_address ks h)

pub transmitters-with_transmitters :
    (ks : List EthAddress) (info : ProtocolInfo)
    → All (λ k. k ≢ default_eth_address) ks
    → transmitters (with_transmitters ks info) ≡ ks
unfolding transmitters
transmitters-with_transmitters ks info h = active-padded max_transmitters default_eth_address ks h

pub transmitters-All :
    (info : ProtocolInfo) → All (λ k. k ≢ default_eth_address) (transmitters info)
unfolding transmitters
transmitters-All info = active-All default_eth_address info.transmitter_slots

-- The list that `add_transmitters_impl` stores.
abbrev merged : List EthAddress → ProtocolInfo → List EthAddress
merged to_add info = dedup (transmitters info ++ to_add)

pub add_transmitters_impl_lem :
    (to_add : List EthAddress) (info : ProtocolInfo) {r : ProtocolInfo}
    → add_transmitters_impl to_add info ≡ ok r
    → (length (merged to_add info) < max_transmitters)
      × (r ≡ with_transmitters (merged to_add info) info)
unfolding add_transmitters_impl
add_transmitters_impl_lem to_add info e =
    ground (arith, store_transmitters_lem (merged to_add info) info)

merged-All :
    (to_add : List EthAddress) (info : ProtocolInfo)
    → All (λ k. k ≢ default_eth_address) to_add
    → All (λ k. k ≢ default_eth_address) (merged to_add info)
merged-All to_add info h =
    All-ne-dedup default_eth_address (transmitters info ++ to_add)
      (All-append _ (transmitters info) to_add (transmitters-All info) h)

-- After an addition of addresses that are not the default one, the transmitters are those from
-- before and the added ones, and there are fewer than 20 of them; nothing else has changed.
pub add_transmitters_impl-members :
    (to_add : List EthAddress) (info : ProtocolInfo) {r : ProtocolInfo}
    → All (λ k. k ≢ default_eth_address) to_add
    → add_transmitters_impl to_add info ≡ ok r
    → ((a : EthAddress)
        → contains (transmitters r) a ≡ (contains (transmitters info) a || contains to_add a))
      × (length (transmitters r) < max_transmitters)
      × (r ≡ record info { transmitter_slots = r.transmitter_slots })
add_transmitters_impl-members to_add info {r} h e =
    let (short, stored) = add_transmitters_impl_lem to_add info e in
    let read : transmitters r ≡ merged to_add info =
      ap transmitters stored
      ∙ transmitters-with_transmitters (merged to_add info) info (merged-All to_add info h) in
    (
      λ a.
          ap (λ xs. contains xs a) read
          ∙ contains-dedup a (transmitters info ++ to_add)
          ∙ contains-append (transmitters info) to_add a,
      omega (arith, ap length read),
      ground arith,
    )

-- `dedup` only looks at neighbours: a transmitter that is registered already and is not the last one
-- is registered a second time, as long as there is room.
pub add_transmitters_impl-duplicate :
    (xs : List EthAddress) (b a : EthAddress) (info : ProtocolInfo)
    → transmitters info ≡ xs ++ b ∷ []
    → AreDistinct (xs ++ b ∷ [])
    → contains xs a ≡ true
    → length xs + 2 < max_transmitters
    → a ≢ default_eth_address
    → (r : ProtocolInfo) × (add_transmitters_impl (a ∷ []) info ≡ ok r)
      × (transmitters r ≡ xs ++ b ∷ a ∷ [])
      × (¬ AreDistinct (transmitters r))
unfolding add_transmitters_impl contains
add_transmitters_impl-duplicate xs b a info e dist c l d =
    let twice : List EthAddress = xs ++ b ∷ a ∷ [] in
    let b≢a : b ≢ a =
      λ p. ground (arith, AreDistinct-append xs (b ∷ []) a dist c, bytes_eq_iff b a) in
    let same : merged (a ∷ []) info ≡ twice =
      ap (λ ts. dedup (ts ++ a ∷ [])) e
      ∙ ap dedup (append_assoc xs (b ∷ []) (a ∷ []))
      ∙ dedup-snoc2 xs b a dist b≢a in
    let size : length twice ≡ length xs + 2 = omega (arith, length-append xs (b ∷ a ∷ [])) in
    let read : transmitters (with_transmitters twice info) ≡ twice =
      transmitters-with_transmitters twice info
        (subst (All (λ k. k ≢ default_eth_address)) same (merged-All (a ∷ []) info (d, tt))) in
    (
      with_transmitters twice info,
      rw same (ground (arith, size, store_transmitters_lem twice info)),
      read,
      λ h. ground (
        arith,
        AreDistinct-append xs (b ∷ a ∷ []) a (subst AreDistinct read h) c,
        bytes_eq_refl a,
      ),
    )

-- The transmitters after a removal are those that were not to be removed.
pub remove_transmitters_impl_lem :
    (to_remove : List EthAddress) (info : ProtocolInfo)
    → length (transmitters info) ≤ max_transmitters
    → remove_transmitters_impl to_remove info
      ≡ ok (with_transmitters (without_all to_remove (transmitters info)) info)
unfolding remove_transmitters_impl without_all
remove_transmitters_impl_lem to_remove info h =
    store_transmitters_lem _ info
      (omega (arith, length-filter_b-le (λ x. not (contains to_remove x)) (transmitters info)))

-- Where there are at most 20 transmitters, a removal that succeeds leaves exactly those that are
-- not on its list.
pub remove_transmitters_impl-members :
    (to_remove : List EthAddress) (info : ProtocolInfo) {r : ProtocolInfo}
    → length (transmitters info) ≤ max_transmitters
    → remove_transmitters_impl to_remove info ≡ ok r
    → (a : EthAddress)
    → contains (transmitters r) a
      ≡ (if contains to_remove a then false else contains (transmitters info) a)
remove_transmitters_impl-members to_remove info {r} h e a =
    let stored = ok-injective (sym e ∙ remove_transmitters_impl_lem to_remove info h) in
    ap (λ s. contains (transmitters s) a) stored
    ∙ ap (λ xs. contains xs a)
        (transmitters-with_transmitters (without_all to_remove (transmitters info)) info (
          All-ne-without_all default_eth_address to_remove (transmitters info)
            (transmitters-All info)))
    ∙ contains-without_all to_remove (transmitters info) a
