-- ===== src/Services/OpRegistry/Order.antt =====
-- The block numbers of the registry are ascending, and what the entries hold follows the
-- acknowledgements.
use photon_solana_contracts.Prelude.{
  ℕ, ◌+◌, ◌-◌, ◌≤◌, ◌<◌, ◌≡◌, refl, Bool, true, false, ◌&&◌, ◌||◌, Bytes, List, [], ◌∷◌, Option,
  none, some, ltb, ◌==◌, bytes_eq, bytes_eq_iff, contains, arith, if◌then◌else◌,
}
use photon_solana_contracts.Slots.{is_empty}
use photon_solana_contracts.Slots.Laws.{contains-append, contains-without}
use photon_solana_contracts.Services.OpRegistry.{
  ExecutorOpStatus, new, loaded, signed, executed, failed, BlockInfo, on_new_operation,
  on_executed_operation, on_status, change_entry, take_done,
}

-- Ascending, from `low` on.
abbrev pub IsAscending : ℕ → List (ℕ × BlockInfo) → Type 0
IsAscending low [] = Unit {0}
IsAscending low ((n, info) ∷ rest) = (low ≤ n) × IsAscending (n + 1) rest

pub IsAscending-weaker :
    (l m : ℕ) (entries : List (ℕ × BlockInfo))
    → l ≤ m
    → IsAscending m entries
    → IsAscending l entries
IsAscending-weaker l m [] h a = tt
IsAscending-weaker l m ((n, info) ∷ rest) h a = (omega (arith, a.0), a.1)

pub change_entry-IsAscending :
    (low n : ℕ) (fresh : BlockInfo) (f : BlockInfo → BlockInfo) (entries : List (ℕ × BlockInfo))
    → low ≤ n
    → IsAscending low entries
    → IsAscending low (change_entry n fresh f entries)
unfolding change_entry
change_entry-IsAscending low n fresh f [] h a = (h, tt)
change_entry-IsAscending low n fresh f ((m, info) ∷ rest) h a =
    ground (arith, change_entry-IsAscending (m + 1) n fresh f rest)

-- The operation `h` of the block `n` waits for its execution.
unfoldable pub waits : ℕ → Bytes → List (ℕ × BlockInfo) → Bool
waits n h [] = false
waits n h ((m, info) ∷ rest) = (n == m && contains info.ops h) || waits n h rest

pub waits_above :
    (n : ℕ) (h : Bytes) (low : ℕ) (entries : List (ℕ × BlockInfo))
    → IsAscending low entries
    → n < low
    → waits n h entries ≡ false
unfolding waits
waits_above n h low [] a l = refl
waits_above n h low ((m, info) ∷ rest) a l = ground (arith, waits_above n h (m + 1) rest a.1)

-- What an acknowledgement makes of whether an operation waits.
unfoldable pub after_status : ExecutorOpStatus → Bool → Bool
after_status new before = true
after_status executed before = false
after_status failed before = false
after_status loaded before = before
after_status signed before = before

contains-on_status :
    (st : ExecutorOpStatus) (k h : Bytes) (info : BlockInfo)
    → contains (on_status st k info).ops h
      ≡ (if bytes_eq k h then after_status st (contains info.ops h) else contains info.ops h)
unfolding on_status on_new_operation on_executed_operation after_status contains
contains-on_status new k h info =
    ground (arith, contains-append info.ops (k ∷ []) h, bytes_eq_iff k h)
contains-on_status executed k h info =
    ground (arith, contains-without k info.ops h, bytes_eq_iff k h, bytes_eq_iff h k)
contains-on_status failed k h info =
    ground (arith, contains-without k info.ops h, bytes_eq_iff k h, bytes_eq_iff h k)
contains-on_status loaded k h info = ground arith
contains-on_status signed k h info = ground arith

-- An acknowledgement changes what waits in its block, and for its operation only.
pub waits-change_entry :
    (m n : ℕ) (h k : Bytes) (st : ExecutorOpStatus) (low now : ℕ) (entries : List (ℕ × BlockInfo))
    → IsAscending low entries
    → waits n h (change_entry m (record { created_at = now; ops = [] }) (on_status st k) entries)
      ≡ (if n == m && bytes_eq k h then after_status st (waits n h entries) else waits n h entries)
unfolding change_entry waits after_status contains
waits-change_entry m n h k st low now [] a =
    ground (arith, contains-on_status st k h (record { created_at = now; ops = [] }))
waits-change_entry m n h k st low now ((m', info) ∷ rest) a = ground (
  arith,
  contains-on_status st k h (record { created_at = now; ops = [] }),
  contains-on_status st k h info,
  waits-change_entry m n h k st (m' + 1) now rest a.1,
  waits_above n h (m' + 1) rest a.1,
)

-- What is above the answer `block`, or from `low` on where there is none.
abbrev pub above : Option ℕ → ℕ → ℕ
above none low = low
above (some n) low = n + 1

-- A property of both branches is one of the conditional.
if_both {ℓ κ} :
    {A : Type ℓ} (P : A → Type κ) (b : Bool) {x y : A} → P x → P y → P (if b then x else y)
if_both P true p q = p
if_both P false p q = q

above_mono : (block : Option ℕ) (l m : ℕ) → l ≤ m → above block l ≤ above block m
above_mono none l m h = h
above_mono (some n) l m h = omega arith

-- What stays is above the answer.
pub take_done-IsAscending :
    (now timeout : ℕ) (block : Option ℕ) (low : ℕ) (entries : List (ℕ × BlockInfo))
    → IsAscending low entries
    → above block low ≤ low
    → IsAscending
        (above (take_done now timeout block entries).0 low)
        (take_done now timeout block entries).1
unfolding take_done
take_done-IsAscending now timeout block low [] a h = tt
take_done-IsAscending now timeout block low ((n, info) ∷ rest) a h =
    let later = take_done now timeout (some n) rest in
    if_both (λ (r : Option ℕ × List (ℕ × BlockInfo)). IsAscending (above r.0 low) r.1)
      (ltb timeout (now - info.created_at) && is_empty info.ops)
      (IsAscending-weaker (above later.0 low) (above later.0 (n + 1)) later.1
        (above_mono later.0 low (n + 1) (omega (arith, a.0)))
        (take_done-IsAscending now timeout (some n) (n + 1) rest a.1 (omega arith)))
      (omega (arith, a.0, h), a.1)

is_empty-contains : (ops : List Bytes) (h : Bytes) → is_empty ops ≡ true → contains ops h ≡ false
unfolding contains
is_empty-contains [] h e = refl
is_empty-contains (op ∷ ops) h e = absurd (cc e)

-- What waits in an ascending registry is not below its start.
pub waits_from :
    (n : ℕ) (h : Bytes) (low : ℕ) (entries : List (ℕ × BlockInfo))
    → IsAscending low entries
    → waits n h entries ≡ true
    → low ≤ n
waits_from n h low entries a w = ground (arith, waits_above n h low entries a)

-- What is removed waits for nothing.
pub waits-take_done :
    (now timeout : ℕ) (block : Option ℕ) (n : ℕ) (h : Bytes) (entries : List (ℕ × BlockInfo))
    → waits n h (take_done now timeout block entries).1 ≡ waits n h entries
unfolding take_done waits
waits-take_done now timeout block n h [] = refl
waits-take_done now timeout block n h ((m, info) ∷ rest) =
    ground (arith, waits-take_done now timeout (some m) n h rest, is_empty-contains info.ops h)
