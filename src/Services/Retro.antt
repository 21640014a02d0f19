-- ===== src/Services/Retro.antt =====
-- The reading of old transactions (transmitter-module/src/common/solana_logs/solana_retro_reader.rs):
-- pages of signatures, newest first, from the newest transaction back to one that is known already,
-- again and again. What the node answers is a parameter; the rounds are a list, and the pages of a
-- round, which the source reads until one is empty, are read on fuel.
pub mod Pages
pub mod Sent
pub mod Rounds
mod Tests
use photon_solana_contracts.Prelude.{
  ℕ, zero, suc, Bool, true, false, not, ◌&&◌, Bytes, List, [], ◌∷◌, ◌++◌, Option, none, some,
  if◌then◌else◌,
}

-- The part of a transaction's status that the reader uses.
pub record TransactionMeta : Type 0 where
  pub has_err : Bool
  pub log_messages : Option (List Bytes)

pub record Fetched : Type 0 where
  pub slot : ℕ
  pub meta : Option TransactionMeta

-- What a node answers during a round: the signatures after `until` and before `before`, a
-- transaction, and whether a text is a signature.
pub record Node : Type 0 where
  pub signatures : Option Bytes → Option Bytes → List Bytes
  pub transaction : Bytes → Fetched
  pub is_signature : Bytes → Bool

pub record LogsBunch : Type 0 where
  pub need_check : Bool
  pub tx_signature : Bytes
  pub slot : ℕ
  pub logs : List Bytes

-- The logs of a transaction that succeeded.
unfoldable pub logs_of : Fetched → Option (List Bytes)
logs_of fetched = elim fetched.meta [
  | none ↦ none
  | some meta ↦ if meta.has_err then none else meta.log_messages
]

unfoldable pub bunch_of : Bool → Bytes → ℕ → Option (List Bytes) → Option LogsBunch
bunch_of need_check signature slot none = none
bunch_of need_check signature slot (some []) = none
bunch_of need_check signature slot (some (line ∷ lines)) =
    some (record {
      need_check = need_check;
      tx_signature = signature;
      slot = slot;
      logs = line ∷ lines;
    })

abbrev pub push_front : Option LogsBunch → List LogsBunch → List LogsBunch
push_front none bunches = bunches
push_front (some bunch) bunches = bunch ∷ bunches

-- `back`: the last element.
unfoldable pub back : List LogsBunch → Option LogsBunch
back [] = none
back (bunch ∷ []) = some bunch
back (bunch ∷ next ∷ bunches) = back (next ∷ bunches)

-- How a round ends: the fuel is used up, the bunches in the order in which they are sent, or an abort
-- on a text that is no signature.
pub data Reading : Type 0 where
  unfinished aborted : Reading
  finished : List LogsBunch → Reading

pub record ReaderState : Type 0 where
  pub tx_read_from : Option Bytes
  pub until : Option Bytes
  pub next_until : Option Bytes

-- Where the round stops, and whether what it finds has to be checked.
unfoldable pub choose_until : ReaderState → Option Bytes × Bool
choose_until state = elim state.tx_read_from [
  | some signature ↦ (some signature, true)
  | none ↦ elim state.next_until [
    | some signature ↦ (some signature, false)
    | none ↦ (state.until, false)
  ]
]

module _ (node : Node) where
  open node use {signatures, transaction, is_signature}

  -- `process_signature`: the new `before`, and the bunches.
  unfoldable pub process_signature :
      Bool → Bytes → Option Bytes × List LogsBunch → Option Bytes × List LogsBunch
  process_signature need_check signature state =
      if is_signature signature
      then (
        some signature,
        push_front
            (bunch_of need_check signature (transaction signature).slot
              (logs_of (transaction signature)))
            state.1,
      )
      else state

  unfoldable pub process_signatures :
      Bool → List Bytes → Option Bytes × List LogsBunch → Option Bytes × List LogsBunch
  process_signatures need_check [] state = state
  process_signatures need_check (signature ∷ rest) state =
      process_signatures need_check rest (process_signature need_check signature state)

  -- The inner loop; `has_next` says that `next_until` is set.
  unfoldable pub read_pages :
      ℕ → Option Bytes → Bool → Bool → Option Bytes × List LogsBunch → Reading
  read_pages zero until need_check has_next state = unfinished
  read_pages (suc fuel) until need_check has_next state = elim (signatures until state.0) [
    | [] ↦ finished state.1
    | newest ∷ rest ↦
        if not has_next && not (is_signature newest)
        then aborted
        else read_pages fuel until need_check true
            (process_signatures need_check (newest ∷ rest) state)
  ]

-- What the last bunch is, for the next round.
unfoldable pub signature_of_back : List LogsBunch → Option Bytes
signature_of_back bunches = elim (back bunches) [
  | none ↦ none
  | some bunch ↦ some bunch.tx_signature
]

unfoldable pub next_state : ReaderState → List LogsBunch → ReaderState
next_state state bunches = record {
  tx_read_from = none;
  until = (choose_until state).0;
  next_until = signature_of_back bunches;
}

-- A round from a state.
unfoldable pub read_round : ℕ → Node → ReaderState → Reading
read_round fuel node state =
    read_pages node fuel (choose_until state).0 (choose_until state).1 false (none, [])

-- `read_events_backward`: what each round sends, until one fails.
unfoldable pub read_rounds : ℕ → List Node → ReaderState → List (List LogsBunch)
read_rounds fuel [] state = []
read_rounds fuel (node ∷ nodes) state = elim (read_round fuel node state) [
  | unfinished ↦ []
  | aborted ↦ []
  | finished bunches ↦ bunches ∷ read_rounds fuel nodes (next_state state bunches)
]

unfoldable pub initial_state : Bytes → ReaderState
initial_state tx_read_from = record {
  tx_read_from = some tx_read_from;
  until = none;
  next_until = none;
}
