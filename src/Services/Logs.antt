-- ===== src/Services/Logs.antt =====
-- `parse_logs` (transmitter-module/src/common/solana_logs/parse_logs.rs): the listener reads the
-- events of the endpoint from the log of a transaction. Regular expressions, base64 and the event's
-- deserialization are parameters.
pub mod Written
pub mod Trace
pub mod Forgery
mod Tests
use photon_solana_contracts.Prelude.{
  ℕ, Bool, true, false, Bytes, List, [], ◌∷◌, ◌++◌, Option, none, some, length, ltb, take, drop,
  bytes_eq, ◌==◌, if◌then◌else◌,
}
use photon_solana_contracts.Services.{
  Answer, success, failure, solana_parse_logs, abort, ◌>>=◌, answer_or,
}

-- What the parser uses: the first group of a match of a pattern on a line, and the codec of an event
-- type `T` (its discriminator stands in front of its fields).
pub record LogReader : Type 1 where
  pub T : Type 0
  pub captures : Bytes → Bytes → Option Bytes
  pub base64_decode : Bytes → Option Bytes
  pub discriminator : Bytes
  pub deserialize : Bytes → Option T

-- "^Program (.*) invoke.*$", "^Program (.*) invoke$" and "^Program (.*) success$"
abbrev pub invoke_pattern : Bytes
invoke_pattern =
    b'^' ∷ b'P' ∷ b'r' ∷ b'o' ∷ b'g' ∷ b'r' ∷ b'a' ∷ b'm' ∷ 0x20 ∷ b'(' ∷ b'.' ∷ b'*' ∷ b')' ∷ 0x20
    ∷ b'i' ∷ b'n' ∷ b'v' ∷ b'o' ∷ b'k' ∷ b'e' ∷ b'.' ∷ b'*' ∷ b'$' ∷ []

abbrev pub invoke_only_pattern : Bytes
invoke_only_pattern =
    b'^' ∷ b'P' ∷ b'r' ∷ b'o' ∷ b'g' ∷ b'r' ∷ b'a' ∷ b'm' ∷ 0x20 ∷ b'(' ∷ b'.' ∷ b'*' ∷ b')' ∷ 0x20
    ∷ b'i' ∷ b'n' ∷ b'v' ∷ b'o' ∷ b'k' ∷ b'e' ∷ b'$' ∷ []

abbrev pub success_pattern : Bytes
success_pattern =
    b'^' ∷ b'P' ∷ b'r' ∷ b'o' ∷ b'g' ∷ b'r' ∷ b'a' ∷ b'm' ∷ 0x20 ∷ b'(' ∷ b'.' ∷ b'*' ∷ b')' ∷ 0x20
    ∷ b's' ∷ b'u' ∷ b'c' ∷ b'c' ∷ b'e' ∷ b's' ∷ b's' ∷ b'$' ∷ []

-- "Program log: ", "Program data: ", "Program " and " log:"
abbrev pub program_log : Bytes
program_log =
    b'P' ∷ b'r' ∷ b'o' ∷ b'g' ∷ b'r' ∷ b'a' ∷ b'm' ∷ 0x20 ∷ b'l' ∷ b'o' ∷ b'g' ∷ b':' ∷ 0x20 ∷ []

abbrev pub program_data : Bytes
program_data =
    b'P' ∷ b'r' ∷ b'o' ∷ b'g' ∷ b'r' ∷ b'a' ∷ b'm' ∷ 0x20 ∷ b'd' ∷ b'a' ∷ b't' ∷ b'a' ∷ b':' ∷ 0x20
    ∷ []

abbrev pub program_word : Bytes
program_word = b'P' ∷ b'r' ∷ b'o' ∷ b'g' ∷ b'r' ∷ b'a' ∷ b'm' ∷ 0x20 ∷ []

abbrev pub log_word : Bytes
log_word = 0x20 ∷ b'l' ∷ b'o' ∷ b'g' ∷ b':' ∷ []

-- `strip_prefix` of `str`
unfoldable pub strip_prefix : Bytes → Bytes → Option Bytes
strip_prefix [] line = some line
strip_prefix (p ∷ ps) [] = none
strip_prefix (p ∷ ps) (c ∷ line) = let rest = strip_prefix ps line in if p == c then rest else none

-- `l.strip_prefix(PROGRAM_LOG).or_else(|| l.strip_prefix(PROGRAM_DATA))`
unfoldable pub payload_of : Bytes → Option Bytes
payload_of line = elim (strip_prefix program_log line) [
  | some payload ↦ some payload
  | none ↦ strip_prefix program_data line
]

-- `Execution`: the running programs, the innermost first.
pub record Execution : Type 0 where
  pub stack : List Bytes

unfoldable pub program : Execution → Answer Bytes
program execution = elim execution.stack [ [] ↦ failure solana_parse_logs | p ∷ rest ↦ success p ]

unfoldable pub push : Bytes → Execution → Execution
push new_program execution = record { stack = new_program ∷ execution.stack }

unfoldable pub pop : Execution → Answer Execution
pop execution = elim execution.stack [
  | [] ↦ failure solana_parse_logs
  | p ∷ rest ↦ success (record { stack = rest })
]

module _ (reader : LogReader) where
  open reader use {T, captures, base64_decode, discriminator, deserialize}

  -- The program that runs now, and the stack.
  unfoldable pub update : Bytes → Execution → Answer (Bytes × Execution)
  update line execution = elim (captures invoke_pattern line) [
    | none ↦ program execution >>= λ p. success (p, execution)
    | some p ↦ program (push p execution) >>= λ q. success (q, push p execution)
  ]

  unfoldable pub handle_irrelevant_log : Bytes → Bytes → Option Bytes × Bool
  handle_irrelevant_log this_program line =
      elim (strip_prefix (program_word ++ (this_program ++ log_word)) line) [
        | some rest ↦ (some this_program, false)
        | none ↦ elim (captures invoke_only_pattern line) [
          | some p ↦ (some p, false)
          | none ↦ elim (captures success_pattern line) [
            | some p ↦ (none, true)
            | none ↦ (none, false)
          ]
        ]
      ]

  -- The event in decoded bytes, which must hold a discriminator.
  unfoldable pub read_event : Bytes → Answer (Option T)
  read_event bytes =
      if ltb (length bytes) 8
      then failure abort
      else if bytes_eq (take 8 bytes) discriminator
      then (answer_or (deserialize (drop 8 bytes)) solana_parse_logs >>= λ e. success (some e))
      else success none

  unfoldable pub handle_program_log : Bytes → Bytes → Answer (Option T × Bool)
  handle_program_log self_program line = elim (payload_of line) [
    | none ↦ success (none, (handle_irrelevant_log self_program line).1)
    | some payload ↦ elim (base64_decode payload) [
      | none ↦ success (none, false)
      | some bytes ↦ read_event bytes >>= λ event. success (event, false)
    ]
  ]

  pub record Progress : Type 0 where
    pub events : List T
    pub do_pop : Bool
    pub execution : Execution

  abbrev pub pop_if : Bool → Execution → Answer Execution
  pop_if true execution = pop execution
  pop_if false execution = success execution

  abbrev pub add_event : Option T → List T → List T
  add_event none events = events
  add_event (some e) events = events ++ e ∷ []

  -- One line, with the program that it belongs to.
  unfoldable pub handle_log : Bytes → Bytes → Bytes → Answer (Option T × Bool)
  handle_log program_id running line =
      if bytes_eq program_id running
      then handle_program_log program_id line
      else success (none, (handle_irrelevant_log program_id line).1)

  unfoldable pub read_line : Bytes → Bytes → Progress → Answer Progress
  read_line program_id line state = pop_if state.do_pop state.execution >>= λ execution.
      update line execution >>= λ running. handle_log program_id running.0 line >>= λ handled.
      success (record {
        events = add_event handled.0 state.events;
        do_pop = handled.1;
        execution = running.1;
      })

  -- The `for` loop over the lines.
  unfoldable pub read_lines : Bytes → List Bytes → Progress → Answer Progress
  read_lines program_id [] state = success state
  read_lines program_id (line ∷ lines) state =
      read_line program_id line state >>= λ next. read_lines program_id lines next

  abbrev pub start : Progress
  start = record { events = []; do_pop = false; execution = record { stack = [] } }

  unfoldable pub parse_logs : List Bytes → Bytes → Answer (List T)
  parse_logs lines program_id = read_lines program_id lines start >>= λ end. success end.events
