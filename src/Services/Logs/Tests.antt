-- ===== src/Services/Logs/Tests.antt =====
-- The parser of logs on concrete texts: the three patterns as functions, payloads that begin with
-- `=` in place of base64, and events that are their bytes.
use photon_solana_contracts.Prelude.{
  ◌≡◌, ◌≤◌, refl, ap, ◌∙◌, subst, bytes_eq_iff, Bytes, [], ◌∷◌, ◌++◌, Option, none, some, length,
  replicate, bytes_eq, ◌==◌, arith, if◌then◌else◌,
}
use photon_solana_contracts.Services.{success}
use photon_solana_contracts.Services.Logs.{
  LogReader, invoke_pattern, invoke_only_pattern, program_word, program_data, strip_prefix,
  payload_of, parse_logs,
}
use photon_solana_contracts.Services.Logs.Written.{
  Call, call, nothing, line, sub, events_of, event_in, decoded, IsPlain, IsReadable, Opens, Ends,
  IsLog,
}
use photon_solana_contracts.Services.Logs.Trace.{render_all, events_of_all, parse_logs-render_all}
use photon_solana_contracts.Services.Logs.Forgery.{forgery, IsForgery, parse_logs_forged}

-- What stands before the last occurrence of a word.
before_last : Bytes → Bytes → Option Bytes
before_last word [] = none
before_last word (c ∷ text) =
    let later = before_last word text in
    let here = strip_prefix word (c ∷ text) in
    elim later [
      | some front ↦ some (c ∷ front)
      | none ↦ elim here [ some rest ↦ some [] | none ↦ none ]
    ]

-- What stands before a word that ends the text.
before_end : Bytes → Bytes → Option Bytes
before_end word [] = none
before_end word (c ∷ text) =
    let later = before_end word text in
    if bytes_eq word (c ∷ text)
    then some []
    else elim later [ some front ↦ some (c ∷ front) | none ↦ none ]

abbrev invoke_word : Bytes
invoke_word = 0x20 ∷ b'i' ∷ b'n' ∷ b'v' ∷ b'o' ∷ b'k' ∷ b'e' ∷ []

abbrev success_word : Bytes
success_word = 0x20 ∷ b's' ∷ b'u' ∷ b'c' ∷ b'c' ∷ b'e' ∷ b's' ∷ b's' ∷ []

abbrev after_program : Bytes → (Bytes → Option Bytes) → Option Bytes
after_program text next = elim (strip_prefix program_word text) [
  | none ↦ none
  | some rest ↦ next rest
]

abbrev captured : Bytes → Bytes → Option Bytes
captured pattern_text text =
    if bytes_eq pattern_text invoke_pattern
    then after_program text (before_last invoke_word)
    else if bytes_eq pattern_text invoke_only_pattern
    then after_program text (before_end invoke_word)
    else after_program text (before_end success_word)

abbrev unpacked : Bytes → Option Bytes
unpacked [] = none
unpacked (c ∷ text) = if c == b'=' then some text else none

abbrev mark : Bytes
mark = replicate 8 1

abbrev reader : LogReader
reader = record {
  T = Bytes;
  captures = captured;
  base64_decode = unpacked;
  discriminator = mark;
  deserialize = λ bytes. some bytes;
}

abbrev p : Bytes
p = b'p' ∷ []

abbrev q : Bytes
q = b'q' ∷ []

abbrev junk : Bytes
junk = b'l' ∷ b'o' ∷ b'g' ∷ b':' ∷ 0x20 ∷ b'x' ∷ []

abbrev open_p : Bytes
open_p =
    b'P' ∷ b'r' ∷ b'o' ∷ b'g' ∷ b'r' ∷ b'a' ∷ b'm' ∷ 0x20 ∷ b'p' ∷ 0x20 ∷ b'i' ∷ b'n' ∷ b'v' ∷ b'o'
    ∷ b'k' ∷ b'e' ∷ 0x20 ∷ b'[' ∷ b'1' ∷ b']' ∷ []

abbrev open_q : Bytes
open_q =
    b'P' ∷ b'r' ∷ b'o' ∷ b'g' ∷ b'r' ∷ b'a' ∷ b'm' ∷ 0x20 ∷ b'q' ∷ 0x20 ∷ b'i' ∷ b'n' ∷ b'v' ∷ b'o'
    ∷ b'k' ∷ b'e' ∷ 0x20 ∷ b'[' ∷ b'2' ∷ b']' ∷ []

abbrev close_p : Bytes
close_p =
    b'P' ∷ b'r' ∷ b'o' ∷ b'g' ∷ b'r' ∷ b'a' ∷ b'm' ∷ 0x20 ∷ b'p' ∷ 0x20 ∷ b's' ∷ b'u' ∷ b'c' ∷ b'c'
    ∷ b'e' ∷ b's' ∷ b's' ∷ []

abbrev close_q : Bytes
close_q =
    b'P' ∷ b'r' ∷ b'o' ∷ b'g' ∷ b'r' ∷ b'a' ∷ b'm' ∷ 0x20 ∷ b'q' ∷ 0x20 ∷ b's' ∷ b'u' ∷ b'c' ∷ b'c'
    ∷ b'e' ∷ b's' ∷ b's' ∷ []

abbrev said : Bytes
said =
    b'P' ∷ b'r' ∷ b'o' ∷ b'g' ∷ b'r' ∷ b'a' ∷ b'm' ∷ 0x20 ∷ b'l' ∷ b'o' ∷ b'g' ∷ b':' ∷ 0x20 ∷ b'h'
    ∷ b'e' ∷ b'l' ∷ b'l' ∷ b'o' ∷ []

abbrev fake_success : Bytes
fake_success =
    b'P' ∷ b'r' ∷ b'o' ∷ b'g' ∷ b'r' ∷ b'a' ∷ b'm' ∷ 0x20 ∷ b'l' ∷ b'o' ∷ b'g' ∷ b':' ∷ 0x20 ∷ b'x'
    ∷ 0x20 ∷ b's' ∷ b'u' ∷ b'c' ∷ b'c' ∷ b'e' ∷ b's' ∷ b's' ∷ []

abbrev fake_call : Bytes
fake_call =
    b'P' ∷ b'r' ∷ b'o' ∷ b'g' ∷ b'r' ∷ b'a' ∷ b'm' ∷ 0x20 ∷ b'l' ∷ b'o' ∷ b'g' ∷ b':' ∷ 0x20 ∷ b'x'
    ∷ 0x20 ∷ b'i' ∷ b'n' ∷ b'v' ∷ b'o' ∷ b'k' ∷ b'e' ∷ []

abbrev emitted : Bytes
emitted = program_data ++ b'=' ∷ (mark ++ 5 ∷ [])

abbrev honest : Call
honest =
    call p open_p
      (line said (sub (call q open_q (line emitted nothing) close_q) (line emitted nothing)))
      close_p

some_bytes : {a b : Bytes} → ◌≡◌ {A = Option Bytes} (some a) (some b) → a ≡ b
some_bytes e = cc e

emitted-IsReadable : IsReadable reader emitted
unfolding payload_of strip_prefix
emitted-IsReadable payload bytes e f =
    let sent : b'=' ∷ (mark ++ 5 ∷ []) ≡ payload = some_bytes e in
    let got : mark ++ 5 ∷ [] ≡ bytes = some_bytes (ap unpacked sent ∙ f) in
    (subst (λ (b : Bytes). 8 ≤ length b) got (omega arith), λ _ missing. absurd (cc missing))

hello-IsReadable : IsReadable reader said
unfolding payload_of strip_prefix
hello-IsReadable payload bytes e f =
    let absent : ◌≡◌ {A = Option Bytes} none (some bytes) = ap unpacked (some_bytes e) ∙ f in
    absurd (cc absent)

opens : Opens reader p open_p × Opens reader q open_q
unfolding payload_of strip_prefix before_last before_end bytes_eq
opens = ((refl, refl, refl), (refl, refl, refl))

ends : Ends reader p close_p × Ends reader p close_q
unfolding payload_of strip_prefix before_last before_end bytes_eq
ends =
    ((refl, (λ e. absurd (cc e), refl), refl, refl), (refl, (λ e. absurd (cc e), refl), refl, refl))

plain : IsPlain reader emitted × IsPlain reader said
unfolding payload_of strip_prefix before_last before_end bytes_eq
plain = ((refl, refl), (refl, refl))

parse_logs-render_all_example :
    parse_logs reader (render_all reader (honest ∷ [])) p
    ≡ success (events_of_all reader p (honest ∷ []))
unfolding IsLog
parse_logs-render_all_example = parse_logs-render_all reader p (honest ∷ []) (
  (
    opens.0,
    (
      plain.1,
      (λ _. hello-IsReadable),
      (
        (opens.1, (plain.0, (λ _. emitted-IsReadable), tt), ends.1),
        (plain.0, (λ _. emitted-IsReadable), tt),
      ),
    ),
    ends.0,
  ),
  tt,
)

-- Of the two events, only that of `p` is found.
found_events : events_of_all reader p (honest ∷ []) ≡ (5 ∷ []) ∷ []
unfolding events_of_all events_of event_in decoded payload_of strip_prefix bytes_eq
found_events = refl

attack :
    IsForgery reader p q open_p open_q fake_success emitted fake_call close_q close_p junk (5 ∷ [])
unfolding payload_of strip_prefix before_last before_end bytes_eq event_in decoded
attack = record {
  other = λ e. ground (arith, e, bytes_eq_iff p q);
  opens_p = opens.0;
  opens_q = opens.1;
  not_a_call = refl;
  looks_closed = (λ e. absurd (cc e), refl);
  not_own = refl;
  plain = plain.0;
  readable = emitted-IsReadable;
  holds = refl;
  looks_called = refl;
  junk_other = λ e. ground (arith, e, bytes_eq_iff p junk);
  not_closed = refl;
  ends_q = ends.1;
  ends_p = ends.0;
}

parse_logs_forged_example :
    (events_of_all reader p
        (forgery p q open_p open_q fake_success emitted fake_call close_q close_p ∷ [])
      ≡ [])
    × (parse_logs reader
          (render_all reader
            (forgery p q open_p open_q fake_success emitted fake_call close_q close_p ∷ []))
          p
        ≡ success ((5 ∷ []) ∷ []))
parse_logs_forged_example =
    parse_logs_forged reader p q open_p open_q fake_success emitted fake_call close_q close_p junk
      (5 ∷ []) attack
