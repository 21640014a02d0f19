-- ===== src/Services/Logs/Trace.antt =====
-- The parser against the description of the logs: it finds exactly the events that are written.
use photon_solana_contracts.Prelude.{
  ◌≤◌, ◌≡◌, ◌≢◌, refl, sym, ap, ◌∙◌, inl, inr, Bool, true, false, Bytes, List, [], ◌∷◌, ◌++◌,
  append-nil, append_assoc, Option, none, some, length, take, drop, All, bytes_eq, bytes_eq_iff,
  arith, if◌then◌else◌, Bool-cases, Option-cases,
}
use photon_solana_contracts.Services.{success, ◌>>=◌}
use photon_solana_contracts.Services.Logs.{
  LogReader, invoke_pattern, success_pattern, payload_of, program, push, pop, pop_if, update,
  handle_irrelevant_log, read_event, handle_program_log, handle_log, Progress, read_line,
  read_lines, parse_logs,
}
use photon_solana_contracts.Services.Logs.Written.{
  Call, call, Items, nothing, line, sub, render, render_call, decoded, event_in, listed, events_of,
  events_of_call, IsPlain, IsReadable, Opens, Ends, IsLog, IsLogCall,
}

module _ (reader : LogReader) where
  open reader use {T, captures, base64_decode, discriminator, deserialize}

  pub irrelevant_plain :
      (p text : Bytes)
      → captures success_pattern text ≡ none
      → (handle_irrelevant_log reader p text).1 ≡ false
  unfolding handle_irrelevant_log
  irrelevant_plain p text h = ground arith

  pub irrelevant_end :
      (p text : Bytes) → Ends reader p text → (handle_irrelevant_log reader p text).1 ≡ true
  unfolding handle_irrelevant_log
  irrelevant_end p text h = ground arith

  read_event_readable :
      (bytes : Bytes)
      → 8 ≤ length bytes
      → (bytes_eq (take 8 bytes) discriminator ≡ true → deserialize (drop 8 bytes) ≢ none)
      → read_event reader bytes ≡ success (decoded reader bytes)
  unfolding read_event decoded
  read_event_readable bytes long fields = elim (Option-cases (deserialize (drop 8 bytes))) [
    | inl missing ↦ elim (Bool-cases (bytes_eq (take 8 bytes) discriminator)) [
      | inl own ↦ absurd (fields own missing)
      | inr other ↦ ground arith
    ]
    | inr (e, found) ↦ ground arith
  ]

  pub handle_own :
      (p text : Bytes)
      → IsPlain reader text
      → IsReadable reader text
      → handle_program_log reader p text ≡ success (event_in reader text, false)
  unfolding handle_program_log event_in
  handle_own p text plain readable = elim (Option-cases (payload_of text)) [
    | inl bare ↦ ground (arith, irrelevant_plain p text plain.1)
    | inr (payload, is_payload) ↦ elim (Option-cases (base64_decode payload)) [
      | inl other ↦ ground arith
      | inr (bytes, is_bytes) ↦
          let (long, fields) = readable payload bytes is_payload is_bytes in
          let done = read_event_readable bytes long fields in ground arith
    ]
  ]

  handle_plain :
      (p q text : Bytes)
      → IsPlain reader text
      → (q ≡ p → IsReadable reader text)
      → (r : Option T) × (handle_log reader p q text ≡ success (r, false))
        × (listed reader r ≡ (if bytes_eq p q then listed reader (event_in reader text) else []))
  unfolding handle_log
  handle_plain p q text plain readable = elim (Bool-cases (bytes_eq p q)) [
    | inl same ↦
        let own = handle_own p text plain (readable (sym ((bytes_eq_iff p q).0 same))) in
        (event_in reader text, ground arith, ground arith)
    | inr other ↦ let quiet = irrelevant_plain p text plain.1 in (none, ground arith, ground arith)
  ]

  pub handle_open :
      (p q text : Bytes) → Opens reader q text → handle_log reader p q text ≡ success (none, false)
  unfolding handle_log handle_program_log
  handle_open p q text (_, quiet, bare) =
      let irrelevant = irrelevant_plain p text quiet in ground arith

  pub handle_end :
      (p q text : Bytes) → Ends reader p text → handle_log reader p q text ≡ success (none, true)
  unfolding handle_log handle_program_log
  handle_end p q text ends =
      let irrelevant = irrelevant_end p text ends in let bare = ends.2 in ground arith

  abbrev pub state : List T → Bool → List Bytes → Progress reader
  state events do_pop stack = record {
    events = events;
    do_pop = do_pop;
    execution = record { stack = stack };
  }

  -- The stack once a pending `pop` is done.
  abbrev pub Settled : Bool → List Bytes → List Bytes → Type 0
  Settled do_pop stack below =
      pop_if reader do_pop (record { stack = stack }) ≡ success (record { stack = below })

  pub read_next :
      (p text : Bytes) (events : List T) (do_pop : Bool) (stack below after : List Bytes)
      (q : Bytes) (r : Option T) (pops : Bool)
      → Settled do_pop stack below
      → update reader text (record { stack = below }) ≡ success (q, record { stack = after })
      → handle_log reader p q text ≡ success (r, pops)
      → read_line reader p text (state events do_pop stack)
        ≡ success (state (events ++ listed reader r) pops after)
  unfolding read_line
  read_next p text events do_pop stack below after q none pops settled updated handled =
      rw (settled, updated, handled, append-nil events) refl
  read_next p text events do_pop stack below after q (some e) pops settled updated handled =
      rw (settled, updated, handled) refl

  pub update_same :
      (text q : Bytes) (rest : List Bytes)
      → captures invoke_pattern text ≡ none
      → update reader text (record { stack = q ∷ rest }) ≡ success (q, record { stack = q ∷ rest })
  unfolding update program
  update_same text q rest e = ground arith

  pub update_open :
      (text q : Bytes) (below : List Bytes)
      → captures invoke_pattern text ≡ some q
      → update reader text (record { stack = below }) ≡ success (q, record { stack = q ∷ below })
  unfolding update program push
  update_open text q below e = ground arith

  -- The loop has come from one state to another.
  abbrev Reads : Bytes → List Bytes → List T → Bool → List Bytes → List T → List Bytes → Type 0
  Reads p lines events do_pop stack found below =
      (more : List Bytes)
      → (d : Bool) × (st : List Bytes) × Settled d st below
        × (read_lines reader p (lines ++ more) (state events do_pop stack)
            ≡ read_lines reader p more (state (events ++ found) d st))

  pub read_cons :
      (p text : Bytes) (lines : List Bytes) (s t : Progress reader)
      → read_line reader p text s ≡ success t
      → read_lines reader p (text ∷ lines) s ≡ read_lines reader p lines t
  unfolding read_lines
  read_cons p text lines s t e = ap (λ m. m >>= λ next. read_lines reader p lines next) e

  at_events :
      (p : Bytes) (lines : List Bytes) (d : Bool) (st : List Bytes) {xs ys : List T}
      → xs ≡ ys
      → read_lines reader p lines (state xs d st) ≡ read_lines reader p lines (state ys d st)
  at_events p lines d st e = ap (λ es. read_lines reader p lines (state es d st)) e

  mutual
    unfolding events_of render IsLog pop

    read_items :
        (p q : Bytes) (items : Items) (events : List T) (do_pop : Bool) (stack below : List Bytes)
        → IsLog reader p q items
        → Settled do_pop stack (q ∷ below)
        → Reads p (render items) events do_pop stack (events_of reader p q items) (q ∷ below)
    read_items p q nothing events do_pop stack below h settled more =
        (do_pop, stack, settled, at_events p more do_pop stack (sym (append-nil events)))
    read_items p q (line text rest) events do_pop stack below h settled more =
        let (r, handled, same) = handle_plain p q text h.0 h.1 in
        let next =
          read_next p text events do_pop stack (q ∷ below) (q ∷ below) q r false settled
            (update_same text q below h.0.0) handled in
        let (d, st, left, e) =
          read_items p q rest (events ++ listed reader r) false (q ∷ below) below h.2 refl more in
        (
          d,
          st,
          left,
          read_cons p text (render rest ++ more) (state events do_pop stack)
                (state (events ++ listed reader r) false (q ∷ below)) next
              ∙ e
              ∙ at_events p more d st (
                  append_assoc events (listed reader r) (events_of reader p q rest)
                  ∙ ap (λ xs. events ++ (xs ++ events_of reader p q rest)) same),
        )
    read_items p q (sub c rest) events do_pop stack below h settled more =
        let (d1, st1, left1, e1) =
          read_call p c events do_pop stack (q ∷ below) h.0 settled (render rest ++ more) in
        let (d2, st2, left2, e2) =
          read_items p q rest (events ++ events_of_call reader p c) d1 st1 below h.1 left1 more in
        (
          d2,
          st2,
          left2,
          ap (λ ls. read_lines reader p ls (state events do_pop stack))
                (append_assoc (render_call c) (render rest) more)
              ∙ e1
              ∙ e2
              ∙ at_events p more d2 st2
                  (append_assoc events (events_of_call reader p c) (events_of reader p q rest)),
        )

    read_call :
        (p : Bytes) (c : Call) (events : List T) (do_pop : Bool) (stack below : List Bytes)
        → IsLogCall reader p c
        → Settled do_pop stack below
        → Reads p (render_call c) events do_pop stack (events_of_call reader p c) below
    read_call p (call q opening body closing) events do_pop stack below h settled more =
        let opened =
          read_next p opening events do_pop stack below (q ∷ below) q none false settled
            (update_open opening q below h.0.0) (handle_open p q opening h.0) in
        let (d, st, left, e) =
          read_items p q body (events ++ []) false (q ∷ below) below h.1 refl (closing ∷ more) in
        let closed =
          read_next p closing ((events ++ []) ++ events_of reader p q body) d st (q ∷ below)
            (q ∷ below) q none true left (update_same closing q below h.2.0)
            (handle_end p q closing h.2) in
        (
          true,
          q ∷ below,
          refl,
          read_cons p opening ((render body ++ closing ∷ []) ++ more) (state events do_pop stack)
                (state (events ++ []) false (q ∷ below)) opened
              ∙ ap (λ ls. read_lines reader p ls (state (events ++ []) false (q ∷ below)))
                  (append_assoc (render body) (closing ∷ []) more)
              ∙ e
              ∙ read_cons p closing more (state ((events ++ []) ++ events_of reader p q body) d st)
                  (state (((events ++ []) ++ events_of reader p q body) ++ []) true (q ∷ below))
                  closed
              ∙ at_events p more true (q ∷ below) (
                  append-nil ((events ++ []) ++ events_of reader p q body)
                  ∙ ap (λ xs. xs ++ events_of reader p q body) (append-nil events)),
        )

  -- A transaction: its instructions, one after the other.
  unfoldable pub render_all : List Call → List Bytes
  render_all [] = []
  render_all (c ∷ cs) = render_call c ++ render_all cs

  unfoldable pub events_of_all : Bytes → List Call → List T
  events_of_all p [] = []
  events_of_all p (c ∷ cs) = events_of_call reader p c ++ events_of_all p cs

  read_each :
      (p : Bytes) (cs : List Call) (events : List T) (do_pop : Bool) (stack : List Bytes)
      → All (IsLogCall reader p) cs
      → Settled do_pop stack []
      → (d : Bool) × (st : List Bytes) × (read_lines reader p
            (render_all cs)
            (state events do_pop stack)
          ≡ success (state (events ++ events_of_all p cs) d st))
  unfolding render_all events_of_all read_lines
  read_each p [] events do_pop stack h settled =
      (do_pop, stack, ap (λ es. success (state es do_pop stack)) (sym (append-nil events)))
  read_each p (c ∷ cs) events do_pop stack h settled =
      let (d1, st1, left, e1) = read_call p c events do_pop stack [] h.0 settled (render_all cs) in
      let (d2, st2, e2) = read_each p cs (events ++ events_of_call reader p c) d1 st1 h.1 left in
      (
        d2,
        st2,
        e1
            ∙ e2
            ∙ ap (λ es. success (state es d2 st2))
                (append_assoc events (events_of_call reader p c) (events_of_all p cs)),
      )

  -- On the log of a transaction in which no program writes text that looks like the mark of a call or
  -- of its success, and in which what the program `p` writes can be read, the parser gives exactly
  -- the events that calls of `p` wrote, in their order, at whatever depth.
  pub parse_logs-render_all :
      (p : Bytes) (cs : List Call)
      → All (IsLogCall reader p) cs
      → parse_logs reader (render_all cs) p ≡ success (events_of_all p cs)
  unfolding parse_logs
  parse_logs-render_all p cs h =
      let (d, st, e) = read_each p cs [] false [] h refl in
      ap (λ m. m >>= λ (end : Progress reader). success end.events) e
