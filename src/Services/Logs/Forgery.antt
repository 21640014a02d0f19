-- ===== src/Services/Logs/Forgery.antt =====
-- A program that the endpoint calls can write a log in which its own data pass for the endpoint's.
use photon_solana_contracts.Prelude.{
  ◌≡◌, ◌≢◌, refl, ap, ◌∙◌, true, false, Bytes, [], ◌∷◌, ◌++◌, none, some, bytes_eq_iff,
  bytes_eq_refl, arith,
}
use photon_solana_contracts.Services.{success, ◌>>=◌}
use photon_solana_contracts.Services.Logs.{
  LogReader, invoke_pattern, success_pattern, program_word, log_word, parse_logs, handle_log,
  handle_irrelevant_log, Progress, read_lines, pop, start, strip_prefix,
}
use photon_solana_contracts.Services.Logs.Written.{
  Call, call, nothing, line, sub, event_in, IsPlain, IsReadable, Opens, Ends, Closes, render,
  events_of,
}
use photon_solana_contracts.Services.Logs.Trace.{
  render_all, events_of_all, state, read_next, read_cons, update_same, update_open, handle_open,
  handle_end, handle_own, irrelevant_plain,
}

-- What the program `q`, which the endpoint `p` has called, writes: a text that ends like the mark of
-- a success, its forged, and a text that looks like the mark of a call.
abbrev pub forgery : Bytes → Bytes → Bytes → Bytes → Bytes → Bytes → Bytes → Bytes → Bytes → Call
forgery p q open_p open_q fake_success forged fake_call close_q close_p =
    call p open_p
      (sub (call q open_q (line fake_success (line forged (line fake_call nothing))) close_q)
        nothing)
      close_p

module _ (reader : LogReader) where
  open reader use {T, captures}

  -- The texts that such a program needs.
  pub record IsForgery
      (p q open_p open_q fake_success forged fake_call close_q close_p junk : Bytes) (e : T)
      : Type 0 where
    pub other : p ≢ q
    pub opens_p : Opens reader p open_p
    pub opens_q : Opens reader q open_q
    pub not_a_call : captures invoke_pattern fake_success ≡ none
    pub looks_closed : Closes reader fake_success
    pub not_own : strip_prefix (program_word ++ (p ++ log_word)) fake_success ≡ none
    pub plain : IsPlain reader forged
    pub readable : IsReadable reader forged
    pub holds : event_in reader forged ≡ some e
    pub looks_called : captures invoke_pattern fake_call ≡ some junk
    pub junk_other : p ≢ junk
    pub not_closed : captures success_pattern fake_call ≡ none
    pub ends_q : Ends reader p close_q
    pub ends_p : Ends reader p close_p

  handle_other :
      (p q text : Bytes)
      → p ≢ q
      → handle_log reader p q text ≡ success (none, (handle_irrelevant_log reader p text).1)
  unfolding handle_log
  handle_other p q text h = ground (arith, bytes_eq_iff p q)

  handle_self :
      (p text : Bytes) (e : T)
      → IsPlain reader text
      → IsReadable reader text
      → event_in reader text ≡ some e
      → handle_log reader p p text ≡ success (some e, false)
  unfolding handle_log
  handle_self p text e plain readable holds =
      let own = handle_own reader p text plain readable in ground (arith, bytes_eq_refl p)

  looks_closed_irrelevant :
      (p text : Bytes)
      → Closes reader text
      → strip_prefix (program_word ++ (p ++ log_word)) text ≡ none
      → (handle_irrelevant_log reader p text).1 ≡ true
  unfolding handle_irrelevant_log
  looks_closed_irrelevant p text closes h = ground arith

  module _ (p q open_p open_q fake_success forged fake_call close_q close_p junk : Bytes) (e : T)
      (f : IsForgery p q open_p open_q fake_success forged fake_call close_q close_p junk e) where
    abbrev attack : Call
    attack = forgery p q open_p open_q fake_success forged fake_call close_q close_p

    no_events : events_of_all reader p (attack ∷ []) ≡ []
    unfolding events_of_all events_of
    no_events = ground (arith, bytes_eq_iff p q)

    lines_read :
        read_lines reader p (render_all reader (attack ∷ [])) (start reader)
        ≡ success (state reader (e ∷ []) true (p ∷ []))
    unfolding render_all render read_lines pop
    lines_read =
        read_cons reader p open_p
          (open_q ∷ fake_success ∷ forged ∷ fake_call ∷ close_q ∷ close_p ∷ []) _ _
          (read_next reader p open_p [] false [] [] (p ∷ []) p none false refl
            (update_open reader open_p p [] f.opens_p.0) (handle_open reader p p open_p f.opens_p))
        ∙ read_cons reader p open_q (fake_success ∷ forged ∷ fake_call ∷ close_q ∷ close_p ∷ []) _ _
            (read_next reader p open_q [] false (p ∷ []) (p ∷ []) (q ∷ p ∷ []) q none false refl
              (update_open reader open_q q (p ∷ []) f.opens_q.0)
              (handle_open reader p q open_q f.opens_q))
        ∙ read_cons reader p fake_success (forged ∷ fake_call ∷ close_q ∷ close_p ∷ []) _ _ (
            read_next reader p fake_success [] false (q ∷ p ∷ []) (q ∷ p ∷ []) (q ∷ p ∷ []) q none
              true refl (update_same reader fake_success q (p ∷ []) f.not_a_call)
              (handle_other p q fake_success f.other
                ∙ ap (λ b. success (none, b))
                    (looks_closed_irrelevant p fake_success f.looks_closed f.not_own)))
        ∙ read_cons reader p forged (fake_call ∷ close_q ∷ close_p ∷ []) _ _ (
            read_next reader p forged [] true (q ∷ p ∷ []) (p ∷ []) (p ∷ []) p (some e) false refl
              (update_same reader forged p [] f.plain.0)
              (handle_self p forged e f.plain f.readable f.holds))
        ∙ read_cons reader p fake_call (close_q ∷ close_p ∷ []) _ _ (
            read_next reader p fake_call (e ∷ []) false (p ∷ []) (p ∷ []) (junk ∷ p ∷ []) junk none
              false refl (update_open reader fake_call junk (p ∷ []) f.looks_called)
              (handle_other p junk fake_call f.junk_other
                ∙ ap (λ b. success (none, b)) (irrelevant_plain reader p fake_call f.not_closed)))
        ∙ read_cons reader p close_q (close_p ∷ []) _ _ (
            read_next reader p close_q (e ∷ []) false (junk ∷ p ∷ []) (junk ∷ p ∷ [])
              (junk ∷ p ∷ []) junk none true refl
              (update_same reader close_q junk (p ∷ []) f.ends_q.0)
              (handle_end reader p junk close_q f.ends_q))
        ∙ read_cons reader p close_p [] _ _ (
            read_next reader p close_p (e ∷ []) true (junk ∷ p ∷ []) (p ∷ []) (p ∷ []) p none true
              refl (update_same reader close_p p [] f.ends_p.0)
              (handle_end reader p p close_p f.ends_p))

    -- No call of the endpoint `p` has written an event, and yet the parser gives one: that which the
    -- program `q` that it called has chosen. `q` needs to log a text that looks like the mark of a
    -- success, the data of the event, and a text that looks like the mark of a call.
    pub parse_logs_forged :
        (events_of_all reader p
            (forgery p q open_p open_q fake_success forged fake_call close_q close_p ∷ [])
          ≡ [])
        × (parse_logs reader
              (render_all reader
                (forgery p q open_p open_q fake_success forged fake_call close_q close_p ∷ []))
              p
            ≡ success (e ∷ []))
    unfolding parse_logs
    parse_logs_forged =
        (no_events, ap (λ m. m >>= λ (end : Progress reader). success end.events) lines_read)
