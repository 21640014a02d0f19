-- ===== src/Services/Logs/Written.antt =====
-- The log of a transaction, described on its own: the calls that it makes, with the lines that each
-- of them writes. The events of a program are those in the lines that its own calls write.
use photon_solana_contracts.Prelude.{
  ◌≤◌, ◌≡◌, ◌≢◌, true, Bytes, List, [], ◌∷◌, ◌++◌, Option, none, some, length, take, drop, bytes_eq,
  if◌then◌else◌,
}
use photon_solana_contracts.Services.Logs.{
  LogReader, invoke_pattern, invoke_only_pattern, success_pattern, strip_prefix, payload_of,
  program_word, log_word,
}

-- A call of a program: its opening line, what it does, and its closing line.
mutual
  pub data Call : Type 0 where
    call : Bytes → Bytes → Items → Bytes → Call

  pub data Items : Type 0 where
    nothing : Items
    line : Bytes → Items → Items
    sub : Call → Items → Items

-- The log that is written.
unfoldable mutual
  pub render : Items → List Bytes
  render nothing = []
  render (line text more) = text ∷ render more
  render (sub c more) = render_call c ++ render more

  pub render_call : Call → List Bytes
  render_call (call p opening body closing) = opening ∷ (render body ++ closing ∷ [])

module _ (reader : LogReader) where
  open reader use {T, captures, base64_decode, discriminator, deserialize}

  -- The event that a line holds, whoever wrote it.
  unfoldable pub decoded : Bytes → Option T
  decoded bytes = if bytes_eq (take 8 bytes) discriminator then deserialize (drop 8 bytes) else none

  unfoldable pub event_in : Bytes → Option T
  event_in text = elim (payload_of text) [
    | none ↦ none
    | some payload ↦ elim (base64_decode payload) [ none ↦ none | some bytes ↦ decoded bytes ]
  ]

  abbrev pub listed : Option T → List T
  listed none = []
  listed (some e) = e ∷ []

  -- The events of the program `p`, in the part of a log that the program `q` runs.
  unfoldable mutual
    pub events_of : Bytes → Bytes → Items → List T
    events_of p q nothing = []
    events_of p q (line text more) =
        (if bytes_eq p q then listed (event_in text) else []) ++ events_of p q more
    events_of p q (sub c more) = events_of_call p c ++ events_of p q more

    pub events_of_call : Bytes → Call → List T
    events_of_call p (call q opening body closing) = events_of p q body

  -- A line that marks the success of a program.
  abbrev pub Closes : Bytes → Type 0
  Closes text = (captures success_pattern text ≢ none) × (captures invoke_only_pattern text ≡ none)

  -- A line that opens no call and closes none.
  abbrev pub IsPlain : Bytes → Type 0
  IsPlain text = (captures invoke_pattern text ≡ none) × (captures success_pattern text ≡ none)

  -- What the endpoint writes in its data lines can be read: a discriminator, and fields if it is the
  -- event's.
  abbrev pub IsReadable : Bytes → Type 0
  IsReadable text =
      (payload bytes : Bytes)
      → payload_of text ≡ some payload
      → base64_decode payload ≡ some bytes
      → (8 ≤ length bytes)
        × (bytes_eq (take 8 bytes) discriminator ≡ true → deserialize (drop 8 bytes) ≢ none)

  -- A line that marks a call of `q` and ends none.
  abbrev pub Opens : Bytes → Bytes → Type 0
  Opens q text =
      (captures invoke_pattern text ≡ some q)
      × (captures success_pattern text ≡ none)
      × (payload_of text ≡ none)

  -- A closing line of the runtime, which carries no payload and no text of the program `p`.
  abbrev pub Ends : Bytes → Bytes → Type 0
  Ends p text =
      (captures invoke_pattern text ≡ none)
      × Closes text
      × (payload_of text ≡ none)
      × (strip_prefix (program_word ++ (p ++ log_word)) text ≡ none)

  -- The lines of a log for a listener to `p`.
  unfoldable mutual
    pub IsLog : Bytes → Bytes → Items → Type 0
    IsLog p q nothing = Unit {0}
    IsLog p q (line text more) = IsPlain text × (q ≡ p → IsReadable text) × IsLog p q more
    IsLog p q (sub c more) = IsLogCall p c × IsLog p q more

    pub IsLogCall : Bytes → Call → Type 0
    IsLogCall p (call q opening body closing) = Opens q opening × IsLog p q body × Ends p closing
