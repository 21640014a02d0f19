-- ===== src/ProtocolData/Selector.antt =====
-- The round trip of `FunctionSelector` between `to_bytes` and `TryFrom<&[u8]>` (protocol_data.rs).
use photon_solana_contracts.Prelude.{
  ◌≤◌, ◌≡◌, ◌↔◌, sym, ◌∙◌, Bool, true, Bytes, [], length, arith, if◌then◌else◌,
}
use photon_solana_contracts.Errors.{ok}
use photon_solana_contracts.ProtocolData.{
  FunctionSelector, by_code, by_name, dummy, to_bytes, Conversion, converted, rejected, aborted,
  selector_try_from,
}

-- What reading the bytes of a selector gives.
unfoldable pub reads_back : (Bytes → Bool) → FunctionSelector → Conversion FunctionSelector
reads_back is_utf8 (by_code code) = converted (by_code code)
reads_back is_utf8 (by_name name) = if is_utf8 name then converted (by_name name) else rejected []
reads_back is_utf8 dummy = aborted

-- The bytes of a selector are 34 at most. Read again, those of a code give the same code, those of a
-- name the same name if it is UTF-8 text, and those of the dummy selector abort the reader.
pub selector_try_from-to_bytes :
    (is_utf8 : Bytes → Bool) (f : FunctionSelector) {bytes : Bytes}
    → to_bytes f ≡ ok bytes
    → (selector_try_from is_utf8 bytes ≡ reads_back is_utf8 f) × (length bytes ≤ 34)
unfolding to_bytes selector_try_from reads_back
selector_try_from-to_bytes is_utf8 (by_code code) e = ground arith
selector_try_from-to_bytes is_utf8 (by_name name) e = ground arith
selector_try_from-to_bytes is_utf8 dummy e = ground arith

-- A selector that the reader can take: a code, or a name in UTF-8.
abbrev pub IsReadable : (Bytes → Bool) → FunctionSelector → Type 0
IsReadable is_utf8 (by_code code) = Unit
IsReadable is_utf8 (by_name name) = is_utf8 name ≡ true
IsReadable is_utf8 dummy = ⊥

reads_back-IsReadable :
    (is_utf8 : Bytes → Bool) (f g : FunctionSelector)
    → (reads_back is_utf8 f ≡ converted g) ↔ ((g ≡ f) × IsReadable is_utf8 f)
unfolding reads_back
reads_back-IsReadable is_utf8 (by_code code) g = (λ e. (cc e, tt), λ h. cc h.0)
reads_back-IsReadable is_utf8 (by_name name) g = ground arith
reads_back-IsReadable is_utf8 dummy g = (λ e. absurd (cc e), λ h. absurd h.1)

-- Let `to_bytes` write a selector. The bytes are 34 at most, and reading them gives a selector
-- exactly when it is the one that was written and that is a code or a name in UTF-8: no bytes are
-- read as another selector, and the dummy selector and a name that is not UTF-8 are not read.
pub selector_try_from-IsReadable :
    (is_utf8 : Bytes → Bool) (f g : FunctionSelector) {bytes : Bytes}
    → to_bytes f ≡ ok bytes
    → ((selector_try_from is_utf8 bytes ≡ converted g) ↔ ((g ≡ f) × IsReadable is_utf8 f))
      × (length bytes ≤ 34)
selector_try_from-IsReadable is_utf8 f g e =
    let (read, short) = selector_try_from-to_bytes is_utf8 f e in
    let (there, back) = reads_back-IsReadable is_utf8 f g in
    ((λ h. there (sym read ∙ h), λ h. read ∙ back h), short)
