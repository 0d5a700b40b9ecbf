-- ===== src/Prelude/Utf8.antt =====
-- Rust's `str`: byte lists that are well-formed UTF-8 (`str::from_utf8`), and character boundaries.
use pg_otel.Prelude.{
  ℕ, zero, suc, Bool, true, false, ◌&&◌, ◌||◌, List, [], ◌∷◌, ltb, leb, ◌==◌, if◌then◌else◌, length,
  get_or, not,
}

-- What a lead byte announces: how many continuation bytes, and the range of the first of them.
pub data Lead : Type 0 where
  invalid : Lead
  lead : (count lo hi : ℕ) → Lead

unfoldable pub lead_byte : ℕ → Lead
lead_byte b =
    if ltb b 0x80
    then lead 0 0x80 0xbf
    else if ltb b 0xc2
    then invalid
    else if ltb b 0xe0
    then lead 1 0x80 0xbf
    else if b == 0xe0
    then lead 2 0xa0 0xbf
    else if b == 0xed
    then lead 2 0x80 0x9f
    else if ltb b 0xf0
    then lead 2 0x80 0xbf
    else if b == 0xf0
    then lead 3 0x90 0xbf
    else if ltb b 0xf4
    then lead 3 0x80 0xbf
    else if b == 0xf4
    then lead 3 0x80 0x8f
    else invalid

-- The rest of a text in the middle of a character that wants `count` more bytes, the next one from
-- `lo` to `hi`; between two characters `count` is 0.
unfoldable pub utf8_rest : (count lo hi : ℕ) → List ℕ → Bool
utf8_rest zero lo hi [] = true
utf8_rest (suc count) lo hi [] = false
utf8_rest zero lo hi (b ∷ bs) = elim (lead_byte b) [
  | invalid ↦ false
  | lead n l h ↦ utf8_rest n l h bs
]
utf8_rest (suc count) lo hi (b ∷ bs) = (leb lo b && leb b hi) && utf8_rest count 0x80 0xbf bs

-- `String::from_utf8` accepts these bytes.
unfoldable pub is_utf8 : List ℕ → Bool
is_utf8 bs = utf8_rest 0 0x80 0xbf bs

-- A continuation byte, `0b10xxxxxx`.
abbrev pub is_continuation : ℕ → Bool
is_continuation b = leb 0x80 b && ltb b 0xc0

-- `str::is_char_boundary`: the start, the end, or an index whose byte begins a character.
unfoldable pub is_char_boundary : List ℕ → ℕ → Bool
is_char_boundary s i =
    i == 0 || (i == length s || (ltb i (length s) && not (is_continuation (get_or s i 0))))
