-- ===== src/Prelude/White.antt =====
-- `char::is_whitespace` of Rust, and the trimming of a `str` by it. A text is UTF-8, in which no
-- character's bytes begin within those of another, so a scan may go byte by byte.
use pg_otel.Prelude.{
  ℕ, zero, suc, Bool, true, false, ◌&&◌, ◌||◌, List, [], ◌∷◌, leb, ◌==◌, if◌then◌else◌,
}

-- The last two bytes of the white space characters of three bytes: U+1680, U+2000 to U+200A, U+2028,
-- U+2029, U+202F, U+205F and U+3000.
abbrev is_wide_white : (a b c : ℕ) → Bool
is_wide_white a b c =
    (a == 0xe1 && (b == 0x9a && c == 0x80))
    || ((a == 0xe2
          && ((b == 0x80 && ((leb 0x80 c && leb c 0x8a) || (c == 0xa8 || (c == 0xa9 || c == 0xaf))))
              || (b == 0x81 && c == 0x9f)))
        || (a == 0xe3 && (b == 0x80 && c == 0x80)))

abbrev is_ascii_white : ℕ → Bool
is_ascii_white b = (leb 9 b && leb b 13) || b == 32

-- The length of the white space character that a text starts with, and 0 if it starts with none.
-- U+0085 and U+00A0 have two bytes.
unfoldable pub white_len : List ℕ → ℕ
white_len [] = 0
white_len (a ∷ []) = if is_ascii_white a then 1 else 0
white_len (a ∷ b ∷ []) =
    if is_ascii_white a then 1 else if a == 0xc2 && (b == 0x85 || b == 0xa0) then 2 else 0
white_len (a ∷ b ∷ c ∷ rest) =
    if is_ascii_white a
    then 1
    else if a == 0xc2 && (b == 0x85 || b == 0xa0)
    then 2
    else if is_wide_white a b c
    then 3
    else 0

-- How many bytes to drop at the start: a white space character, or another that is dropped too.
abbrev pub dropped_len : (also : ℕ → Bool) → ℕ → List ℕ → ℕ
dropped_len also b bs = if also b then 1 else white_len (b ∷ bs)

-- `trim_start_matches` with a test for white space or for a byte that `also` accepts; `skip` bytes
-- of the character before are left.
unfoldable pub trim_from : (also : ℕ → Bool) (skip : ℕ) → List ℕ → List ℕ
trim_from also skip [] = []
trim_from also (suc skip) (b ∷ bs) = trim_from also skip bs
trim_from also zero (b ∷ bs) = elim (dropped_len also b bs) [
  | zero ↦ b ∷ bs
  | suc more ↦ trim_from also more bs
]

abbrev pub nothing_else : ℕ → Bool
nothing_else b = false

abbrev pub trim_start : List ℕ → List ℕ
trim_start s = trim_from nothing_else 0 s

abbrev keep_front : Bool → ℕ → List ℕ → List ℕ
keep_front true b bs = []
keep_front false b bs = b ∷ bs

abbrev is_empty : List ℕ → Bool
is_empty [] = true
is_empty (b ∷ bs) = false

-- The text up to the white space at its end.
unfoldable pub trim_end : List ℕ → List ℕ
trim_end [] = []
trim_end (b ∷ bs) = keep_front (is_empty (trim_start (b ∷ bs))) b (trim_end bs)

abbrev pub trim : List ℕ → List ℕ
trim s = trim_end (trim_start s)
