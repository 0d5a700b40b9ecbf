-- ===== src/Trace/Percent.antt =====
-- `percent_decode` of src/postgres.rs, and that it reads back what a percent encoder writes.
use pg_otel.Prelude.{
  ℕ, ◌+◌, ◌-◌, ◌*◌, ◌/◌, ◌%◌, ◌<◌, ◌≡◌, refl, ap, ◌∙◌, Bool, Bool-cases, inl, inr, true, false,
  ◌&&◌, Option, none, some, List, [], ◌∷◌, ltb, leb, ◌==◌, if◌then◌else◌, All, arith,
}
use pg_otel.Prelude.Utf8.{is_utf8}
use pg_otel.Prelude.Lossy.{from_utf8_lossy, from_utf8_lossy-id, is_utf8-bytes}
use pg_otel.Span.{Str}

-- `to_digit(16)`.
unfoldable pub hex_value : ℕ → Option ℕ
hex_value b =
    if leb 48 b && leb b 57
    then some (b - 48)
    else if leb 65 b && leb b 70
    then some (b - 55)
    else if leb 97 b && leb b 102
    then some (b - 87)
    else none

abbrev pub with_low : ℕ → Option ℕ → Option ℕ
with_low high none = none
with_low high (some low) = some ((high * 16 + low) % 256)

abbrev pub both_digits : Option ℕ → Option ℕ → Option ℕ
both_digits none low = none
both_digits (some high) low = with_low high low

-- The byte that `%XX` stands for.
abbrev pub escaped : (a b c : ℕ) → Option ℕ
escaped a b c = if a == 37 then both_digits (hex_value b) (hex_value c) else none

-- The byte of an escape and what follows it, or the byte that stands for itself.
abbrev pub decoded_or : Option ℕ → (after : List ℕ) → ℕ → (next : List ℕ) → List ℕ
decoded_or none after a next = a ∷ next
decoded_or (some byte) after a next = byte ∷ after

unfoldable pub decode_bytes : List ℕ → List ℕ
decode_bytes [] = []
decode_bytes (a ∷ []) = a ∷ []
decode_bytes (a ∷ b ∷ []) = a ∷ b ∷ []
decode_bytes (a ∷ b ∷ c ∷ rest) =
    decoded_or (escaped a b c) (decode_bytes rest) a (decode_bytes (b ∷ c ∷ rest))

unfoldable pub percent_decode : Str → Str
percent_decode text = from_utf8_lossy (decode_bytes text)

-- The hexadecimal digit of a number below 16.
abbrev pub hex_digit : ℕ → ℕ
hex_digit n = if ltb n 10 then 48 + n else 55 + n

-- Percent encoding: a byte that `keep` accepts stands for itself.
unfoldable pub percent_encode : (keep : ℕ → Bool) → Str → Str
percent_encode keep [] = []
percent_encode keep (b ∷ bs) =
    if keep b
    then b ∷ percent_encode keep bs
    else 37 ∷ hex_digit (b / 16) ∷ hex_digit (b % 16) ∷ percent_encode keep bs

hex_value-hex_digit : (n : ℕ) → n < 16 → hex_value (hex_digit n) ≡ some n
unfolding hex_value
hex_value-hex_digit n h = ground arith

escaped_lem : (b : ℕ) → b < 256 → escaped 37 (hex_digit (b / 16)) (hex_digit (b % 16)) ≡ some b
escaped_lem b h =
    rw (hex_value-hex_digit (b / 16) (omega arith), hex_value-hex_digit (b % 16) (omega arith))
      (ap some (omega arith))

-- A byte that begins no escape stands for itself.
decode_bytes-kept :
    (b : ℕ) (bs : List ℕ) → (b == 37) ≡ false → decode_bytes (b ∷ bs) ≡ b ∷ decode_bytes bs
unfolding decode_bytes
decode_bytes-kept b [] h = refl
decode_bytes-kept b (c ∷ []) h = refl
decode_bytes-kept b (c ∷ d ∷ bs) h = rw h refl

decode_bytes-percent_encode :
    (keep : ℕ → Bool) (s : Str)
    → keep 37 ≡ false
    → All (λ b. b < 256) s
    → decode_bytes (percent_encode keep s) ≡ s
unfolding percent_encode decode_bytes
decode_bytes-percent_encode keep [] h v = unfold decode_bytes in refl
decode_bytes-percent_encode keep (b ∷ bs) h v = elim (Bool-cases (keep b)) [
  | inl e ↦
      let other : (b == 37) ≡ false = elim (Bool-cases (b == 37)) [
        | inl f ↦ let same : b ≡ 37 = ground arith in absurd (cc)
        | inr f ↦ f
      ] in
      rw e (
        decode_bytes-kept b (percent_encode keep bs) other
        ∙ ap (◌∷◌ b) (decode_bytes-percent_encode keep bs h v.1))
  | inr e ↦
      rw (e, decode_bytes, escaped_lem b v.0)
        (ap (◌∷◌ b) (decode_bytes-percent_encode keep bs h v.1))
]

-- `percent_decode` reads back every UTF-8 text that a percent encoder wrote, whatever bytes the
-- encoder leaves as they are, as long as it escapes the percent sign.
pub percent_decode-percent_encode :
    (keep : ℕ → Bool) (s : Str)
    → keep 37 ≡ false
    → is_utf8 s ≡ true
    → percent_decode (percent_encode keep s) ≡ s
unfolding percent_decode
percent_decode-percent_encode keep s h u =
    ap from_utf8_lossy (decode_bytes-percent_encode keep s h (is_utf8-bytes s u))
    ∙ from_utf8_lossy-id s u
