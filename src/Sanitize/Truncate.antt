-- ===== src/Sanitize/Truncate.antt =====
-- `truncate_utf8` of src/sanitize.rs: a text cut at a character.
use pg_otel.Prelude.{
  ℕ, zero, suc, ◌≤◌, ◌≡◌, refl, sym, true, leb, if◌then◌else◌, length, take, arith, Bool-cases, inl,
  inr, le→leb, lt→leb, length-take, take-length,
}
use pg_otel.Prelude.Utf8.{is_utf8, is_char_boundary}
use pg_otel.Prelude.Boundaries.{is_utf8-take}
use pg_otel.Span.{Str}
use native.Mathlib.Decide.{dec_lt}

-- The loop that lowers `end` to a character boundary; index 0 is one.
unfoldable pub boundary_before : Str → ℕ → ℕ
boundary_before s zero = zero
boundary_before s (suc end) =
    if is_char_boundary s (suc end) then suc end else boundary_before s end

unfoldable pub truncate_utf8 : Str → ℕ → Str
truncate_utf8 s max_bytes =
    if leb (length s) max_bytes then s else take (boundary_before s max_bytes) s

boundary_before_lem :
    (s : Str) (n : ℕ)
    → (boundary_before s n ≤ n) × (is_char_boundary s (boundary_before s n) ≡ true)
unfolding boundary_before
boundary_before_lem s zero = (omega arith, unfold is_char_boundary in refl)
boundary_before_lem s (suc n) =
    let (le, b) = boundary_before_lem s n in
    elim (Bool-cases (is_char_boundary s (suc n))) [
      | inl e ↦ rw e (omega arith, e)
      | inr e ↦ rw e (omega arith, b)
    ]

-- No boundary is skipped.
boundary_before_max :
    (s : Str) (n k : ℕ) → k ≤ n → is_char_boundary s k ≡ true → k ≤ boundary_before s n
unfolding boundary_before
boundary_before_max s zero k h b = h
boundary_before_max s (suc n) k h b = elim (Bool-cases (is_char_boundary s (suc n))) [
  | inl e ↦ rw e h
  | inr e ↦ elim (dec_lt n k) [
    | yes last ↦ let same : suc n ≡ k = omega arith in cc
    | no before ↦ rw e (boundary_before_max s n k (omega arith) b)
  ]
]

-- A text that was cut: the longest prefix within `max_bytes` that ends at a character boundary.
pub record Truncated (s : Str) (max_bytes : ℕ) (out : Str) : Type 0 where
  pub end : ℕ
  pub prefix : out ≡ take end s
  pub bounded : length out ≤ max_bytes
  pub boundary : is_char_boundary s end ≡ true
  pub longest : (k : ℕ) → k ≤ max_bytes → k ≤ length s → is_char_boundary s k ≡ true → k ≤ end
  pub utf8 : is_utf8 out ≡ true

-- The result of truncating a UTF-8 text is a UTF-8 text of at most `max_bytes` bytes: the prefix
-- up to the last character boundary within the limit.
pub truncate_utf8_lem :
    (s : Str) (max_bytes : ℕ) → is_utf8 s ≡ true → Truncated s max_bytes (truncate_utf8 s max_bytes)
unfolding truncate_utf8
truncate_utf8_lem s max_bytes u = elim (dec_lt max_bytes (length s)) [
  | no fits ↦ rw (le→leb (length s) max_bytes (omega arith)) (record {
    end = length s;
    prefix = sym (take-length s);
    bounded = omega arith;
    boundary = unfold is_char_boundary in ground arith;
    longest = λ k h l b. l;
    utf8 = u;
  })
  | yes long ↦
      let (le, b) = boundary_before_lem s max_bytes in
      rw (lt→leb (length s) max_bytes long) (record {
        end = boundary_before s max_bytes;
        prefix = refl;
        bounded = omega (arith, length-take (boundary_before s max_bytes) s);
        boundary = b;
        longest = λ k h l. boundary_before_max s max_bytes k h;
        utf8 = is_utf8-take s (boundary_before s max_bytes) u b;
      })
]

-- Whatever the bytes are.
pub length-truncate_utf8 :
    (s : Str) (max_bytes : ℕ) → length (truncate_utf8 s max_bytes) ≤ max_bytes
unfolding truncate_utf8
length-truncate_utf8 s max_bytes = elim (dec_lt max_bytes (length s)) [
  | no fits ↦ rw (le→leb (length s) max_bytes (omega arith)) (omega arith)
  | yes long ↦ rw (lt→leb (length s) max_bytes long) (
      omega
        (arith, length-take (boundary_before s max_bytes) s, (boundary_before_lem s max_bytes).0))
]
