-- ===== src/Trace/Values/Plain.antt =====
-- The bytes that URL encoding writes, and what the scan of `traceparent_values` of src/postgres.rs does
-- with them.
use pg_otel.Prelude.{
  ℕ, ◌<◌, ◌≡◌, refl, ap, ◌∙◌, Bool, Bool-cases, inl, inr, true, false, ◌&&◌, ◌||◌, some, [], ◌∷◌,
  ◌++◌, leb, ◌==◌, All, arith,
}
use pg_otel.Prelude.White.{white_len, trim_from, nothing_else}
use pg_otel.Span.{Str}
use pg_otel.Trace.Percent.{percent_encode, hex_digit}
use pg_otel.Trace.Values.{
  before, before_some, quoted, strip_equals, split_until, split_quote, split_value, ends_key,
  value_of, keyed, from_key, values_round,
}

-- The bytes that URL encoding leaves as they are.
unfoldable pub is_unreserved : ℕ → Bool
is_unreserved b =
    (leb 48 b && leb b 57)
    || ((leb 65 b && leb b 90)
        || ((leb 97 b && leb b 122) || (b == 45 || (b == 46 || (b == 95 || b == 126)))))

abbrev pub url_encode : Str → Str
url_encode s = percent_encode is_unreserved s

-- The bytes that URL encoding writes.
unfoldable pub is_plain : ℕ → Bool
is_plain b = is_unreserved b || b == 37

is_plain-hex_digit : (n : ℕ) → n < 16 → is_plain (hex_digit n) ≡ true
unfolding is_plain is_unreserved
is_plain-hex_digit n h = ground arith

pub url_encode-plain :
    (s : Str) → All (λ b. b < 256) s → All (λ b. is_plain b ≡ true) (url_encode s)
unfolding percent_encode
url_encode-plain [] h = tt
url_encode-plain (b ∷ bs) h = elim (Bool-cases (is_unreserved b)) [
  | inl e ↦ rw e (unfold is_plain in rw e refl, url_encode-plain bs h.1)
  | inr e ↦ rw e (
    unfold is_plain is_unreserved in refl,
    (
      is_plain-hex_digit _ (omega (arith, h.0)),
      (is_plain-hex_digit _ (omega (arith, h.0)), url_encode-plain bs h.1),
    ),
  )
]

-- A plain byte is below 128, neither white space nor one that the scan stops at.
pub record Plain (b : ℕ) : Type 0 where
  pub comma : (b == 44) ≡ false
  pub quote : (b == 39) ≡ false
  pub key : ends_key b ≡ false
  pub percent : leb 128 b ≡ false
  pub blank : ((leb 9 b && leb b 13) || b == 32) ≡ false

pub Plain-of : (b : ℕ) → is_plain b ≡ true → Plain b
unfolding is_plain is_unreserved
Plain-of b h = ground arith

pub white_len-none :
    (b : ℕ) (bs : Str)
    → leb 128 b ≡ false
    → ((leb 9 b && leb b 13) || b == 32) ≡ false
    → white_len (b ∷ bs) ≡ 0
unfolding white_len
white_len-none b [] h k = rw k refl
white_len-none b (c ∷ []) h k = ground arith
white_len-none b (c ∷ d ∷ bs) h k = ground arith

pub trim_from-stays :
    (also : ℕ → Bool) (b : ℕ) (bs : Str)
    → also b ≡ false
    → white_len (b ∷ bs) ≡ 0
    → trim_from also 0 (b ∷ bs) ≡ b ∷ bs
unfolding trim_from
trim_from-stays also b bs h k = rw (h, k, trim_from) refl

split_until-plain :
    (p r : Str)
    → All (λ b. is_plain b ≡ true) p
    → split_until ends_key (p ++ (61 ∷ r)) ≡ (p, 61 ∷ r)
unfolding split_until
split_until-plain [] r h = refl
split_until-plain (b ∷ p) r h =
    let plain = Plain-of b h.0 in
    rw (plain.key, white_len-none b (p ++ (61 ∷ r)) plain.percent plain.blank)
      (ap (before b) (split_until-plain p r h.1))

split_quote-plain :
    (p r : Str) → All (λ b. is_plain b ≡ true) p → split_quote 39 (p ++ (39 ∷ r)) ≡ some (p, r)
unfolding split_quote
split_quote-plain [] r h = refl
split_quote-plain (b ∷ p) r h =
    rw (Plain-of b h.0).quote (ap (before_some b) (split_quote-plain p r h.1))

split_value-plain :
    (p r : Str) → All (λ b. is_plain b ≡ true) p → split_value (39 ∷ (p ++ (39 ∷ r))) ≡ (p, r)
unfolding split_value
split_value-plain p r h = ap quoted (split_quote-plain p r h)

-- A round on a pair of plain texts.
pub values_round-plain :
    (k : ℕ) (p q r : Str)
    → All (λ b. is_plain b ≡ true) (k ∷ p)
    → All (λ b. is_plain b ≡ true) q
    → values_round ((k ∷ p) ++ (61 ∷ 39 ∷ (q ++ (39 ∷ r)))) ≡ value_of (k ∷ p) (q, r)
unfolding values_round
values_round-plain k p q r h h' =
    let tail = 39 ∷ (q ++ (39 ∷ r)) in
    ap (from_key ((k ∷ p) ++ (61 ∷ tail))) (split_until-plain (k ∷ p) tail h)
    ∙ ap (λ t. keyed (k ∷ p) (61 ∷ tail) (strip_equals t))
        (trim_from-stays nothing_else 61 tail refl (white_len-none 61 tail refl refl))
    ∙ ap (λ t. value_of (k ∷ p) (split_value t))
        (trim_from-stays nothing_else 39 (q ++ (39 ∷ r)) refl
          (white_len-none 39 (q ++ (39 ∷ r)) refl refl))
    ∙ ap (value_of (k ∷ p)) (split_value-plain q r h')
