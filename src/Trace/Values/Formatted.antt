-- ===== src/Trace/Values/Formatted.antt =====
-- What `traceparent_values` of src/postgres.rs reads back from a comment in the sqlcommenter format:
-- percent encoded pairs `key='value'` with commas between them.
use pg_otel.Prelude.{
  ℕ, zero, suc, ◌<◌, ◌≡◌, ◌≢◌, refl, sym, ap, ◌∙◌, subst, length-append, Bool-cases, inl, inr, true,
  ◌&&◌, not, Option, none, some, List, [], ◌∷◌, ◌++◌, if◌then◌else◌, length, All, returns, arith,
}
use pg_otel.Prelude.Utf8.{is_utf8}
use pg_otel.Prelude.White.{trim_from}
use pg_otel.Span.{Str}
use pg_otel.Trace.Percent.{percent_encode, percent_decode, percent_decode-percent_encode}
use pg_otel.Prelude.Lossy.{is_utf8-bytes}
use pg_otel.Trace.Values.{
  is_traceparent_key, is_comma, is_empty, value_of, push_value, after_trim, values_loop,
  traceparent_values,
}
use pg_otel.Trace.Values.Plain.{
  is_unreserved, url_encode, is_plain, url_encode-plain, Plain-of, white_len-none, trim_from-stays,
  values_round-plain,
}

-- A pair, and what stands behind it.
abbrev pub format_pair : (key value rest : Str) → Str
format_pair key value rest = url_encode key ++ (61 ∷ 39 ∷ (url_encode value ++ (39 ∷ rest)))

abbrev pub format_pairs : List (Str × Str) → Str
format_pairs [] = []
format_pairs ((key, value) ∷ []) = format_pair key value []
format_pairs ((key, value) ∷ p ∷ pairs) = format_pair key value (44 ∷ format_pairs (p ∷ pairs))

-- The values of a parent trace among the pairs.
abbrev pub wanted : (key value : Str) → Option Str
wanted key value = if is_traceparent_key key && not (is_empty value) then some value else none

abbrev pub push : Option Str → List Str → List Str
push none values = values
push (some value) values = value ∷ values

abbrev pub wanted_values : List (Str × Str) → List Str
wanted_values [] = []
wanted_values ((key, value) ∷ pairs) = push (wanted key value) (wanted_values pairs)

-- A key that is no empty text, and two texts.
abbrev pub IsPair : Str × Str → Type 0
IsPair (key, value) = (key ≢ []) × (is_utf8 key ≡ true) × (is_utf8 value ≡ true)

is_empty-url_encode : (s : Str) → is_empty (url_encode s) ≡ is_empty s
unfolding percent_encode
is_empty-url_encode [] = refl
is_empty-url_encode (b ∷ bs) = elim (Bool-cases (is_unreserved b)) [
  | inl e ↦ rw e refl
  | inr e ↦ rw e refl
]

percent_decode-url_encode : (s : Str) → is_utf8 s ≡ true → percent_decode (url_encode s) ≡ s
percent_decode-url_encode s u =
    percent_decode-percent_encode is_unreserved s (unfold is_unreserved in refl) u

value_of-url_encode :
    (key value r : Str)
    → is_utf8 key ≡ true
    → is_utf8 value ≡ true
    → value_of (url_encode key) (url_encode value, r) ≡ (wanted key value, r)
value_of-url_encode key value r u v =
    rw
      (
        percent_decode-url_encode key u,
        percent_decode-url_encode value v,
        is_empty-url_encode value,
      )
      refl

trim_from-comma : (s : Str) → trim_from is_comma 0 (44 ∷ s) ≡ trim_from is_comma 0 s
unfolding trim_from
trim_from-comma s = refl

-- What the loop does with a pair of texts, which may stand behind a comma.
values_loop-plain :
    (fuel k : ℕ) (p q r : Str)
    → All (λ b. is_plain b ≡ true) (k ∷ p)
    → All (λ b. is_plain b ≡ true) q
    → let s = (k ∷ p) ++ (61 ∷ 39 ∷ (q ++ (39 ∷ r))) in
      let (value, remaining) = value_of (k ∷ p) (q, r) in
      (values_loop (suc fuel) s ≡ push_value value (values_loop fuel remaining))
      × (values_loop (suc fuel) (44 ∷ s) ≡ push_value value (values_loop fuel remaining))
unfolding values_loop
values_loop-plain fuel k p q r h h' =
    let rest = p ++ (61 ∷ 39 ∷ (q ++ (39 ∷ r))) in
    let plain = Plain-of k h.0 in
    let stays =
      trim_from-stays is_comma k rest plain.comma
        (white_len-none k rest plain.percent plain.blank) in
    let round = ap (λ o. push_value o.0 (values_loop fuel o.1)) (values_round-plain k p q r h h') in
    (
      ap (after_trim (values_loop fuel)) stays ∙ round,
      ap (after_trim (values_loop fuel)) (trim_from-comma (k ∷ rest) ∙ stays) ∙ round,
    )

values_loop-nil : (fuel : ℕ) → 0 < fuel → values_loop fuel [] ≡ returns []
unfolding values_loop trim_from
values_loop-nil zero h = absurd (omega arith)
values_loop-nil (suc fuel) h = refl

push_value-returns :
    (value : Option Str) (values : List Str)
    → push_value value (returns values) ≡ returns (push value values)
push_value-returns none values = refl
push_value-returns (some value) values = refl

empty_key : (key : Str) → key ≢ [] → is_empty key ≢ true
empty_key [] h = λ e. h refl
empty_key (b ∷ bs) h = λ e. cc

-- The text of a pair, read with or without a comma before it.
ReadsPair : (fuel : ℕ) (key value r : Str) → Str → Type 0
ReadsPair fuel key value r s =
    (values_loop (suc fuel) s ≡ push_value (wanted key value) (values_loop fuel r))
    × (values_loop (suc fuel) (44 ∷ s) ≡ push_value (wanted key value) (values_loop fuel r))

reads_pair :
    (fuel : ℕ) (key value r p : Str)
    → IsPair (key, value)
    → url_encode key ≡ p
    → ReadsPair fuel key value r (p ++ (61 ∷ 39 ∷ (url_encode value ++ (39 ∷ r))))
unfolding ReadsPair
reads_pair fuel key value r [] (h, u, v) e =
    absurd (empty_key key h (sym (is_empty-url_encode key) ∙ ap is_empty e))
reads_pair fuel key value r (k ∷ p) (h, u, v) e =
    let plain =
      subst (All (λ b. is_plain b ≡ true)) e (url_encode-plain key (is_utf8-bytes key u)) in
    let (first, behind) =
      values_loop-plain fuel k p (url_encode value) r plain
        (url_encode-plain value (is_utf8-bytes value v)) in
    let value_read =
      ap (λ o. push_value o.0 (values_loop fuel o.1))
        (ap (λ t. value_of t (url_encode value, r)) (sym e)
          ∙ value_of-url_encode key value r u v) in
    (first ∙ value_read, behind ∙ value_read)

-- The loop on the pairs, with or without a comma before them.
values_loop-format_pairs :
    (fuel : ℕ) (pair : Str × Str) (pairs : List (Str × Str))
    → All IsPair (pair ∷ pairs)
    → suc (length pairs) < fuel
    → let all = pair ∷ pairs in
      (values_loop fuel (format_pairs all) ≡ returns (wanted_values all))
      × (values_loop fuel (44 ∷ format_pairs all) ≡ returns (wanted_values all))
unfolding ReadsPair
values_loop-format_pairs zero pair pairs h l = absurd (omega arith)
values_loop-format_pairs (suc fuel) (key, value) [] h l =
    let (first, behind) = reads_pair fuel key value [] (url_encode key) h.0 refl in
    let rest =
      ap (push_value (wanted key value)) (values_loop-nil fuel (omega arith))
      ∙ push_value-returns (wanted key value) [] in
    (first ∙ rest, behind ∙ rest)
values_loop-format_pairs (suc fuel) (key, value) (p ∷ pairs) h l =
    let (first, behind) =
      reads_pair fuel key value (44 ∷ format_pairs (p ∷ pairs)) (url_encode key) h.0 refl in
    let rest =
      ap (push_value (wanted key value)) (values_loop-format_pairs fuel p pairs h.1 (omega arith)).1
      ∙ push_value-returns (wanted key value) (wanted_values (p ∷ pairs)) in
    (first ∙ rest, behind ∙ rest)

length-format_pairs : (pairs : List (Str × Str)) → length pairs < suc (length (format_pairs pairs))
length-format_pairs [] = omega arith
length-format_pairs ((key, value) ∷ []) =
    omega (arith, length-append (url_encode key) (61 ∷ 39 ∷ (url_encode value ++ (39 ∷ []))))
length-format_pairs ((key, value) ∷ p ∷ pairs) =
    let rest = 44 ∷ format_pairs (p ∷ pairs) in
    omega (
      arith,
      length-append (url_encode key) (61 ∷ 39 ∷ (url_encode value ++ (39 ∷ rest))),
      length-append (url_encode value) (39 ∷ rest),
      length-format_pairs (p ∷ pairs),
    )

-- In a comment of percent encoded `key='value'` pairs with commas between them, whose keys are not
-- empty, the search finds the decoded values of the parent trace keys, in order, the empty ones
-- left out, and nothing else.
pub traceparent_values-format_pairs :
    (pairs : List (Str × Str))
    → All IsPair pairs
    → traceparent_values (format_pairs pairs) ≡ returns (wanted_values pairs)
unfolding traceparent_values
traceparent_values-format_pairs [] h = values_loop-nil 1 (omega arith)
traceparent_values-format_pairs (p ∷ pairs) h =
    (values_loop-format_pairs (suc (length (format_pairs (p ∷ pairs)))) p pairs h
      (length-format_pairs (p ∷ pairs))).0
