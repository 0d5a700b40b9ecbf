-- ===== src/Trace/Parent/Tests.antt =====
-- The theorems on the parent trace of a statement, at small inputs.
use pg_otel.Prelude.{◌≡◌, List, refl, true, false, none, some, [], ◌∷◌, replicate, returns}
use pg_otel.Prelude.Text.{bytes_eq, eq_ignore_ascii_case}
use pg_otel.Prelude.Utf8.{is_utf8, lead_byte, utf8_rest}
use pg_otel.Prelude.White.{white_len, trim_from, trim_end}
use pg_otel.Span.{Str}
use pg_otel.Trace.{block_comments}
use pg_otel.Trace.Nested.{Sql, text, comment, print, unmarked, block_comments-print}
use pg_otel.Trace.Percent.{
  percent_encode, percent_decode, decode_bytes, hex_value, percent_decode-percent_encode,
}
use pg_otel.Trace.Values.{
  traceparent, is_traceparent_key, traceparent_values, values_loop, values_round, split_until,
  split_value, split_quote,
}
use pg_otel.Prelude.Lossy.{from_utf8_lossy, lossy_rest}
use pg_otel.Trace.Values.Plain.{is_unreserved}
use pg_otel.Trace.Values.Formatted.{format_pairs, wanted_values, traceparent_values-format_pairs}
use pg_otel.Trace.Parent.{
  RemoteContext, Propagator, TraceDecision, trace, from_remote, split, has_traceparent_shape,
  parse_traceparent, first_parsed, decide_parent, any_window,
}
use pg_otel.Trace.Parent.Shape.{IsTraceparent, has_traceparent_shape_iff}
use pg_otel.Trace.Parent.Decide.{commented, decide_parent-commented}
use pg_otel.Trace.Parent.Total.{Decided, decide_parent_lem}

abbrev valid : Str
valid =
    48 ∷ 48 ∷ 45 ∷ 52 ∷ 98 ∷ 102 ∷ 57 ∷ 50 ∷ 102 ∷ 51 ∷ 53 ∷ 55 ∷ 55 ∷ 98 ∷ 51 ∷ 52 ∷ 100 ∷ 97 ∷ 54
    ∷ 97 ∷ 51 ∷ 99 ∷ 101 ∷ 57 ∷ 50 ∷ 57 ∷ 100 ∷ 48 ∷ 101 ∷ 48 ∷ 101 ∷ 52 ∷ 55 ∷ 51 ∷ 54 ∷ 45 ∷ 48
    ∷ 48 ∷ 102 ∷ 48 ∷ 54 ∷ 55 ∷ 97 ∷ 97 ∷ 48 ∷ 98 ∷ 97 ∷ 57 ∷ 48 ∷ 50 ∷ 98 ∷ 55 ∷ 45 ∷ 48 ∷ 49 ∷ []

-- A propagator that makes of every value one sampled context.
abbrev sampled : RemoteContext
sampled = record {
  trace_id = replicate 16 7;
  span_id = replicate 8 9;
  is_sampled = true;
  is_valid = true;
}

abbrev sampling : Propagator
sampling get keys = sampled

-- `é%`.
abbrev accented : Str
accented = 195 ∷ 169 ∷ 37 ∷ []

percent_decode-percent_encode_example :
    percent_decode (percent_encode is_unreserved accented) ≡ accented
percent_decode-percent_encode_example =
    percent_decode-percent_encode is_unreserved accented (unfold is_unreserved in refl)
      (unfold is_utf8 utf8_rest lead_byte in refl)

-- `a/*b/*c*/d*/e`.
abbrev nested : Sql
nested = comment (97 ∷ []) (comment (98 ∷ []) (text (99 ∷ [])) (text (100 ∷ []))) (text (101 ∷ []))

block_comments-print_example :
    block_comments (print nested)
    ≡ returns ((99 ∷ []) ∷ (98 ∷ 47 ∷ 42 ∷ 99 ∷ 42 ∷ 47 ∷ 100 ∷ []) ∷ [])
block_comments-print_example =
    block_comments-print nested (unfold unmarked in (refl, (refl, refl, refl), refl))
      (unfold is_utf8 utf8_rest lead_byte in refl)

-- `a='b',traceparent='x'`.
abbrev pairs : List (Str × Str)
pairs = (97 ∷ [], 98 ∷ []) ∷ (traceparent, 120 ∷ []) ∷ []

traceparent_values-format_pairs_example :
    traceparent_values (format_pairs pairs) ≡ returns (wanted_values pairs)
traceparent_values-format_pairs_example =
    traceparent_values-format_pairs pairs
      (unfold is_utf8 utf8_rest lead_byte in ((λ e. cc, refl, refl), ((λ e. cc, refl, refl), tt)))

has_traceparent_shape_iff_example :
    (has_traceparent_shape valid ≡ true → IsTraceparent valid)
    × (IsTraceparent valid → has_traceparent_shape valid ≡ true)
has_traceparent_shape_iff_example = has_traceparent_shape_iff valid

valid_shape : has_traceparent_shape valid ≡ true
unfolding has_traceparent_shape split bytes_eq
valid_shape = refl

abbrev carried : List (Str × Str)
carried = (traceparent, valid) ∷ []

carried_context : first_parsed sampling (wanted_values carried) ≡ some sampled
unfolding is_traceparent_key eq_ignore_ascii_case bytes_eq parse_traceparent has_traceparent_shape
    split trim_from trim_end white_len
carried_context = refl

abbrev statement : Str
statement = print (commented (97 ∷ []) carried (text (98 ∷ [])))

statement-utf8 : is_utf8 statement ≡ true
unfolding is_utf8 utf8_rest lead_byte percent_encode is_unreserved
statement-utf8 = refl

decide_parent-commented_example :
    decide_parent sampling (replicate 16 1) none (some statement)
    ≡ returns (trace (from_remote sampled))
decide_parent-commented_example =
    decide_parent-commented sampling (replicate 16 1) none (97 ∷ []) carried (text (98 ∷ []))
      sampled refl (unfold unmarked in refl)
      (unfold is_utf8 utf8_rest lead_byte in ((λ e. cc, refl, refl), tt)) (unfold unmarked in refl)
      statement-utf8 carried_context

decide_parent_lem_example :
    (answer : TraceDecision) × (decide_parent sampling (replicate 16 1) none (some statement)
      ≡ returns answer)
    × Decided sampling (replicate 16 1) none (some statement) answer
decide_parent_lem_example =
    decide_parent_lem sampling (replicate 16 1) none (some statement) statement-utf8

-- The pre-check of a text does not see a key whose letters are percent encoded, which the search
-- reads.
abbrev escaped_key : Str
escaped_key =
    37 ∷ 55 ∷ 52 ∷ 114 ∷ 97 ∷ 99 ∷ 101 ∷ 112 ∷ 97 ∷ 114 ∷ 101 ∷ 110 ∷ 116 ∷ 61 ∷ 39 ∷ 120 ∷ 39 ∷ []

escaped_key_found : traceparent_values escaped_key ≡ returns ((120 ∷ []) ∷ [])
unfolding traceparent_values values_loop values_round trim_from white_len split_until split_value
    split_quote is_traceparent_key percent_decode decode_bytes hex_value from_utf8_lossy lossy_rest
    lead_byte eq_ignore_ascii_case bytes_eq
escaped_key_found = refl

escaped_key_overlooked : any_window traceparent escaped_key ≡ false
unfolding any_window eq_ignore_ascii_case bytes_eq
escaped_key_overlooked = refl
