-- ===== src/Sanitize/Tests.antt =====
-- The theorems on src/sanitize.rs at the statement `x=1`, whose last token is a constant.
use pg_otel.Prelude.{◌≡◌, refl, true, Option, none, some, List, [], ◌∷◌, returns}
use pg_otel.Prelude.Int.{ℤ, pos, negsuc}
use pg_otel.Prelude.Utf8.{is_utf8, utf8_rest, lead_byte}
use pg_otel.Prelude.Utf8.{is_char_boundary}
use pg_otel.Prelude.Text.{get_range, bytes_eq, eq_ignore_ascii_case, digits}
use pg_otel.Span.{Bytes, Str}
use pg_otel.Sanitize.Statement.{
  current_statement, validated_range, IsAccepted, validated_range-IsAccepted,
}
use pg_otel.Sanitize.Tokens.{Token, Scanned, constant, other, from_code, scan_tokens}
use pg_otel.Sanitize.Compact.{
  token_texts, find_compactions, sort_by_start, non_overlapping, select_list_compactions,
  select_list_terminator,
}
use pg_otel.Sanitize.Render.{first_placeholder, render_round, render_loop, would_fuse, render}
use pg_otel.Sanitize.Render.Alike.{SameTokens, no_tokens, one_token}
use pg_otel.Sanitize.Render.Masks.{Opaque}
use pg_otel.Sanitize.Render.Noninterference.{render_masks_constants}
use pg_otel.Sanitize.Render.Total.{render_total}
use pg_otel.Sanitize.Truncate.{boundary_before, truncate_utf8, Truncated, truncate_utf8_lem}
use pg_otel.Sanitize.Export.{normalize, sanitize}
use pg_otel.Sanitize.Export.Limits.{IsShort, Normalized, sanitize_total, sanitize_fails_closed}

abbrev statement : Str
statement = 120 ∷ 61 ∷ 49 ∷ []

abbrev scan : Str → Option (List Scanned)
scan sql = some (
    record { code = 258; ival = pos 0; location = pos 0; len = 1 }
    ∷ record { code = 61; ival = pos 0; location = pos 1; len = 1 }
    ∷ record { code = 266; ival = pos 1; location = pos 2; len = 1 }
    ∷ record { code = 0; ival = pos 0; location = pos 3; len = 0 }
    ∷ [])

abbrev tokens : List Token
tokens =
    record { kind = other; start = 0; end = 1 }
    ∷ record { kind = other; start = 1; end = 2 }
    ∷ record { kind = constant; start = 2; end = 3 }
    ∷ []

-- For a range from the start to the end there is nothing to trim.
abbrev clean : Bytes → ℤ → ℤ → ℤ × ℤ
clean bytes location len = (pos 0, pos 3)

abbrev lossy : Bytes → Str
lossy bytes = bytes

render_total_example : (text : Option Str) × (render statement tokens ≡ returns text)
render_total_example = render_total statement tokens

statement_text :
    sanitize true scan clean lossy (some statement) (negsuc 0) (pos 0) true 3
    ≡ returns (some (120 ∷ 61 ∷ 36 ∷ []))
unfolding sanitize normalize current_statement validated_range scan_tokens from_code render
    first_placeholder select_list_compactions token_texts get_range is_char_boundary
    find_compactions sort_by_start non_overlapping eq_ignore_ascii_case bytes_eq render_loop
    render_round would_fuse digits truncate_utf8 boundary_before
statement_text = refl

sanitize_total_example :
    (text : Option Str) × (sanitize true scan clean lossy (some statement) (negsuc 0) (pos 0) true 3
      ≡ returns text)
    × IsShort 3 text
sanitize_total_example =
    sanitize_total true scan clean lossy (some statement) (negsuc 0) (pos 0) true 3

sanitize_fails_closed_example :
    (s : Str) × (out : Str) × (current_statement clean lossy (some statement) (negsuc 0) (pos 0)
      ≡ some s)
    × Normalized true scan s out
    × (120 ∷ 61 ∷ 36 ∷ [] ≡ truncate_utf8 out 3)
sanitize_fails_closed_example =
    sanitize_fails_closed true scan clean lossy (some statement) (negsuc 0) (pos 0) 3
      (120 ∷ 61 ∷ 36 ∷ []) statement_text

two_characters : is_utf8 (195 ∷ 164 ∷ 195 ∷ 164 ∷ []) ≡ true
unfolding is_utf8 utf8_rest lead_byte
two_characters = refl

truncate_utf8_lem_example :
    Truncated (195 ∷ 164 ∷ 195 ∷ 164 ∷ []) 3 (truncate_utf8 (195 ∷ 164 ∷ 195 ∷ 164 ∷ []) 3)
truncate_utf8_lem_example = truncate_utf8_lem (195 ∷ 164 ∷ 195 ∷ 164 ∷ []) 3 two_characters

validated_range-IsAccepted_example : IsAccepted 10 (validated_range 10 (pos 4) (pos 100))
validated_range-IsAccepted_example = validated_range-IsAccepted 10 (pos 4) (pos 100)

-- `x=22`, which differs from `x=1` in the constant alone.
abbrev other_statement : Str
other_statement = 120 ∷ 61 ∷ 50 ∷ 50 ∷ []

abbrev other_tokens : List Token
other_tokens =
    record { kind = other; start = 0; end = 1 }
    ∷ record { kind = other; start = 1; end = 2 }
    ∷ record { kind = constant; start = 2; end = 4 }
    ∷ []

Opaque-digit : Opaque (49 ∷ [])
unfolding bytes_eq eq_ignore_ascii_case select_list_terminator
Opaque-digit = record {
  opens = refl;
  closes = refl;
  ends = refl;
  separates = refl;
  selects = refl;
  terminates = refl;
}

Opaque-number : Opaque (50 ∷ 50 ∷ [])
unfolding bytes_eq eq_ignore_ascii_case select_list_terminator
Opaque-number = record {
  opens = refl;
  closes = refl;
  ends = refl;
  separates = refl;
  selects = refl;
  terminates = refl;
}

same_tokens : SameTokens statement other_statement none none tokens other_tokens
unfolding get_range is_char_boundary
same_tokens =
    one_token (record { kind = other; start = 0; end = 1 })
      (record { kind = other; start = 0; end = 1 }) refl refl refl refl
      (one_token (record { kind = other; start = 1; end = 2 })
        (record { kind = other; start = 1; end = 2 }) refl refl refl refl
        (one_token (record { kind = constant; start = 2; end = 3 })
          (record { kind = constant; start = 2; end = 4 }) refl (Opaque-digit, Opaque-number) refl
          refl (no_tokens (some 3) (some 4))))

render_masks_constants_example : render statement tokens ≡ render other_statement other_tokens
render_masks_constants_example =
    render_masks_constants statement other_statement tokens other_tokens same_tokens
