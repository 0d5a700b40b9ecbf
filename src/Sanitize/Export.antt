-- ===== src/Sanitize/Export.antt =====
-- `normalize` and `sanitize` of src/sanitize.rs: extract, normalize, truncate.
-- `scan` is Postgres' core scanner: its answers for a text, or none if it raises an error. Its run at
-- quiet message levels stands in Quiet.
pub mod Limits
use pg_otel.Prelude.{
  ℕ, zero, suc, ◌*◌, ◌≤◌, ◌≡◌, refl, Bool, true, false, ◌||◌, not, Option, none, some, List, [],
  ◌∷◌, ltb, ◌==◌, if◌then◌else◌, length, Outcome, returns, panics, unfinished,
}
use pg_otel.Prelude.Int.{ℤ}
use pg_otel.Span.{Bytes, Str}
use pg_otel.Sanitize.Statement.{current_statement}
use pg_otel.Sanitize.Tokens.{Token, Scanned, lex}
use pg_otel.Sanitize.Render.{render}
use pg_otel.Sanitize.Truncate.{truncate_utf8}

abbrev pub max_normalize_input_bytes : ℕ
max_normalize_input_bytes = 64 * 1024

-- `CString::new` refuses a text with a NUL byte.
abbrev pub has_nul : Str → Bool
has_nul [] = false
has_nul (b ∷ bs) = b == 0 || has_nul bs

abbrev pub render_tokens : Str → Option (List Token) → Outcome (Option Str)
render_tokens sql none = returns none
render_tokens sql (some tokens) = render sql tokens

abbrev pub truncated_text : (max_len : ℕ) → Option Str → Option Str
truncated_text max_len none = none
truncated_text max_len (some text) = some (truncate_utf8 text max_len)

abbrev pub then_truncate : (max_len : ℕ) → Outcome (Option Str) → Outcome (Option Str)
then_truncate max_len (returns text) = returns (truncated_text max_len text)
then_truncate max_len panics = panics
then_truncate max_len unfinished = unfinished

module _ (server_encoding_is_utf8 : Bool) (scan : Str → Option (List Scanned)) where
  unfoldable pub normalize : Str → Outcome (Option Str)
  normalize sql =
      if ltb max_normalize_input_bytes (length sql) || not server_encoding_is_utf8
      then returns none
      else if has_nul sql
      then returns none
      else render_tokens sql (lex (scan sql))

  module _ (clean_query_text : Bytes → ℤ → ℤ → ℤ × ℤ) (from_utf8_lossy : Bytes → Str) where
    abbrev pub sanitize_statement :
        (normalize_text : Bool) (max_len : ℕ) → Option Str → Outcome (Option Str)
    sanitize_statement normalize_text max_len none = returns none
    sanitize_statement normalize_text max_len (some statement) =
        then_truncate max_len
          (if normalize_text then normalize statement else returns (some statement))

    unfoldable pub sanitize :
        Option Bytes
        → (stmt_location stmt_len : ℤ) (normalize_text : Bool) (max_len : ℕ) → Outcome (Option Str)
    sanitize source_text stmt_location stmt_len normalize_text max_len =
        sanitize_statement normalize_text max_len
          (current_statement clean_query_text from_utf8_lossy source_text stmt_location stmt_len)
