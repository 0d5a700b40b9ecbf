-- ===== src/Sanitize/Export/Limits.antt =====
-- What the text that `sanitize` of src/sanitize.rs exports has been through.
use pg_otel.Prelude.{
  ℕ, ◌≤◌, ◌≡◌, refl, sym, ap, ◌∙◌, Bool, true, false, ◌||◌, not, Option, none, some, List, ltb,
  length, Bool-cases, inl, inr, arith, returns,
}
use pg_otel.Prelude.Int.{ℤ}
use pg_otel.Span.{Bytes, Str}
use pg_otel.Sanitize.Statement.{current_statement}
use pg_otel.Sanitize.Tokens.{Token, Scanned, lex}
use pg_otel.Sanitize.Render.{render}
use pg_otel.Sanitize.Render.Total.{render_total}
use pg_otel.Sanitize.Truncate.{truncate_utf8, length-truncate_utf8}
use pg_otel.Sanitize.Export.{
  max_normalize_input_bytes, has_nul, render_tokens, truncated_text, then_truncate, normalize,
  sanitize_statement, sanitize,
}

abbrev pub IsShort : ℕ → Option Str → Type 0
IsShort max_len none = Unit
IsShort max_len (some text) = length text ≤ max_len

truncated_text-IsShort :
    (max_len : ℕ) (text : Option Str) → IsShort max_len (truncated_text max_len text)
truncated_text-IsShort max_len none = tt
truncated_text-IsShort max_len (some text) = length-truncate_utf8 text max_len

render_tokens_total :
    (sql : Str) (tokens : Option (List Token))
    → (text : Option Str) × (render_tokens sql tokens ≡ returns text)
render_tokens_total sql none = (none, refl)
render_tokens_total sql (some tokens) = render_total sql tokens

module _ (server_encoding_is_utf8 : Bool) (scan : Str → Option (List Scanned)) where
  -- Normalizing ends without a panic on every text, whatever the scanner answers.
  pub normalize_total :
      (sql : Str)
      → (text : Option Str) × (normalize server_encoding_is_utf8 scan sql ≡ returns text)
  unfolding normalize
  normalize_total sql =
      elim (Bool-cases
        (ltb max_normalize_input_bytes (length sql) || not server_encoding_is_utf8)) [
          | inl e ↦ (none, rw e refl)
          | inr e ↦ elim (Bool-cases (has_nul sql)) [
            | inl f ↦ (none, rw (e, f) refl)
            | inr f ↦
                let (text, g) = render_tokens_total sql (lex (scan sql)) in (text, rw (e, f) g)
          ]
        ]

  -- What a text has to be for a normalized one to exist.
  pub record Normalized (sql out : Str) : Type 0 where
    pub small : length sql ≤ max_normalize_input_bytes
    pub encoding : server_encoding_is_utf8 ≡ true
    pub no_nul : has_nul sql ≡ false
    pub tokens : List Token
    pub lexed : lex (scan sql) ≡ some tokens
    pub rendered : render sql tokens ≡ returns (some out)

  guard_lem :
      (n : ℕ) (b : Bool)
      → (ltb max_normalize_input_bytes n || not b) ≡ false
      → (n ≤ max_normalize_input_bytes) × (b ≡ true)
  guard_lem n b e = ground arith

  render_tokens-some :
      (sql out : Str) (tokens : Option (List Token))
      → render_tokens sql tokens ≡ returns (some out)
      → (ts : List Token) × (tokens ≡ some ts) × (render sql ts ≡ returns (some out))
  render_tokens-some sql out none e = cc
  render_tokens-some sql out (some ts) e = (ts, refl, e)

  normalize-Normalized :
      (sql out : Str)
      → normalize server_encoding_is_utf8 scan sql ≡ returns (some out)
      → Normalized sql out
  unfolding normalize
  normalize-Normalized sql out h =
      elim (Bool-cases
        (ltb max_normalize_input_bytes (length sql) || not server_encoding_is_utf8)) [
          | inl e ↦ let bad = rw e at h in cc
          | inr e ↦ elim (Bool-cases (has_nul sql)) [
            | inl f ↦ let bad = rw (e, f) at h in cc
            | inr f ↦
                let (ts, l, r) = render_tokens-some sql out (lex (scan sql)) (rw (e, f) at h) in
                let (small, utf8) = guard_lem (length sql) server_encoding_is_utf8 e in
                record {
                  small = small;
                  encoding = utf8;
                  no_nul = f;
                  tokens = ts;
                  lexed = l;
                  rendered = r;
                }
          ]
        ]

  module _ (clean_query_text : Bytes → ℤ → ℤ → ℤ × ℤ) (from_utf8_lossy : Bytes → Str) where
    sanitize_statement-IsShort :
        (normalize_text : Bool) (max_len : ℕ) (statement : Option Str)
        → (text : Option Str) × (sanitize_statement server_encoding_is_utf8 scan clean_query_text
              from_utf8_lossy normalize_text max_len statement
            ≡ returns text)
          × IsShort max_len text
    sanitize_statement-IsShort normalize_text max_len none = (none, refl, tt)
    sanitize_statement-IsShort true max_len (some statement) =
        let (text, e) = normalize_total statement in
        (
          truncated_text max_len text,
          ap (then_truncate max_len) e,
          truncated_text-IsShort max_len text,
        )
    sanitize_statement-IsShort false max_len (some statement) =
        (_, refl, length-truncate_utf8 statement max_len)

    -- Sanitizing returns on every input, with no text or with one of at most `max_len` bytes.
    pub sanitize_total :
        (source_text : Option Bytes) (stmt_location stmt_len : ℤ) (normalize_text : Bool)
        (max_len : ℕ)
        → (text : Option Str) × (sanitize server_encoding_is_utf8 scan clean_query_text
              from_utf8_lossy source_text stmt_location stmt_len normalize_text max_len
            ≡ returns text)
          × IsShort max_len text
    unfolding sanitize
    sanitize_total source_text loc len normalize_text max_len =
        sanitize_statement-IsShort normalize_text max_len
          (current_statement clean_query_text from_utf8_lossy source_text loc len)

    truncated-some :
        (max_len : ℕ) (text : Str) (normal : Option Str)
        → returns (truncated_text max_len normal) ≡ returns (some text)
        → (out : Str) × (normal ≡ some out) × (text ≡ truncate_utf8 out max_len)
    truncated-some max_len text none e = cc
    truncated-some max_len text (some out) e = (out, refl, ground arith)

    sanitize_statement-Normalized :
        (max_len : ℕ) (statement : Option Str) (text : Str)
        → sanitize_statement server_encoding_is_utf8 scan clean_query_text from_utf8_lossy true
            max_len statement
          ≡ returns (some text)
        → (s : Str) × (out : Str) × (statement ≡ some s)
          × Normalized s out
          × (text ≡ truncate_utf8 out max_len)
    sanitize_statement-Normalized max_len none text e = cc
    sanitize_statement-Normalized max_len (some s) text e =
        let (normal, n) = normalize_total s in
        let (out, f, g) =
          truncated-some max_len text normal (sym (ap (then_truncate max_len) n) ∙ e) in
        (s, out, refl, normalize-Normalized s out (n ∙ ap returns f), g)

    -- In the normalized mode the raw text is never exported: a text that comes out is the
    -- truncated rendering of the tokens of the statement, which the scanner accepted, in a UTF-8
    -- database, and which has no NUL byte and at most 64 KiB.
    pub sanitize_fails_closed :
        (source_text : Option Bytes) (stmt_location stmt_len : ℤ) (max_len : ℕ) (text : Str)
        → sanitize server_encoding_is_utf8 scan clean_query_text from_utf8_lossy source_text
            stmt_location stmt_len true max_len
          ≡ returns (some text)
        → (statement : Str) × (out : Str) × (current_statement clean_query_text from_utf8_lossy
              source_text stmt_location stmt_len
            ≡ some statement)
          × Normalized statement out
          × (text ≡ truncate_utf8 out max_len)
    unfolding sanitize
    sanitize_fails_closed source_text loc len max_len text e =
        sanitize_statement-Normalized max_len
          (current_statement clean_query_text from_utf8_lossy source_text loc len) text e
