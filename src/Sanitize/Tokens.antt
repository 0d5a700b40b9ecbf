-- ===== src/Sanitize/Tokens.antt =====
-- The tokens of src/sanitize.rs, and `scan_tokens` over what Postgres' scanner returns.
use pg_otel.Prelude.{ℕ, ◌+◌, Bool, ◌||◌, Option, none, some, List, [], ◌∷◌, ◌==◌, if◌then◌else◌}
use pg_otel.Prelude.Int.{ℤ, pos, negsuc}

pub data TokenKind : Type 0 where
  constant : TokenKind
  param : ℤ → TokenKind
  other : TokenKind

pub record Token : Type 0 where
  pub kind : TokenKind
  pub start : ℕ
  pub end : ℕ

-- One answer of the scanner: its code, the integer value and the location that it sets, and the
-- length of the text that it ended with a NUL.
pub record Scanned : Type 0 where
  pub code : ℕ
  pub ival : ℤ
  pub location : ℤ
  pub len : ℕ

abbrev pub is_constant_code : ℕ → Bool
is_constant_code code =
    code == 260 || (code == 261 || (code == 262 || (code == 263 || (code == 264 || code == 266))))

unfoldable pub from_code : ℕ → ℤ → TokenKind
from_code code ival =
    if is_constant_code code then constant else if code == 267 then param ival else other

-- A location that is no `usize` ends the scan without a result.
abbrev pub push_token : Scanned → ℤ → Option (List Token) → Option (List Token)
push_token s (negsuc n) tokens = none
push_token s (pos start) none = none
push_token s (pos start) (some tokens) =
    some (record { kind = from_code s.code s.ival; start = start; end = start + s.len } ∷ tokens)

-- The loop over the scanner's answers, which end with code 0 at the latest.
unfoldable pub scan_tokens : List Scanned → Option (List Token)
scan_tokens [] = some []
scan_tokens (s ∷ ss) =
    let rest = scan_tokens ss in if s.code == 0 then some [] else push_token s s.location rest

-- A scanner that raises an error yields no answers.
abbrev pub lex : Option (List Scanned) → Option (List Token)
lex none = none
lex (some scanned) = scan_tokens scanned
