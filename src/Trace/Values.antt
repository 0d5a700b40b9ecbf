-- ===== src/Trace/Values.antt =====
-- `traceparent_values` of src/postgres.rs: the values of the keys that carry a parent trace in a
-- comment. A slice of a text at a byte that was found in it is the pair of what stands before and
-- from that byte on.
pub mod Total
pub mod Plain
pub mod Formatted
use pg_otel.Prelude.{
  ℕ, zero, suc, Bool, true, false, ◌&&◌, ◌||◌, not, Option, none, some, List, [], ◌∷◌, ltb, ◌==◌,
  if◌then◌else◌, length, drop, Outcome, returns, panics, unfinished,
}
use pg_otel.Prelude.Text.{eq_ignore_ascii_case}
use pg_otel.Prelude.White.{white_len, trim_from, trim_start}
use pg_otel.Trace.Percent.{percent_decode}
use pg_otel.Span.{Str}

-- `traceparent`.
abbrev pub traceparent : Str
traceparent = 116 ∷ 114 ∷ 97 ∷ 99 ∷ 101 ∷ 112 ∷ 97 ∷ 114 ∷ 101 ∷ 110 ∷ 116 ∷ []

-- `pg_otel.traceparent`.
abbrev pub prefixed_traceparent : Str
prefixed_traceparent = 112 ∷ 103 ∷ 95 ∷ 111 ∷ 116 ∷ 101 ∷ 108 ∷ 46 ∷ traceparent

unfoldable pub is_traceparent_key : Str → Bool
is_traceparent_key key =
    eq_ignore_ascii_case key traceparent || eq_ignore_ascii_case key prefixed_traceparent

abbrev pub is_comma : ℕ → Bool
is_comma b = b == 44

abbrev pub is_quote : ℕ → Bool
is_quote b = b == 39 || b == 34

abbrev pub ends_key : ℕ → Bool
ends_key b = (b == 61 || b == 44) || is_quote b

abbrev pub before : ℕ → Str × Str → Str × Str
before b (front, back) = (b ∷ front, back)

-- The text up to the first white space character, or byte that `stop` accepts, and the rest.
unfoldable pub split_until : (stop : ℕ → Bool) → Str → Str × Str
split_until stop [] = ([], [])
split_until stop (b ∷ bs) =
    if stop b || ltb 0 (white_len (b ∷ bs)) then ([], b ∷ bs) else before b (split_until stop bs)

abbrev pub before_some : ℕ → Option (Str × Str) → Option (Str × Str)
before_some b none = none
before_some b (some parts) = some (before b parts)

-- What stands before the first quote, and what stands behind it.
unfoldable pub split_quote : (quote : ℕ) → Str → Option (Str × Str)
split_quote quote [] = none
split_quote quote (b ∷ bs) =
    if b == quote then some ([], bs) else before_some b (split_quote quote bs)

abbrev pub quoted : Option (Str × Str) → Str × Str
quoted none = ([], [])
quoted (some parts) = parts

unfoldable pub split_value : Str → Str × Str
split_value [] = ([], [])
split_value (b ∷ bs) =
    if is_quote b then quoted (split_quote b bs) else split_until is_comma (b ∷ bs)

-- `strip_prefix('=')`.
abbrev pub strip_equals : Str → Option Str
strip_equals [] = none
strip_equals (b ∷ bs) = if b == 61 then some bs else none

abbrev pub is_empty : Str → Bool
is_empty [] = true
is_empty (b ∷ bs) = false

-- `len_utf8` of the character that a lead byte begins.
abbrev pub len_utf8 : ℕ → ℕ
len_utf8 b = if ltb b 0x80 then 1 else if ltb b 0xe0 then 2 else if ltb b 0xf0 then 3 else 4

abbrev pub without_first : Str → Str
without_first [] = []
without_first (b ∷ bs) = drop (len_utf8 b) (b ∷ bs)

abbrev pub value_of : (key : Str) → Str × Str → Option Str × Str
value_of key (value, remaining) = (
  (if is_traceparent_key (percent_decode key) && not (is_empty value)
      then some (percent_decode value)
      else none),
  remaining,
)

abbrev pub keyed : (key after_key : Str) → Option Str → Option Str × Str
keyed key after_key none = (none, after_key)
keyed key after_key (some after_equals) = value_of key (split_value (trim_start after_equals))

abbrev pub from_key : (rest : Str) → Str × Str → Option Str × Str
from_key rest ([], after_key) = (none, without_first rest)
from_key rest (k ∷ key, after_key) = keyed (k ∷ key) after_key (strip_equals (trim_start after_key))

-- A round of the loop, from a text that starts with neither white space nor a comma: the value that
-- it pushes, if any, and the next `rest`.
unfoldable pub values_round : Str → Option Str × Str
values_round rest = from_key rest (split_until ends_key rest)

abbrev pub push_value : Option Str → Outcome (List Str) → Outcome (List Str)
push_value none values = values
push_value (some value) (returns values) = returns (value ∷ values)
push_value (some value) panics = panics
push_value (some value) unfinished = unfinished

abbrev pub after_trim : (loop : Str → Outcome (List Str)) → Str → Outcome (List Str)
after_trim loop [] = returns []
after_trim loop (b ∷ bs) =
    let (value, remaining) = values_round (b ∷ bs) in push_value value (loop remaining)

unfoldable pub values_loop : (fuel : ℕ) → Str → Outcome (List Str)
values_loop zero rest = unfinished
values_loop (suc fuel) rest = after_trim (values_loop fuel) (trim_from is_comma 0 rest)

unfoldable pub traceparent_values : Str → Outcome (List Str)
traceparent_values comment = values_loop (suc (length comment)) comment
