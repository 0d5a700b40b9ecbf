-- ===== src/Sanitize/Statement.antt =====
-- `current_statement` of src/sanitize.rs: one statement cut out of a query string.
-- An `i32` is an integer. `clean_query_text` is Postgres' `CleanQuerytext`, and `from_utf8_lossy`
-- the conversion of Rust's library.
use pg_otel.Prelude.{
  arith, ◌≤◌, ◌≡◌, refl, Bool-cases, inl, inr, ℕ, ◌+◌, ◌-◌, ◌^◌, Option, none, some, [], ◌∷◌, ltb,
  if◌then◌else◌, length, slice,
}
use pg_otel.Prelude.Int.{ℤ, pos, negsuc}
use pg_otel.Span.{Bytes, Str}

-- `if stmt_len > rest { 0 } else { stmt_len }`.
abbrev pub clamped_len : ℕ → ℤ → ℤ
clamped_len rest (pos len) = if ltb rest len then pos 0 else pos len
clamped_len rest (negsuc len) = negsuc len

-- `validated_range` for a length that is an `i32`.
abbrev pub range_of : ℕ → ℤ → ℤ → Option (ℤ × ℤ)
range_of total (negsuc location) len = some (negsuc 0, pos 0)
range_of total (pos location) len =
    if ltb total location then none else some (pos location, clamped_len (total - location) len)

unfoldable pub validated_range : (total : ℕ) → (stmt_location stmt_len : ℤ) → Option (ℤ × ℤ)
validated_range total stmt_location stmt_len =
    if ltb total (2 ^ 31) then range_of total stmt_location stmt_len else none

-- `bytes.get(location as usize..(location + len) as usize)`: a negative number is no index, since
-- as an unsigned word it is past the end of any string.
abbrev pub statement_bytes : Bytes → ℤ → ℤ → Option Bytes
statement_bytes bytes (pos location) (pos len) =
    if ltb (length bytes) (location + len) then none else some (slice bytes location len)
statement_bytes bytes (pos location) (negsuc len) = none
statement_bytes bytes (negsuc location) len = none

abbrev pub non_empty : Str → Option Str
non_empty [] = none
non_empty (b ∷ bs) = some (b ∷ bs)

module _ (clean_query_text : Bytes → ℤ → ℤ → ℤ × ℤ) (from_utf8_lossy : Bytes → Str) where
  abbrev pub lossy_statement : Option Bytes → Option Str
  lossy_statement none = none
  lossy_statement (some bytes) = non_empty (from_utf8_lossy bytes)

  abbrev pub cleaned_statement : Bytes → Option (ℤ × ℤ) → Option Str
  cleaned_statement bytes none = none
  cleaned_statement bytes (some (location, len)) =
      let (location', len') = clean_query_text bytes location len in
      lossy_statement (statement_bytes bytes location' len')

  unfoldable pub current_statement : Option Bytes → ℤ → ℤ → Option Str
  current_statement none stmt_location stmt_len = none
  current_statement (some bytes) stmt_location stmt_len =
      cleaned_statement bytes (validated_range (length bytes) stmt_location stmt_len)

-- What `CleanQuerytext` accepts for a string of `total` bytes: the whole string, a rest of it
-- (by a length of zero or less), or a part of it.
abbrev pub IsAccepted : ℕ → Option (ℤ × ℤ) → Type 0
IsAccepted total none = Unit
IsAccepted total (some (negsuc location, len)) = (location ≡ 0) × (len ≡ pos 0)
IsAccepted total (some (pos location, pos len)) = location + len ≤ total
IsAccepted total (some (pos location, negsuc len)) = location ≤ total

range_of-IsAccepted :
    (total : ℕ) (location len : ℤ) → IsAccepted total (range_of total location len)
range_of-IsAccepted total (negsuc location) len = (refl, refl)
range_of-IsAccepted total (pos location) (pos len) = ground arith
range_of-IsAccepted total (pos location) (negsuc len) = ground arith

-- The range that is passed to `CleanQuerytext` always lies within the string, whatever location
-- and length the statement claims.
pub validated_range-IsAccepted :
    (total : ℕ) (stmt_location stmt_len : ℤ)
    → IsAccepted total (validated_range total stmt_location stmt_len)
unfolding validated_range
validated_range-IsAccepted total location len = elim (Bool-cases (ltb total (2 ^ 31))) [
  | inl e ↦ rw e (range_of-IsAccepted total location len)
  | inr e ↦ rw e tt
]
