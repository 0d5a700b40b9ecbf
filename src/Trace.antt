-- ===== src/Trace.antt =====
-- Whether and where a statement is traced, from src/postgres.rs: the tests of the executor hook, and
-- `block_comments`, which finds the comments that may carry a parent trace.
pub mod Comments
pub mod Nested
pub mod Parent
pub mod Percent
pub mod Values
mod Tests
use pg_otel.Prelude.{
  ℕ, ◌+◌, ◌*◌, Bool, true, false, ◌&&◌, Option, none, some, List, [], ◌∷◌, leb, ◌==◌, if◌then◌else◌,
  Outcome, returns, panics,
}
use pg_otel.Prelude.Int.{ℤ, pos, negsuc}
use pg_otel.Prelude.Text.{get_range}
use pg_otel.Span.{Str}

-- Tests of an `i32` against 0.
abbrev pub is_negative : ℤ → Bool
is_negative (pos n) = false
is_negative (negsuc n) = true

unfoldable pub tracing_enabled : (min_duration_ms parallel_worker_number : ℤ) → Bool
tracing_enabled (pos n) parallel_worker_number = is_negative parallel_worker_number
tracing_enabled (negsuc n) parallel_worker_number = false

-- In 64 bits an `i32` times a million does not overflow.
unfoldable pub meets_slow_query_threshold : (duration_ns min_duration_ms : ℤ) → Bool
meets_slow_query_threshold (pos d) (pos m) = leb (m * 1000000) d
meets_slow_query_threshold (negsuc d) (pos m) = false
meets_slow_query_threshold duration_ns (negsuc m) = false

-- `open.pop()`, and the comment that it ends, if one is open.
abbrev pub popped : List ℕ → List ℕ
popped [] = []
popped (start ∷ opens) = opens

abbrev pub push_comment : List ℕ → ℕ → List (ℕ × ℕ) → List (ℕ × ℕ)
push_comment [] i comments = comments
push_comment (start ∷ opens) i comments = (start, i) ∷ comments

-- The loop over the bytes from index `i` on: the ranges of the comments that end there.
unfoldable pub comment_ranges : (i : ℕ) (opens : List ℕ) → List ℕ → List (ℕ × ℕ)
comment_ranges i opens [] = []
comment_ranges i opens (a ∷ []) = []
comment_ranges i opens (a ∷ b ∷ rest) =
    let opened = comment_ranges (i + 2) ((i + 2) ∷ opens) rest in
    let closed = comment_ranges (i + 2) (popped opens) rest in
    let passed = comment_ranges (i + 1) opens (b ∷ rest) in
    if a == 47 && b == 42
    then opened
    else if a == 42 && b == 47
    then push_comment opens i closed
    else passed

-- `&text[start..i]`, which panics between the bytes of a character.
abbrev pub push_text : Option Str → Outcome (List Str) → Outcome (List Str)
push_text none texts = panics
push_text (some text) (returns texts) = returns (text ∷ texts)
push_text (some text) other = other

abbrev pub comment_texts : Str → List (ℕ × ℕ) → Outcome (List Str)
comment_texts text [] = returns []
comment_texts text ((start, end) ∷ ranges) =
    push_text (get_range text start end) (comment_texts text ranges)

unfoldable pub block_comments : Str → Outcome (List Str)
block_comments text = comment_texts text (comment_ranges 0 [] text)
