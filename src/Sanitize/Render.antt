-- ===== src/Sanitize/Render.antt =====
-- `render` of src/sanitize.rs: the text without its constants.
-- A slice of the tokens out of range would panic.
pub mod Alike
pub mod Masks
pub mod Noninterference
pub mod Ranges
pub mod Steps
pub mod Total
use pg_otel.Prelude.{
  ℕ, zero, suc, ◌+◌, ◌-◌, ◌^◌, Bool, true, false, ◌&&◌, ◌||◌, not, Option, none, some, List, [],
  ◌∷◌, ◌++◌, ltb, leb, ◌==◌, if◌then◌else◌, length, slice, drop, Outcome, returns, panics,
  unfinished,
}
use pg_otel.Prelude.Int.{ℤ, pos, negsuc}
use pg_otel.Prelude.Text.{get_range, decimal, decimal_ℤ, last_of}
use pg_otel.Span.{Str}
use pg_otel.Sanitize.Tokens.{TokenKind, constant, param, other, Token}
use pg_otel.Sanitize.Compact.{SelectListCompaction, select_list_compactions}

-- `i32::saturating_add(1)`.
abbrev pub next_i32 : ℤ → ℤ
next_i32 (pos n) = if ltb n (2 ^ 31 - 1) then pos (n + 1) else pos n
next_i32 (negsuc zero) = pos 0
next_i32 (negsuc (suc n)) = negsuc n

abbrev pub max_ℤ : ℤ → ℤ → ℤ
max_ℤ (pos a) (pos b) = if leb a b then pos b else pos a
max_ℤ (pos a) (negsuc b) = pos a
max_ℤ (negsuc a) (pos b) = pos b
max_ℤ (negsuc a) (negsuc b) = if leb a b then negsuc a else negsuc b

abbrev pub highest_of : TokenKind → Option ℤ → Option ℤ
highest_of constant highest = highest
highest_of other highest = highest
highest_of (param number) none = some number
highest_of (param number) (some highest) = some (max_ℤ number highest)

abbrev pub highest_param : List Token → Option ℤ
highest_param [] = none
highest_param (t ∷ ts) = highest_of t.kind (highest_param ts)

abbrev pub placeholder_above : Option ℤ → ℤ
placeholder_above none = pos 1
placeholder_above (some highest) = next_i32 highest

unfoldable pub first_placeholder : List Token → ℤ
first_placeholder tokens = placeholder_above (highest_param tokens)

-- An ASCII letter or digit, `_`, `$`, or a byte of another character.
abbrev pub is_word : ℕ → Bool
is_word b =
    (leb 48 b && leb b 57)
    || ((leb 65 b && leb b 90) || ((leb 97 b && leb b 122) || (b == 95 || (b == 36 || leb 128 b))))

-- The last character of `out` and the first of `next`, by their last and first byte.
unfoldable pub would_fuse : Str → Str → Bool
would_fuse [] next = false
would_fuse (o ∷ out) [] = false
would_fuse (o ∷ out) (n ∷ next) = is_word (last_of o out) && is_word n

pub record Rendering : Type 0 where
  pub next_placeholder : ℤ
  pub out : Str
  pub previous_end : Option ℕ

abbrev pub after_kind : TokenKind → ℤ → ℤ
after_kind constant next_placeholder = next_i32 next_placeholder
after_kind (param number) next_placeholder = next_placeholder
after_kind other next_placeholder = next_placeholder

-- A token that begins before the end of the one before it.
abbrev pub is_before : Option ℕ → ℕ → Bool
is_before none start = false
is_before (some end) start = ltb start end

abbrev pub skip_one : Option Str → Bool → Option (ℤ × Option ℕ) → Option (ℤ × Option ℕ)
skip_one none before rest = none
skip_one (some text) before rest = if before then none else rest

-- The loop over the tokens of a compaction: the placeholder and the end behind them.
unfoldable pub skip_tokens : Str → ℤ → Option ℕ → List Token → Option (ℤ × Option ℕ)
skip_tokens sql next_placeholder last_end [] = some (next_placeholder, last_end)
skip_tokens sql next_placeholder last_end (t ∷ ts) =
    let rest = skip_tokens sql (after_kind t.kind next_placeholder) (some t.end) ts in
    skip_one (get_range sql t.start t.end) (is_before last_end t.start) rest

-- ", ...(" and " more columns)" around the number of columns.
abbrev pub omitted_columns : ℕ → Str
omitted_columns n =
    44 ∷ 32 ∷ 46 ∷ 46 ∷ 46 ∷ 40 ∷ []
    ++ (decimal n
        ++ (32 ∷ 109 ∷ 111 ∷ 114 ∷ 101 ∷ 32 ∷ 99 ∷ 111 ∷ 108 ∷ 117 ∷ 109 ∷ 110 ∷ 115 ∷ 41 ∷ []))

abbrev pub token_text : Str → ℤ → Token → TokenKind → Option Str
token_text sql next_placeholder t constant = some (36 ∷ decimal_ℤ next_placeholder)
token_text sql next_placeholder t (param number) = get_range sql t.start t.end
token_text sql next_placeholder t other = get_range sql t.start t.end

abbrev pub is_gap : Option ℕ → ℕ → Bool
is_gap none start = false
is_gap (some end) start = ltb end start

abbrev pub append_text : Str → Bool → Str → Str
append_text out gap text =
    if (gap || would_fuse out text) && not (length out == 0)
    then (out ++ (32 ∷ [])) ++ text
    else out ++ text

-- One token that is not skipped, with the text that stands for it.
abbrev pub render_text : Rendering → Token → Option Str → Option Rendering
render_text r t none = none
render_text r t (some text) =
    if is_before r.previous_end t.start
    then none
    else some (record {
      next_placeholder = after_kind t.kind r.next_placeholder;
      out = append_text r.out (is_gap r.previous_end t.start) text;
      previous_end = some t.end;
    })

abbrev pub render_token : Str → Rendering → Token → Option Rendering
render_token sql r t = render_text r t (token_text sql r.next_placeholder t t.kind)

-- What the skipped tokens of a compaction leave.
abbrev pub render_skipped :
    Rendering → SelectListCompaction → Option (ℤ × Option ℕ) → Option Rendering
render_skipped r c none = none
render_skipped r c (some (next_placeholder, last_end)) = some (record {
  next_placeholder = next_placeholder;
  out = r.out ++ omitted_columns c.additional_columns;
  previous_end = last_end;
})

-- One round of the loop: a result if the tokens are inconsistent or at an end, or else the rest of
-- the tokens, where they begin, and the compactions that are left.
pub data Round : Type 0 where
  done : Outcome (Option Str) → Round
  next : (token_index : ℕ) → List SelectListCompaction → Rendering → Round

abbrev pub round_with : (token_index : ℕ) → List SelectListCompaction → Option Rendering → Round
round_with token_index compactions none = done (returns none)
round_with token_index compactions (some r) = next token_index compactions r

-- `&tokens[compaction.start..compaction.end]`.
abbrev pub skip_round :
    Str → List Token → SelectListCompaction → List SelectListCompaction → Rendering → Round
skip_round sql tokens c compactions r =
    let skipped = slice tokens c.start (c.end - c.start) in
    let rendered = render_skipped r c (skip_tokens sql r.next_placeholder r.previous_end skipped) in
    if ltb c.end c.start || ltb (length tokens) c.end
    then done panics
    else round_with c.end compactions rendered

abbrev pub token_round :
    Str → List Token → (token_index : ℕ) → List SelectListCompaction → Rendering → Round
token_round sql [] token_index compactions r = done (returns none)
token_round sql (t ∷ ts) token_index compactions r =
    round_with (token_index + 1) compactions (render_token sql r t)

unfoldable pub render_round :
    Str → List Token → (token_index : ℕ) → List SelectListCompaction → Rendering → Round
render_round sql tokens token_index [] r =
    token_round sql (drop token_index tokens) token_index [] r
render_round sql tokens token_index (c ∷ cs) r =
    if token_index == c.start
    then skip_round sql tokens c cs r
    else token_round sql (drop token_index tokens) token_index (c ∷ cs) r

abbrev pub after_round :
    ((token_index : ℕ) → List SelectListCompaction → Rendering → Outcome (Option Str))
    → Round
    → Outcome (Option Str)
after_round loop (done result) = result
after_round loop (next token_index compactions r) = loop token_index compactions r

unfoldable pub render_loop :
    (fuel : ℕ)
    → Str
    → List Token
    → (token_index : ℕ) → List SelectListCompaction
    → Rendering
    → Outcome (Option Str)
render_loop zero sql tokens token_index compactions r = unfinished
render_loop (suc fuel) sql tokens token_index compactions r =
    let more =
      after_round (render_loop fuel sql tokens)
        (render_round sql tokens token_index compactions r) in
    if ltb token_index (length tokens) then more else returns (some r.out)

abbrev pub render_with :
    Str → List Token → Option (List SelectListCompaction) → Outcome (Option Str)
render_with sql tokens none = returns none
render_with sql tokens (some compactions) =
    render_loop (suc (length tokens)) sql tokens 0 compactions
      (record { next_placeholder = first_placeholder tokens; out = []; previous_end = none })

-- Each round goes at least one token on.
unfoldable pub render : Str → List Token → Outcome (Option Str)
render sql tokens = render_with sql tokens (select_list_compactions sql tokens)
