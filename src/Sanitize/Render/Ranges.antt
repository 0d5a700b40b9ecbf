-- ===== src/Sanitize/Render/Ranges.antt =====
-- `select_list_compactions` of src/sanitize.rs: the ranges that it returns lie within the tokens.
use pg_otel.Prelude.{
  ℕ, suc, ◌+◌, ◌≤◌, ◌<◌, ◌≡◌, refl, ap, subst, not, Option, none, some, List, [], ◌∷◌, leb, length,
  arith, Bool-cases, inl, inr, All,
}
use pg_otel.Prelude.Int.{ℤ, pos}
use pg_otel.Prelude.Text.{get_range, bytes_eq, eq_ignore_ascii_case}
use pg_otel.Span.{Str}
use pg_otel.Sanitize.Tokens.{Token}
use pg_otel.Sanitize.Compact.{
  SelectListCompaction, both, token_texts, depth_after, with_depths, select_loop, find_compactions,
  push_compaction, insert_by_start, sort_by_start, non_overlapping, compactions_of,
  select_list_compactions, same_depth, ends_list, comma, select_word, or_first,
}

-- A range of at least one of `n` tokens.
abbrev pub IsRange : ℕ → SelectListCompaction → Type 0
IsRange n c = (c.start < c.end) × (c.end ≤ n)

-- What the loop behind a `SELECT` returns from token `index` on, with `rest` tokens to go.
abbrev Bounded : (index rest : ℕ) → Option ℕ × ℕ × ℕ → Type 0
Bounded index rest (none, columns, end) = Unit
Bounded index rest (some start, columns, end) = (start < end) × (end ≤ index + rest)

abbrev Before : ℕ → Option ℕ → Type 0
Before index none = Unit
Before index (some start) = start < index

Before-or_first :
    (index : ℕ) (first : Option ℕ) → Before index first → Before (index + 1) (or_first first index)
Before-or_first index none h = omega arith
Before-or_first index (some f) h = omega arith

Before-suc : (index : ℕ) (first : Option ℕ) → Before index first → Before (index + 1) first
Before-suc index none h = tt
Before-suc index (some f) h = omega arith

Bounded-now :
    (index rest : ℕ) (first : Option ℕ) (columns : ℕ)
    → Before index first
    → Bounded index rest (first, columns, index)
Bounded-now index rest none columns h = tt
Bounded-now index rest (some f) columns h = (h, omega arith)

Bounded-suc :
    (index rest : ℕ) (out : Option ℕ × ℕ × ℕ)
    → Bounded (index + 1) rest out
    → Bounded index (suc rest) out
Bounded-suc index rest (none, columns, end) h = tt
Bounded-suc index rest (some start, columns, end) h = omega arith

select_loop-Bounded :
    (d : ℤ) (index : ℕ) (first : Option ℕ) (columns : ℕ) (rest : List (Str × ℤ))
    → Before index first
    → Bounded index (length rest) (select_loop d index first columns rest)
unfolding select_loop
select_loop-Bounded d index first columns [] h = Bounded-now index 0 first columns h
select_loop-Bounded d index first columns ((text, depth) ∷ rest) h =
    let passed =
      Bounded-suc index (length rest) _
        (select_loop-Bounded d (index + 1) first columns rest (Before-suc index first h)) in
    let counted = Bounded-suc index (length rest) _ (
      select_loop-Bounded d (index + 1) (or_first first index) (columns + 1) rest
        (Before-or_first index first h)) in
    elim (Bool-cases (not (same_depth depth d))) [
      | inl a ↦ rw a passed
      | inr a ↦ elim (Bool-cases (ends_list text)) [
        | inl b ↦ rw (a, b) (Bounded-now index (suc (length rest)) first columns h)
        | inr b ↦ elim (Bool-cases (bytes_eq text comma)) [
          | inl c ↦ rw (a, b, c) counted
          | inr c ↦ rw (a, b, c) passed
        ]
      ]
    ]

push_compaction-IsRange :
    (index rest : ℕ) (out : Option ℕ × ℕ × ℕ) (cs : List SelectListCompaction)
    → Bounded index rest out
    → All (IsRange (index + rest)) cs
    → All (IsRange (index + rest)) (push_compaction out cs)
push_compaction-IsRange index rest (none, columns, end) cs h a = a
push_compaction-IsRange index rest (some start, columns, end) cs h a = (h, a)

find_compactions-IsRange :
    (n index : ℕ) (texts : List (Str × ℤ))
    → index + length texts ≡ n
    → All (IsRange n) (find_compactions index texts)
unfolding find_compactions
find_compactions-IsRange n index [] e = tt
find_compactions-IsRange n index ((text, depth) ∷ rest) e =
    let others = find_compactions-IsRange n (index + 1) rest (omega arith) in
    let found =
      subst
        (λ m. All (IsRange m) (
          push_compaction (select_loop depth (index + 1) none 0 rest)
            (find_compactions (index + 1) rest)))
        (omega arith)
        (push_compaction-IsRange (index + 1) (length rest)
          (select_loop depth (index + 1) none 0 rest) (find_compactions (index + 1) rest)
          (select_loop-Bounded depth (index + 1) none 0 rest tt)
          (subst (λ m. All (IsRange m) (find_compactions (index + 1) rest)) (omega arith)
            others)) in
    elim (Bool-cases (eq_ignore_ascii_case text select_word)) [
      | inl a ↦ rw a found
      | inr a ↦ rw a others
    ]

module _ (P : SelectListCompaction → Type 0) where
  insert_by_start-All :
      (c : SelectListCompaction) (ds : List SelectListCompaction)
      → P c
      → All P ds
      → All P (insert_by_start c ds)
  insert_by_start-All c [] h a = (h, tt)
  insert_by_start-All c (d ∷ ds) h a = elim (Bool-cases (leb c.start d.start)) [
    | inl e ↦ rw e (h, a)
    | inr e ↦ rw e (a.0, insert_by_start-All c ds h a.1)
  ]

  sort_by_start-All : (cs : List SelectListCompaction) → All P cs → All P (sort_by_start cs)
  unfolding sort_by_start
  sort_by_start-All [] a = tt
  sort_by_start-All (c ∷ cs) a =
      insert_by_start-All c (sort_by_start cs) a.0 (sort_by_start-All cs a.1)

  non_overlapping-All :
      (previous_end : ℕ) (cs : List SelectListCompaction)
      → All P cs
      → All P (non_overlapping previous_end cs)
  unfolding non_overlapping
  non_overlapping-All previous_end [] a = tt
  non_overlapping-All previous_end (c ∷ cs) a = elim (Bool-cases (leb previous_end c.start)) [
    | inl e ↦ rw e (a.0, non_overlapping-All c.end cs a.1)
    | inr e ↦ rw e (non_overlapping-All previous_end cs a.1)
  ]

length-with_depths : (d : ℤ) (texts : List Str) → length (with_depths d texts) ≡ length texts
length-with_depths d [] = refl
length-with_depths d (t ∷ ts) = ap suc (length-with_depths (depth_after t d) ts)

-- As many texts as tokens, if there are texts.
abbrev Length : ℕ → Option (List Str) → Type 0
Length n none = Unit
Length n (some texts) = length texts ≡ n

Length-both :
    (n : ℕ) (text : Option Str) (texts : Option (List Str))
    → Length n texts
    → Length (suc n) (both text texts)
Length-both n none texts h = tt
Length-both n (some t) none h = tt
Length-both n (some t) (some ts) h = omega (arith, h)

token_texts-Length :
    (sql : Str) (tokens : List Token) → Length (length tokens) (token_texts sql tokens)
unfolding token_texts
token_texts-Length sql [] = refl
token_texts-Length sql (t ∷ ts) =
    Length-both (length ts) (get_range sql t.start t.end) (token_texts sql ts)
      (token_texts-Length sql ts)

-- Ranges of the tokens, if there are compactions.
abbrev pub AreRanges : ℕ → Option (List SelectListCompaction) → Type 0
AreRanges n none = Unit
AreRanges n (some cs) = All (IsRange n) cs

compactions_of-AreRanges :
    (n : ℕ) (texts : Option (List Str)) → Length n texts → AreRanges n (compactions_of texts)
compactions_of-AreRanges n none h = tt
compactions_of-AreRanges n (some texts) h =
    let found =
      find_compactions-IsRange n 0 (with_depths (pos 0) texts)
        (omega (arith, length-with_depths (pos 0) texts, h)) in
    non_overlapping-All (IsRange n) 0 _ (sort_by_start-All (IsRange n) _ found)

pub select_list_compactions-AreRanges :
    (sql : Str) (tokens : List Token)
    → AreRanges (length tokens) (select_list_compactions sql tokens)
unfolding select_list_compactions
select_list_compactions-AreRanges sql tokens =
    compactions_of-AreRanges (length tokens) (token_texts sql tokens)
      (token_texts-Length sql tokens)
