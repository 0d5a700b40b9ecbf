-- ===== src/Sanitize/Render/Masks.antt =====
-- What `render` of src/sanitize.rs makes of two statements that differ in the text of their constants.
use pg_otel.Prelude.{
  ℕ, ◌+◌, ◌≡◌, refl, sym, ap, ◌∙◌, ◌⊎◌, inl, inr, false, Option, none, some, List, [], ◌∷◌,
}
use pg_otel.Prelude.Int.{ℤ}
use pg_otel.Prelude.Text.{bytes_eq, eq_ignore_ascii_case}
use pg_otel.Span.{Str}
use pg_otel.Sanitize.Tokens.{TokenKind, constant, param, other}
use pg_otel.Sanitize.Compact.{
  open_paren, close_paren, comma, semicolon, select_word, select_list_terminator, depth_after,
  with_depths, select_loop, find_compactions, ends_list, or_first,
}

-- A text that is no word or sign that the search for columns looks for.
pub record Opaque (text : Str) : Type 0 where
  pub opens : bytes_eq text open_paren ≡ false
  pub closes : bytes_eq text close_paren ≡ false
  pub ends : bytes_eq text semicolon ≡ false
  pub separates : bytes_eq text comma ≡ false
  pub selects : eq_ignore_ascii_case text select_word ≡ false
  pub terminates : select_list_terminator text ≡ false

-- Equal texts, or two texts of constants.
abbrev pub Like : Str → Str → Type 0
Like a b = (a ≡ b) ⊎ (Opaque a × Opaque b)

-- What a token stands for in two statements.
abbrev pub SameText : TokenKind → Option Str → Option Str → Type 0
SameText constant (some a) (some b) = Opaque a × Opaque b
SameText constant a b = a ≡ b
SameText (param number) a b = a ≡ b
SameText other a b = a ≡ b

-- The answers of the tests on a text.
record Tests (a b : Str) : Type 0 where
  depth : (d : ℤ) → depth_after a d ≡ depth_after b d
  list_end : ends_list a ≡ ends_list b
  column : bytes_eq a comma ≡ bytes_eq b comma
  select : eq_ignore_ascii_case a select_word ≡ eq_ignore_ascii_case b select_word

depth_after-Opaque : (a : Str) (d : ℤ) → Opaque a → depth_after a d ≡ d
depth_after-Opaque a d o = rw (o.opens, o.closes) refl

ends_list-Opaque : (a : Str) → Opaque a → ends_list a ≡ false
ends_list-Opaque a o = rw (o.closes, o.ends, o.terminates) refl

Tests-of : (a b : Str) → Like a b → Tests a b
Tests-of a b (inl e) = record {
  depth = λ d. ap (λ t. depth_after t d) e;
  list_end = ap ends_list e;
  column = ap (λ t. bytes_eq t comma) e;
  select = ap (λ t. eq_ignore_ascii_case t select_word) e;
}
Tests-of a b (inr (o, p)) = record {
  depth = λ d. depth_after-Opaque a d o ∙ sym (depth_after-Opaque b d p);
  list_end = ends_list-Opaque a o ∙ sym (ends_list-Opaque b p);
  column = o.separates ∙ sym p.separates;
  select = o.selects ∙ sym p.selects;
}

abbrev pub AllLike : List Str → List Str → Type 0
AllLike [] [] = Unit
AllLike [] (b ∷ ys) = ⊥
AllLike (a ∷ xs) [] = ⊥
AllLike (a ∷ xs) (b ∷ ys) = Like a b × AllLike xs ys

select_loop-Like :
    (s d : ℤ) (index : ℕ) (first : Option ℕ) (columns : ℕ) (xs ys : List Str)
    → AllLike xs ys
    → select_loop s index first columns (with_depths d xs)
      ≡ select_loop s index first columns (with_depths d ys)
unfolding select_loop
select_loop-Like s d index first columns [] [] h = refl
select_loop-Like s d index first columns [] (b ∷ ys) h = absurd h
select_loop-Like s d index first columns (a ∷ xs) [] h = absurd h
select_loop-Like s d index first columns (a ∷ xs) (b ∷ ys) h =
    let t = Tests-of a b h.0 in
    let rest = λ (f : Option ℕ) (c : ℕ).
      ap (λ e. select_loop s (index + 1) f c (with_depths e xs)) (t.depth d)
      ∙ select_loop-Like s (depth_after b d) (index + 1) f c xs ys h.1 in
    rw (t.list_end, t.column, rest first columns, rest (or_first first index) (columns + 1)) refl

pub find_compactions-Like :
    (d : ℤ) (index : ℕ) (xs ys : List Str)
    → AllLike xs ys
    → find_compactions index (with_depths d xs) ≡ find_compactions index (with_depths d ys)
unfolding find_compactions
find_compactions-Like d index [] [] h = refl
find_compactions-Like d index [] (b ∷ ys) h = absurd h
find_compactions-Like d index (a ∷ xs) [] h = absurd h
find_compactions-Like d index (a ∷ xs) (b ∷ ys) h =
    let t = Tests-of a b h.0 in
    let loop =
      ap (λ e. select_loop d (index + 1) none 0 (with_depths e xs)) (t.depth d)
      ∙ select_loop-Like d (depth_after b d) (index + 1) none 0 xs ys h.1 in
    let rest =
      ap (λ e. find_compactions (index + 1) (with_depths e xs)) (t.depth d)
      ∙ find_compactions-Like (depth_after b d) (index + 1) xs ys h.1 in
    rw (t.select, loop, rest) refl
