-- ===== src/Sanitize/Render/Alike.antt =====
-- Two lists of tokens that `render` of src/sanitize.rs cannot tell apart, and what it reads of them.
use pg_otel.Prelude.{
  ℕ, zero, suc, ◌≡◌, refl, ap, ap₂, subst, inl, inr, true, false, Bool, Option, none, some, List,
  [], ◌∷◌, length, take, drop, arith,
}
use pg_otel.Prelude.Int.{ℤ, pos}
use pg_otel.Prelude.Text.{get_range}
use pg_otel.Span.{Str}
use pg_otel.Sanitize.Tokens.{Token, TokenKind, constant, param, other}
use pg_otel.Sanitize.Compact.{both, token_texts, compactions_of, sort_by_start, non_overlapping}
use pg_otel.Sanitize.Render.{
  highest_of, highest_param, after_kind, is_before, is_gap, skip_one, skip_tokens,
}
use pg_otel.Sanitize.Render.Masks.{Like, AllLike, SameText, find_compactions-Like}

-- Tokens of two statements, behind tokens that end at `end` and `end'`: of the same kinds, at
-- places that touch, overlap or leave a gap in the same way, with the same texts but for constants.
pub data SameTokens (sql sql' : Str)
    : (end end' : Option ℕ) → List Token → List Token → Type 0 where
  no_tokens : (end end' : Option ℕ) → SameTokens sql sql' end end' [] []
  one_token :
      {end end' : Option ℕ} (t t' : Token) {ts ts' : List Token}
      → t.kind ≡ t'.kind
      → SameText t.kind (get_range sql t.start t.end) (get_range sql' t'.start t'.end)
      → is_before end t.start ≡ is_before end' t'.start
      → is_gap end t.start ≡ is_gap end' t'.start
      → SameTokens sql sql' (some t.end) (some t'.end) ts ts'
      → SameTokens sql sql' end end' (t ∷ ts) (t' ∷ ts')

-- Texts of all tokens in both statements, alike, or in neither.
abbrev SameTexts : Option (List Str) → Option (List Str) → Type 0
SameTexts none none = Unit
SameTexts none (some ys) = ⊥
SameTexts (some xs) none = ⊥
SameTexts (some xs) (some ys) = AllLike xs ys

-- Texts of one token in both statements, alike, or in neither.
abbrev OneLike : Option Str → Option Str → Type 0
OneLike none none = Unit
OneLike none (some b) = ⊥
OneLike (some a) none = ⊥
OneLike (some a) (some b) = Like a b

OneLike-equal : (x y : Option Str) → x ≡ y → OneLike x y
OneLike-equal none none e = tt
OneLike-equal none (some b) e = cc
OneLike-equal (some a) none e = cc
OneLike-equal (some a) (some b) e = inl (ground arith)

OneLike-of : (k : TokenKind) (x y : Option Str) → SameText k x y → OneLike x y
OneLike-of constant none y h = OneLike-equal none y h
OneLike-of constant (some a) none h = OneLike-equal (some a) none h
OneLike-of constant (some a) (some b) h = inr h
OneLike-of (param n) x y h = OneLike-equal x y h
OneLike-of other x y h = OneLike-equal x y h

both-SameTexts :
    (x y : Option Str) (xs ys : Option (List Str))
    → OneLike x y
    → SameTexts xs ys
    → SameTexts (both x xs) (both y ys)
both-SameTexts none none xs ys h r = tt
both-SameTexts none (some b) xs ys h r = absurd h
both-SameTexts (some a) none xs ys h r = absurd h
both-SameTexts (some a) (some b) none none h r = tt
both-SameTexts (some a) (some b) none (some ys) h r = absurd r
both-SameTexts (some a) (some b) (some xs) none h r = absurd r
both-SameTexts (some a) (some b) (some xs) (some ys) h r = (h, r)

pub compactions-SameTexts :
    (xs ys : Option (List Str)) → SameTexts xs ys → compactions_of xs ≡ compactions_of ys
compactions-SameTexts none none h = refl
compactions-SameTexts none (some ys) h = absurd h
compactions-SameTexts (some xs) none h = absurd h
compactions-SameTexts (some xs) (some ys) h =
    ap (λ cs. some (non_overlapping 0 (sort_by_start cs))) (find_compactions-Like (pos 0) 0 xs ys h)

module _ (sql sql' : Str) where
  pub token_texts-SameTokens :
      {end end' : Option ℕ} {ts ts' : List Token}
      → SameTokens sql sql' end end' ts ts'
      → SameTexts (token_texts sql ts) (token_texts sql' ts')
  unfolding token_texts
  token_texts-SameTokens (no_tokens end end') = tt
  token_texts-SameTokens (one_token t t' {ts} {ts'} k x b g rest) =
      both-SameTexts (get_range sql t.start t.end) (get_range sql' t'.start t'.end)
        (token_texts sql ts) (token_texts sql' ts')
        (OneLike-of t.kind (get_range sql t.start t.end) (get_range sql' t'.start t'.end) x)
        (token_texts-SameTokens rest)

  pub length-SameTokens :
      {end end' : Option ℕ} {ts ts' : List Token}
      → SameTokens sql sql' end end' ts ts'
      → length ts ≡ length ts'
  length-SameTokens (no_tokens end end') = refl
  length-SameTokens (one_token t t' k x b g rest) = ap suc (length-SameTokens rest)

  pub highest-SameTokens :
      {end end' : Option ℕ} {ts ts' : List Token}
      → SameTokens sql sql' end end' ts ts'
      → highest_param ts ≡ highest_param ts'
  highest-SameTokens (no_tokens end end') = refl
  highest-SameTokens (one_token t t' k x b g rest) = ap₂ highest_of k (highest-SameTokens rest)

  -- What skipping `n` tokens leaves.
  abbrev pub SameSkip :
      (ts ts' : List Token) → Option (ℤ × Option ℕ) → Option (ℤ × Option ℕ) → Type 0
  SameSkip ts ts' none none = Unit
  SameSkip ts ts' none (some q) = ⊥
  SameSkip ts ts' (some p) none = ⊥
  SameSkip ts ts' (some p) (some q) = (p.0 ≡ q.0) × SameTokens sql sql' p.1 q.1 ts ts'

  skip_one-SameSkip :
      (ts ts' : List Token) (x y : Option Str) (b b' : Bool) (r r' : Option (ℤ × Option ℕ))
      → OneLike x y
      → b ≡ b'
      → SameSkip ts ts' r r'
      → SameSkip ts ts' (skip_one x b r) (skip_one y b' r')
  skip_one-SameSkip ts ts' none none b b' r r' h e s = tt
  skip_one-SameSkip ts ts' none (some y) b b' r r' h e s = absurd h
  skip_one-SameSkip ts ts' (some x) none b b' r r' h e s = absurd h
  skip_one-SameSkip ts ts' (some x) (some y) true true r r' h e s = tt
  skip_one-SameSkip ts ts' (some x) (some y) true false r r' h e s = cc
  skip_one-SameSkip ts ts' (some x) (some y) false true r r' h e s = cc
  skip_one-SameSkip ts ts' (some x) (some y) false false r r' h e s = s

  pub skip_tokens-SameTokens :
      (n : ℕ) (p : ℤ) {end end' : Option ℕ} {ts ts' : List Token}
      → SameTokens sql sql' end end' ts ts'
      → SameSkip
          (drop n ts)
          (drop n ts')
          (skip_tokens sql p end (take n ts))
          (skip_tokens sql' p end' (take n ts'))
  unfolding skip_tokens
  skip_tokens-SameTokens zero p h = (refl, h)
  skip_tokens-SameTokens (suc n) p (no_tokens end end') = (refl, no_tokens end end')
  skip_tokens-SameTokens (suc n) p (one_token t t' {ts} {ts'} k x b g rest) =
      let after = skip_tokens-SameTokens n (after_kind t.kind p) rest in
      skip_one-SameSkip (drop n ts) (drop n ts') (get_range sql t.start t.end)
        (get_range sql' t'.start t'.end) _ _ _ _
        (OneLike-of t.kind (get_range sql t.start t.end) (get_range sql' t'.start t'.end) x) b
        (subst
          (λ kind.
            SameSkip (drop n ts) (drop n ts')
              (skip_tokens sql (after_kind t.kind p) (some t.end) (take n ts))
              (skip_tokens sql' (after_kind kind p) (some t'.end) (take n ts')))
          k after)
