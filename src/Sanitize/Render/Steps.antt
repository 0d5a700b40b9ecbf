-- ===== src/Sanitize/Render/Steps.antt =====
-- `render` of src/sanitize.rs on one token of each of two statements that differ in constants.
use pg_otel.Prelude.{
  ℕ, zero, suc, ◌+◌, ◌≡◌, refl, sym, ap, ap₂, subst, ◌∙◌, inl, inr, Bool-cases, Option, none, some,
  List, [], ◌∷◌, drop, drop-nil, arith,
}
use pg_otel.Prelude.Int.{ℤ}
use pg_otel.Prelude.Text.{get_range}
use pg_otel.Span.{Str}
use pg_otel.Sanitize.Tokens.{Token, TokenKind, constant, param, other}
use pg_otel.Sanitize.Compact.{SelectListCompaction}
use pg_otel.Sanitize.Render.{
  Rendering, after_kind, is_before, is_gap, token_text, append_text, render_text, render_token,
  Round, done, next, round_with, token_round,
}
use pg_otel.Sanitize.Render.Masks.{SameText}
use pg_otel.Sanitize.Render.Alike.{SameTokens, no_tokens, one_token}

module _ (sql sql' : Str) where
  -- Renderings that agree, with tokens to go.
  pub record SameRendering (ts ts' : List Token) (r r' : Rendering) : Type 0 where
    pub placeholder : r.next_placeholder ≡ r'.next_placeholder
    pub text : r.out ≡ r'.out
    pub tokens : SameTokens sql sql' r.previous_end r'.previous_end ts ts'

  abbrev pub SomeRendering : (ts ts' : List Token) → Option Rendering → Option Rendering → Type 0
  SomeRendering ts ts' none none = Unit
  SomeRendering ts ts' none (some r') = ⊥
  SomeRendering ts ts' (some r) none = ⊥
  SomeRendering ts ts' (some r) (some r') = SameRendering ts ts' r r'

  token_text-SameText :
      (p p' : ℤ) (t t' : Token) (k k' : TokenKind)
      → p ≡ p'
      → k ≡ k'
      → SameText k (get_range sql t.start t.end) (get_range sql' t'.start t'.end)
      → token_text sql p t k ≡ token_text sql' p' t' k'
  token_text-SameText p p' t t' k k' e f h =
      ap₂ (λ q kind. token_text sql q t kind) e f
      ∙ same k' (
          subst
            (λ kind. SameText kind (get_range sql t.start t.end) (get_range sql' t'.start t'.end)) f
            h)
    where
      same :
          (k : TokenKind)
          → SameText k (get_range sql t.start t.end) (get_range sql' t'.start t'.end)
          → token_text sql p' t k ≡ token_text sql' p' t' k
      same constant h = refl
      same (param n) h = h
      same other h = h

  render_text-Same :
      (r r' : Rendering) (t t' : Token) (ts ts' : List Token) (x y : Option Str)
      → x ≡ y
      → r.next_placeholder ≡ r'.next_placeholder
      → r.out ≡ r'.out
      → t.kind ≡ t'.kind
      → is_before r.previous_end t.start ≡ is_before r'.previous_end t'.start
      → is_gap r.previous_end t.start ≡ is_gap r'.previous_end t'.start
      → SameTokens sql sql' (some t.end) (some t'.end) ts ts'
      → SomeRendering ts ts' (render_text r t x) (render_text r' t' y)
  render_text-Same r r' t t' ts ts' none none e p o k b g rest = tt
  render_text-Same r r' t t' ts ts' none (some y) e p o k b g rest = cc
  render_text-Same r r' t t' ts ts' (some x) none e p o k b g rest = cc
  render_text-Same r r' t t' ts ts' (some x) (some y) e p o k b g rest =
      let same : x ≡ y = ground arith in
      elim (Bool-cases (is_before r'.previous_end t'.start)) [
        | inl c ↦ rw (b ∙ c, c) tt
        | inr c ↦
            rw (b ∙ c, c)
              (record {
                placeholder = ap₂ after_kind k p;
                text =
                    ap (λ u. append_text u (is_gap r.previous_end t.start) x) o
                    ∙ ap₂ (append_text r'.out) g same;
                tokens = rest;
              })
      ]

  -- The same step of the loop in both statements.
  abbrev pub SameRound : (ts ts' : List Token) → Round → Round → Type 0
  SameRound ts ts' (done a) (done b) = a ≡ b
  SameRound ts ts' (done a) (next i cs r) = ⊥
  SameRound ts ts' (next i cs r) (done a) = ⊥
  SameRound ts ts' (next i cs r) (next j ds r') =
      (i ≡ j) × (cs ≡ ds) × SameRendering (drop i ts) (drop i ts') r r'

  pub round_with-Same :
      (ts ts' : List Token) (i : ℕ) (cs : List SelectListCompaction) (o o' : Option Rendering)
      → SomeRendering (drop i ts) (drop i ts') o o'
      → SameRound ts ts' (round_with i cs o) (round_with i cs o')
  round_with-Same ts ts' i cs none none h = refl
  round_with-Same ts ts' i cs none (some r') h = absurd h
  round_with-Same ts ts' i cs (some r) none h = absurd h
  round_with-Same ts ts' i cs (some r) (some r') h = (refl, refl, h)

  pub drop-drop : (i n : ℕ) (ts : List Token) → drop n (drop i ts) ≡ drop (i + n) ts
  drop-drop zero n ts = ap (λ k. drop k ts) (omega arith)
  drop-drop (suc i) n [] = drop-nil n ∙ sym (drop-nil (suc i + n))
  drop-drop (suc i) n (t ∷ ts) =
      let unsuc : suc (i + n) ≡ suc i + n = omega arith in
      drop-drop i n ts ∙ ap (λ k. drop k (t ∷ ts)) unsuc

  pub SomeRendering-move :
      (us us' vs vs' : List Token) (x y : Option Rendering)
      → us ≡ vs
      → us' ≡ vs'
      → SomeRendering us us' x y
      → SomeRendering vs vs' x y
  SomeRendering-move us us' vs vs' x y e f h =
      subst (λ ws. SomeRendering vs ws x y) f (subst (λ ws. SomeRendering ws us' x y) e h)

  token_round_at-Same :
      (all all' xs xs' : List Token) (i : ℕ) (cs : List SelectListCompaction) (r r' : Rendering)
      → drop 1 xs ≡ drop (i + 1) all
      → drop 1 xs' ≡ drop (i + 1) all'
      → r.next_placeholder ≡ r'.next_placeholder
      → r.out ≡ r'.out
      → {end end' : Option ℕ} → r.previous_end ≡ end
      → r'.previous_end ≡ end'
      → SameTokens sql sql' end end' xs xs'
      → SameRound all all' (token_round sql xs i cs r) (token_round sql' xs' i cs r')
  token_round_at-Same all all' xs xs' i cs r r' e f p o m m' (no_tokens end end') = refl
  token_round_at-Same all all' xs xs' i cs r r' e f p o m m'
        (one_token t t' {ts} {ts'} k x b g rest) =
      let text =
        token_text-SameText r.next_placeholder r'.next_placeholder t t' t.kind t'.kind p k x in
      let before = ap (λ z. is_before z t.start) m ∙ b ∙ sym (ap (λ z. is_before z t'.start) m') in
      let gap = ap (λ z. is_gap z t.start) m ∙ g ∙ sym (ap (λ z. is_gap z t'.start) m') in
      let rendered =
        render_text-Same r r' t t' ts ts' (token_text sql r.next_placeholder t t.kind)
          (token_text sql' r'.next_placeholder t' t'.kind) text p o k before gap rest in
      round_with-Same all all' (i + 1) cs (render_token sql r t) (render_token sql' r' t') (
        SomeRendering-move ts ts' (drop (i + 1) all) (drop (i + 1) all') (render_token sql r t)
          (render_token sql' r' t') e f rendered)

  pub token_round-Same :
      (ts ts' : List Token) (i : ℕ) (cs : List SelectListCompaction) (r r' : Rendering)
      → SameRendering (drop i ts) (drop i ts') r r'
      → SameRound ts ts'
          (token_round sql (drop i ts) i cs r)
          (token_round sql' (drop i ts') i cs r')
  token_round-Same ts ts' i cs r r' h =
      token_round_at-Same ts ts' (drop i ts) (drop i ts') i cs r r' (drop-drop i 1 ts)
        (drop-drop i 1 ts') h.placeholder h.text refl refl h.tokens
