-- ===== src/Sanitize/Render/Noninterference.antt =====
-- `render` of src/sanitize.rs on two statements that differ in the text of their constants.
use pg_otel.Prelude.{
  ℕ, zero, suc, ◌+◌, ◌-◌, ◌≡◌, refl, sym, ap, ap₂, subst, ◌∙◌, inl, inr, ◌||◌, Bool-cases, Option,
  none, some, List, [], ◌∷◌, ◌++◌, ltb, ◌==◌, length, take, drop, Outcome, arith,
}
use pg_otel.Prelude.Int.{ℤ}
use pg_otel.Span.{Str}
use pg_otel.Sanitize.Tokens.{Token}
use pg_otel.Sanitize.Compact.{SelectListCompaction, token_texts, select_list_compactions}
use pg_otel.Sanitize.Render.{
  placeholder_above, first_placeholder, Rendering, skip_tokens, omitted_columns, render_skipped,
  Round, done, next, skip_round, render_round, after_round, render_loop, render_with, render,
}
use pg_otel.Sanitize.Render.Alike.{
  SameTokens, token_texts-SameTokens, compactions-SameTexts, length-SameTokens, highest-SameTokens,
  SameSkip, skip_tokens-SameTokens,
}
use pg_otel.Sanitize.Render.Steps.{
  SameRendering, SomeRendering, SomeRendering-move, SameRound, round_with-Same, token_round-Same,
  drop-drop,
}

module _ (sql sql' : Str) where
  render_skipped-Same :
      (us us' : List Token) (c : SelectListCompaction) (r r' : Rendering)
      (x y : Option (ℤ × Option ℕ))
      → r.out ≡ r'.out
      → SameSkip sql sql' us us' x y
      → SomeRendering sql sql' us us' (render_skipped r c x) (render_skipped r' c y)
  render_skipped-Same us us' c r r' none none o h = tt
  render_skipped-Same us us' c r r' none (some q) o h = absurd h
  render_skipped-Same us us' c r r' (some p) none o h = absurd h
  render_skipped-Same us us' c r r' (some (p, e)) (some (q, f)) o h = record {
    placeholder = h.0;
    text = ap (λ out. out ++ omitted_columns c.additional_columns) o;
    tokens = h.1;
  }

  skip_round-Same :
      (ts ts' : List Token) (c : SelectListCompaction) (cs : List SelectListCompaction)
      (r r' : Rendering)
      → length ts ≡ length ts'
      → SameRendering sql sql' (drop c.start ts) (drop c.start ts') r r'
      → SameRound sql sql' ts ts' (skip_round sql ts c cs r) (skip_round sql' ts' c cs r')
  skip_round-Same ts ts' c cs r r' l h =
      let n = c.end - c.start in
      let us = drop c.start ts in
      let us' = drop c.start ts' in
      let range = ap (λ k. ltb c.end c.start || ltb k c.end) l in
      let x = render_skipped r c (skip_tokens sql r.next_placeholder r.previous_end (take n us)) in
      let y =
        render_skipped r' c (skip_tokens sql' r'.next_placeholder r'.previous_end (take n us')) in
      elim (Bool-cases (ltb c.end c.start || ltb (length ts) c.end)) [
        | inl bad ↦ rw (bad, sym range ∙ bad) refl
        | inr good ↦
            let until : c.start + (c.end - c.start) ≡ c.end = ground arith in
            let skipped =
              subst
                (λ p.
                  SameSkip sql sql' (drop n us) (drop n us')
                    (skip_tokens sql r.next_placeholder r.previous_end (take n us))
                    (skip_tokens sql' p r'.previous_end (take n us')))
                h.placeholder (skip_tokens-SameTokens sql sql' n r.next_placeholder h.tokens) in
            let rendered =
              SomeRendering-move sql sql' (drop n us) (drop n us') (drop c.end ts) (drop c.end ts')
                x y (drop-drop sql sql' c.start n ts ∙ ap (λ k. drop k ts) until)
                (drop-drop sql sql' c.start n ts' ∙ ap (λ k. drop k ts') until)
                (render_skipped-Same (drop n us) (drop n us') c r r'
                  (skip_tokens sql r.next_placeholder r.previous_end (take n us))
                  (skip_tokens sql' r'.next_placeholder r'.previous_end (take n us')) h.text
                  skipped) in
            rw (good, sym range ∙ good) (round_with-Same sql sql' ts ts' c.end cs x y rendered)
      ]

  render_round-Same :
      (ts ts' : List Token) (i : ℕ) (cs : List SelectListCompaction) (r r' : Rendering)
      → length ts ≡ length ts'
      → SameRendering sql sql' (drop i ts) (drop i ts') r r'
      → SameRound sql sql' ts ts' (render_round sql ts i cs r) (render_round sql' ts' i cs r')
  unfolding render_round
  render_round-Same ts ts' i [] r r' l h = token_round-Same sql sql' ts ts' i [] r r' h
  render_round-Same ts ts' i (c ∷ cs) r r' l h = elim (Bool-cases (i == c.start)) [
    | inl e ↦
        let here : i ≡ c.start = ground arith in
        rw (e) (
          skip_round-Same ts ts' c cs r r' l
            (subst (λ k. SameRendering sql sql' (drop k ts) (drop k ts') r r') here h))
    | inr e ↦ rw (e) (token_round-Same sql sql' ts ts' i (c ∷ cs) r r' h)
  ]

  after_round-Same :
      (ts ts' : List Token)
      (loop loop' : (i : ℕ) → List SelectListCompaction → Rendering → Outcome (Option Str))
      (a b : Round)
      → ((i : ℕ) (cs : List SelectListCompaction) (r r' : Rendering)
          → SameRendering sql sql' (drop i ts) (drop i ts') r r'
          → loop i cs r ≡ loop' i cs r')
      → SameRound sql sql' ts ts' a b
      → after_round loop a ≡ after_round loop' b
  after_round-Same ts ts' loop loop' (done a) (done b) same h = h
  after_round-Same ts ts' loop loop' (done a) (next j ds r') same h = absurd h
  after_round-Same ts ts' loop loop' (next i cs r) (done b) same h = absurd h
  after_round-Same ts ts' loop loop' (next i cs r) (next j ds r') same h =
      same i cs r r' h.2 ∙ ap₂ (λ k es. loop' k es r') h.0 h.1

  render_loop-Same :
      (fuel : ℕ) (ts ts' : List Token) (i : ℕ) (cs : List SelectListCompaction) (r r' : Rendering)
      → length ts ≡ length ts'
      → SameRendering sql sql' (drop i ts) (drop i ts') r r'
      → render_loop fuel sql ts i cs r ≡ render_loop fuel sql' ts' i cs r'
  unfolding render_loop
  render_loop-Same zero ts ts' i cs r r' l h = refl
  render_loop-Same (suc fuel) ts ts' i cs r r' l h =
      let more =
        after_round-Same ts ts' (render_loop fuel sql ts) (render_loop fuel sql' ts')
          (render_round sql ts i cs r) (render_round sql' ts' i cs r')
          (λ j ds s s'. render_loop-Same fuel ts ts' j ds s s' l)
          (render_round-Same ts ts' i cs r r' l h) in
      rw (more, h.text, l) refl

  render_with-Same :
      (ts ts' : List Token) (o o' : Option (List SelectListCompaction))
      → o ≡ o'
      → SameTokens sql sql' none none ts ts'
      → render_with sql ts o ≡ render_with sql' ts' o'
  unfolding first_placeholder
  render_with-Same ts ts' none none e h = refl
  render_with-Same ts ts' none (some cs) e h = cc
  render_with-Same ts ts' (some cs) none e h = cc
  render_with-Same ts ts' (some cs) (some ds) e h =
      let same : cs ≡ ds = ground arith in
      let l = length-SameTokens sql sql' h in
      let first : Rendering = record {
        next_placeholder = first_placeholder ts;
        out = [];
        previous_end = none;
      } in
      let first' : Rendering = record {
        next_placeholder = first_placeholder ts';
        out = [];
        previous_end = none;
      } in
      ap₂ (λ n es. render_loop (suc n) sql ts 0 es first) l same
      ∙ render_loop-Same (suc (length ts')) ts ts' 0 ds first first' l (record {
        placeholder = ap placeholder_above (highest-SameTokens sql sql' h);
        text = refl;
        tokens = h;
      })

  -- Two statements whose tokens are of the same kinds, touch, overlap or leave a gap in the same
  -- way, and have the same texts but for constants, which are no parenthesis, comma, semicolon or
  -- keyword of a select list, are rendered alike, whatever the text of their constants.
  pub render_masks_constants :
      (ts ts' : List Token) → SameTokens sql sql' none none ts ts' → render sql ts ≡ render sql' ts'
  unfolding render select_list_compactions
  render_masks_constants ts ts' h =
      render_with-Same ts ts' (select_list_compactions sql ts) (select_list_compactions sql' ts')
        (compactions-SameTexts (token_texts sql ts) (token_texts sql' ts')
          (token_texts-SameTokens sql sql' h))
        h
