-- ===== src/Sanitize/Render/Total.antt =====
-- `render` of src/sanitize.rs ends on every text and every list of tokens.
use pg_otel.Prelude.{
  ℕ, zero, suc, ◌+◌, ◌-◌, ◌<◌, ◌≡◌, refl, Option, none, some, List, [], ◌∷◌, ◌==◌, length, drop,
  slice, arith, Bool-cases, inl, inr, le→ltb, lt→ltb, All, Outcome, returns,
}
use pg_otel.Span.{Str}
use pg_otel.Sanitize.Tokens.{Token}
use pg_otel.Sanitize.Compact.{SelectListCompaction, select_list_compactions}
use pg_otel.Sanitize.Render.{
  Rendering, Round, done, next, round_with, token_round, render_round, render_loop, render_with,
  render, render_token, render_skipped, skip_tokens, after_round,
}
use native.Mathlib.Decide.{dec_lt}
use pg_otel.Sanitize.Render.Ranges.{IsRange, AreRanges, select_list_compactions-AreRanges}

-- A round that ends with a result, or goes on from a later token with ranges.
abbrev Advances : (n token_index : ℕ) → Round → Type 0
Advances n token_index (done result) = (text : Option Str) × (result ≡ returns text)
Advances n token_index (next token_index' cs r) = (token_index < token_index') × All (IsRange n) cs

round_with-Advances :
    (n token_index token_index' : ℕ) (cs : List SelectListCompaction) (r : Option Rendering)
    → token_index < token_index'
    → All (IsRange n) cs
    → Advances n token_index (round_with token_index' cs r)
round_with-Advances n i i' cs none h a = (none, refl)
round_with-Advances n i i' cs (some r) h a = (h, a)

token_round-Advances :
    (sql : Str) (ts : List Token) (n token_index : ℕ) (cs : List SelectListCompaction)
    (r : Rendering)
    → All (IsRange n) cs
    → Advances n token_index (token_round sql ts token_index cs r)
token_round-Advances sql [] n i cs r a = (none, refl)
token_round-Advances sql (t ∷ ts) n i cs r a =
    round_with-Advances n i (i + 1) cs (render_token sql r t) (omega arith) a

render_round-Advances :
    (sql : Str) (tokens : List Token) (token_index : ℕ) (cs : List SelectListCompaction)
    (r : Rendering)
    → All (IsRange (length tokens)) cs
    → Advances (length tokens) token_index (render_round sql tokens token_index cs r)
unfolding render_round
render_round-Advances sql tokens i [] r a =
    token_round-Advances sql (drop i tokens) (length tokens) i [] r tt
render_round-Advances sql tokens i (c ∷ cs) r a = elim (Bool-cases (i == c.start)) [
  | inr e ↦ rw e (token_round-Advances sql (drop i tokens) (length tokens) i (c ∷ cs) r a)
  | inl e ↦
      let here : i ≡ c.start = ground arith in
      let rendered = render_skipped r c (
        skip_tokens sql r.next_placeholder r.previous_end
          (slice tokens c.start (c.end - c.start))) in
      rw (e, le→ltb c.end c.start (omega arith), le→ltb (length tokens) c.end a.0.1)
        (round_with-Advances (length tokens) i c.end cs rendered (omega arith) a.1)
]

after_round-returns :
    (n token_index : ℕ) (loop : ℕ → List SelectListCompaction → Rendering → Outcome (Option Str))
    (round : Round)
    → Advances n token_index round
    → ((token_index' : ℕ) (cs : List SelectListCompaction) (r : Rendering)
        → token_index < token_index'
        → All (IsRange n) cs
        → (text : Option Str) × (loop token_index' cs r ≡ returns text))
    → (text : Option Str) × (after_round loop round ≡ returns text)
after_round-returns n i loop (done result) h k = h
after_round-returns n i loop (next i' cs r) h k = k i' cs r h.0 h.1

render_loop-returns :
    (fuel : ℕ) (sql : Str) (tokens : List Token) (token_index : ℕ) (cs : List SelectListCompaction)
    (r : Rendering)
    → length tokens < fuel + token_index
    → 0 < fuel
    → All (IsRange (length tokens)) cs
    → (text : Option Str) × (render_loop fuel sql tokens token_index cs r ≡ returns text)
unfolding render_loop
render_loop-returns zero sql tokens i cs r h p a = absurd (omega arith)
render_loop-returns (suc fuel) sql tokens i cs r h p a = elim (dec_lt i (length tokens)) [
  | no at_end ↦ (some r.out, rw (le→ltb i (length tokens) (omega arith)) refl)
  | yes more ↦
      let (text, e) =
        after_round-returns (length tokens) i (render_loop fuel sql tokens)
          (render_round sql tokens i cs r) (render_round-Advances sql tokens i cs r a)
          (λ i' cs r l a.
            render_loop-returns fuel sql tokens i' cs r (omega arith) (omega arith) a) in
      (text, rw (lt→ltb i (length tokens) more) e)
]

render_with-returns :
    (sql : Str) (tokens : List Token) (cs : Option (List SelectListCompaction))
    → AreRanges (length tokens) cs
    → (text : Option Str) × (render_with sql tokens cs ≡ returns text)
render_with-returns sql tokens none a = (none, refl)
render_with-returns sql tokens (some cs) a =
    render_loop-returns (suc (length tokens)) sql tokens 0 cs _ (omega arith) (omega arith) a

-- Rendering ends without a panic on every text and every list of tokens, with a text or with
-- none: the ranges of the left-out columns lie within the tokens, and each round goes on.
pub render_total :
    (sql : Str) (tokens : List Token) → (text : Option Str) × (render sql tokens ≡ returns text)
unfolding render
render_total sql tokens =
    render_with-returns sql tokens (select_list_compactions sql tokens)
      (select_list_compactions-AreRanges sql tokens)
