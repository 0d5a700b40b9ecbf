-- ===== src/Trace/Values/Total.antt =====
-- The loop of `traceparent_values` ends: every round shortens the text.
use pg_otel.Prelude.{
  ℕ, zero, suc, ◌+◌, ◌≤◌, ◌<◌, ◌≡◌, refl, ap, ◌∙◌, Bool, Bool-cases, inl, inr, ◌⊎◌, ◌||◌, ltb, ◌==◌,
  Option, none, some, List, [], ◌∷◌, length, length-drop, Outcome, returns, arith,
}
use pg_otel.Prelude.White.{white_len, dropped_len, trim_from, trim_start, nothing_else}
use pg_otel.Span.{Str}
use pg_otel.Trace.Values.{
  split_until, split_quote, split_value, strip_equals, is_quote, is_comma, ends_key, quoted,
  before_some, len_utf8, keyed, from_key, values_round, push_value, after_trim, values_loop,
  traceparent_values,
}

pub zero-cases : (n : ℕ) → (n ≡ 0) ⊎ ((m : ℕ) × (n ≡ suc m))
zero-cases zero = inl refl
zero-cases (suc m) = inr (m, refl)

pub length-trim_from :
    (also : ℕ → Bool) (skip : ℕ) (s : Str) → length (trim_from also skip s) ≤ length s
unfolding trim_from
length-trim_from also skip [] = omega arith
length-trim_from also (suc skip) (b ∷ bs) = omega (arith, length-trim_from also skip bs)
length-trim_from also zero (b ∷ bs) = elim (zero-cases (dropped_len also b bs)) [
  | inl e ↦ rw (e, trim_from) (omega arith)
  | inr (m, e) ↦ rw (e, trim_from) (omega (arith, length-trim_from also m bs))
]

pub length-split_until :
    (stop : ℕ → Bool) (s : Str)
    → length ((split_until stop s).0) + length ((split_until stop s).1) ≡ length s
unfolding split_until
length-split_until stop [] = refl
length-split_until stop (b ∷ bs) = elim (Bool-cases (stop b || ltb 0 (white_len (b ∷ bs)))) [
  | inl e ↦ rw e (omega arith)
  | inr e ↦ rw e (omega (arith, length-split_until stop bs))
]

length-before_some :
    (b : ℕ) (o : Option (Str × Str)) → length ((quoted (before_some b o)).1) ≡ length ((quoted o).1)
length-before_some b none = refl
length-before_some b (some parts) = refl

length-split_quote : (q : ℕ) (s : Str) → length ((quoted (split_quote q s)).1) ≤ length s
unfolding split_quote
length-split_quote q [] = omega arith
length-split_quote q (b ∷ bs) = elim (Bool-cases (b == q)) [
  | inl e ↦ rw e (omega arith)
  | inr e ↦ rw e (omega (arith, length-before_some b (split_quote q bs), length-split_quote q bs))
]

length-split_value : (s : Str) → length ((split_value s).1) ≤ length s
unfolding split_value
length-split_value [] = omega arith
length-split_value (b ∷ bs) = elim (Bool-cases (is_quote b)) [
  | inl e ↦ rw e (omega (arith, length-split_quote b bs))
  | inr e ↦ rw e (omega (arith, length-split_until is_comma (b ∷ bs)))
]

strip_equals-cases :
    (s : Str)
    → (strip_equals s ≡ none) ⊎ ((t : Str) × (strip_equals s ≡ some t) × (length t < length s))
strip_equals-cases [] = inl refl
strip_equals-cases (b ∷ bs) = elim (Bool-cases (b == 61)) [
  | inl e ↦ inr (bs, rw e refl, omega arith)
  | inr e ↦ inl (rw e refl)
]

length-keyed :
    (key after : Str)
    → length ((keyed key after (strip_equals (trim_start after))).1) ≤ length after
length-keyed key after = elim (strip_equals-cases (trim_start after)) [
  | inl e ↦ rw e (omega arith)
  | inr (t, e, l) ↦ rw e (
      omega (
        arith,
        l,
        length-trim_from nothing_else 0 after,
        length-trim_from nothing_else 0 t,
        length-split_value (trim_start t),
      ))
]

length-from_key :
    (rest : Str) (parts : Str × Str)
    → length parts.0 + length parts.1 ≡ length rest
    → 0 < length rest
    → length ((from_key rest parts).1) < length rest
length-from_key [] ([], after) e h = absurd (omega arith)
length-from_key (b ∷ bs) ([], after) e h =
    let some_bytes : 0 < len_utf8 b = ground arith in
    omega (arith, length-drop (len_utf8 b) (b ∷ bs))
length-from_key rest (k ∷ key, after) e h = omega (arith, length-keyed (k ∷ key) after)

-- A round takes at least a byte.
pub length-values_round : (b : ℕ) (bs : Str) → length ((values_round (b ∷ bs)).1) < length (b ∷ bs)
unfolding values_round
length-values_round b bs =
    length-from_key (b ∷ bs) (split_until ends_key (b ∷ bs)) (length-split_until ends_key (b ∷ bs))
      (omega arith)

push_value-returns :
    (value : Option Str) (values : List Str)
    → (all : List Str) × (push_value value (returns values) ≡ returns all)
push_value-returns none values = (values, refl)
push_value-returns (some value) values = (value ∷ values, refl)

-- What the loop makes of a trimmed text.
after_trim-returns :
    (loop : Str → Outcome (List Str)) (s : Str)
    → ((t : Str) → length t < length s → (values : List Str) × (loop t ≡ returns values))
    → (values : List Str) × (after_trim loop s ≡ returns values)
after_trim-returns loop [] next = ([], refl)
after_trim-returns loop (b ∷ bs) next =
    let (value, remaining) = values_round (b ∷ bs) in
    let (values, e) = next remaining (length-values_round b bs) in
    let (all, f) = push_value-returns value values in (all, ap (push_value value) e ∙ f)

values_loop-returns :
    (fuel : ℕ) (s : Str)
    → length s < fuel
    → (values : List Str) × (values_loop fuel s ≡ returns values)
unfolding values_loop
values_loop-returns zero s h = absurd (omega arith)
values_loop-returns (suc fuel) s h =
    after_trim-returns (values_loop fuel) (trim_from is_comma 0 s)
      (λ t l. values_loop-returns fuel t (omega (arith, length-trim_from is_comma 0 s)))

-- The search of a comment for parent traces ends on every text.
pub traceparent_values_total :
    (comment : Str) → (values : List Str) × (traceparent_values comment ≡ returns values)
unfolding traceparent_values
traceparent_values_total comment = values_loop-returns (suc (length comment)) comment (omega arith)
