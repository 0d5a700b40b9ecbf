-- ===== src/Trace/Parent/Decide.antt =====
-- `decide_parent` of src/postgres.rs on every statement, and on one with a comment in the sqlcommenter
-- format.
use pg_otel.Prelude.{
  ℕ, ◌≡◌, ◌≢◌, refl, ap, subst, ◌∙◌, ◌⊎◌, inl, inr, true, false, Bool-cases, Option, none, some,
  List, [], ◌∷◌, ◌++◌, append_assoc, append-nil, ◌==◌, if◌then◌else◌, All, All-append, All-mono,
  returns, arith,
}
use pg_otel.Prelude.Utf8.{is_utf8}
use pg_otel.Prelude.Lossy.{is_utf8-bytes}
use pg_otel.Span.{Str, TraceId}
use pg_otel.Trace.Nested.{
  Sql, text, comment, print, comments_of, unmarked, IsSql, block_comments-print,
}
use pg_otel.Trace.Values.{is_traceparent_key, traceparent}
use pg_otel.Trace.Values.Plain.{is_unreserved, is_plain, url_encode, url_encode-plain}
use pg_otel.Trace.Values.Formatted.{
  format_pair, format_pairs, wanted, push, wanted_values, IsPair, traceparent_values-format_pairs,
}
use pg_otel.Trace.Parent.{
  RemoteContext, Propagator, any_window, first_parsed, found_in, parsed_guc, skip, trace,
  from_remote, traceparent_from_comments, decide_parent,
}
use pg_otel.Trace.Parent.Keys.{Contains, Contains-append, any_window-Contains, url_encode-Contains}

-- A byte that no comment marker has.
abbrev Calm : ℕ → Type 0
Calm b = ((b == 47) ≡ false) × ((b == 42) ≡ false)

plain-Calm : (b : ℕ) → is_plain b ≡ true → Calm b
unfolding is_plain is_unreserved
plain-Calm b h = ground arith

unmarked-Calm : (s : Str) → All Calm s → unmarked (s ++ (42 ∷ [])) ≡ true
unfolding unmarked
unmarked-Calm [] h = refl
unmarked-Calm (a ∷ []) h = rw (h.0.0, h.0.1) refl
unmarked-Calm (a ∷ b ∷ s) h = rw (h.0.0, h.0.1) (unmarked-Calm (b ∷ s) h.1)

url_encode-Calm : (s : Str) → is_utf8 s ≡ true → All Calm (url_encode s)
url_encode-Calm s u =
    All-mono (λ b. is_plain b ≡ true) Calm (url_encode s) plain-Calm
      (url_encode-plain s (is_utf8-bytes s u))

format_pair-Calm :
    (key value rest : Str)
    → IsPair (key, value)
    → All Calm rest
    → All Calm (format_pair key value rest)
format_pair-Calm key value rest (h, u, v) r =
    All-append Calm (url_encode key) (61 ∷ 39 ∷ (url_encode value ++ (39 ∷ rest)))
      (url_encode-Calm key u)
      (
        (refl, refl),
        (
          (refl, refl),
          All-append Calm (url_encode value) (39 ∷ rest) (url_encode-Calm value v)
              ((refl, refl), r),
        ),
      )

format_pairs-Calm : (pairs : List (Str × Str)) → All IsPair pairs → All Calm (format_pairs pairs)
format_pairs-Calm [] h = tt
format_pairs-Calm ((key, value) ∷ []) h = format_pair-Calm key value [] h.0 tt
format_pairs-Calm ((key, value) ∷ p ∷ pairs) h =
    format_pair-Calm key value (44 ∷ format_pairs (p ∷ pairs)) h.0
      ((refl, refl), format_pairs-Calm (p ∷ pairs) h.1)

-- A key that is wanted is the key of a parent trace.
wanted-key : (key value : Str) → (is_traceparent_key key ≡ true) ⊎ (wanted key value ≡ none)
wanted-key key value = elim (Bool-cases (is_traceparent_key key)) [
  | inl e ↦ inl e
  | inr e ↦ inr (rw e refl)
]

format_pair-Contains :
    (key value rest : Str)
    → (is_traceparent_key key ≡ true) ⊎ Contains rest
    → Contains (format_pair key value rest)
format_pair-Contains key value rest (inl e) =
    Contains-append [] (url_encode key) (61 ∷ 39 ∷ (url_encode value ++ (39 ∷ rest)))
      (url_encode-Contains key e)
format_pair-Contains key value rest (inr c) =
    let front = url_encode key ++ (61 ∷ 39 ∷ (url_encode value ++ (39 ∷ []))) in
    let parts : front ++ (rest ++ []) ≡ format_pair key value rest =
      ap (λ u. front ++ u) (append-nil rest)
      ∙ append_assoc (url_encode key) (61 ∷ 39 ∷ (url_encode value ++ (39 ∷ []))) rest
      ∙ ap (λ u. url_encode key ++ (61 ∷ 39 ∷ u))
          (append_assoc (url_encode value) (39 ∷ []) rest) in
    subst Contains parts (Contains-append front rest [] c)

-- Pairs with a wanted value have a key of a parent trace.
format_pairs-Contains :
    (pairs : List (Str × Str)) → wanted_values pairs ≢ [] → Contains (format_pairs pairs)
format_pairs-Contains [] h = absurd (h refl)
format_pairs-Contains ((key, value) ∷ []) h =
    format_pair-Contains key value []
      (elim (wanted-key key value) [ inl e ↦ inl e | inr e ↦ absurd (h (ap (λ v. push v []) e)) ])
format_pairs-Contains ((key, value) ∷ p ∷ pairs) h =
    format_pair-Contains key value (44 ∷ format_pairs (p ∷ pairs)) (elim (wanted-key key value) [
      | inl e ↦ inl e
      | inr e ↦ inr (
          behind_comma (p ∷ pairs) (
            format_pairs-Contains (p ∷ pairs)
              (λ f. h (ap (λ v. push v (wanted_values (p ∷ pairs))) e ∙ f))))
    ])
  where
    behind_comma :
        (pairs : List (Str × Str))
        → Contains (format_pairs pairs)
        → Contains (44 ∷ format_pairs pairs)
    behind_comma pairs c =
        subst Contains (ap (◌∷◌ 44) (append-nil (format_pairs pairs)))
          (Contains-append (44 ∷ []) (format_pairs pairs) [] c)

-- A statement whose first comment has pairs in the sqlcommenter format.
abbrev pub commented : (front : Str) → List (Str × Str) → (rest : Sql) → Sql
commented front pairs rest = comment front (text (format_pairs pairs)) rest

commented-Contains :
    (front : Str) (pairs : List (Str × Str)) (rest : Sql)
    → wanted_values pairs ≢ []
    → Contains (print (commented front pairs rest))
commented-Contains front pairs rest h = subst Contains (append_assoc front (47 ∷ 42 ∷ []) _) (
    Contains-append (front ++ (47 ∷ 42 ∷ [])) (format_pairs pairs) (42 ∷ 47 ∷ print rest)
      (format_pairs-Contains pairs h))

module _ (propagator : Propagator) where
  some_values :
      (values : List Str) (context : RemoteContext)
      → first_parsed propagator values ≡ some context
      → values ≢ []
  some_values [] context e = cc
  some_values (v ∷ values) context e = λ f. cc

  found_in-first :
      (pairs : List (Str × Str)) (comments : List Str) (context : RemoteContext)
      → All IsPair pairs
      → first_parsed propagator (wanted_values pairs) ≡ some context
      → found_in propagator (format_pairs pairs ∷ comments) ≡ returns (some context)
  found_in-first pairs comments context h e = rw (traceparent_values-format_pairs pairs h, e) refl

  traceparent_from_comments-commented :
      (front : Str) (pairs : List (Str × Str)) (rest : Sql) (context : RemoteContext)
      → unmarked (front ++ (47 ∷ [])) ≡ true
      → All IsPair pairs
      → IsSql [] rest
      → is_utf8 (print (commented front pairs rest)) ≡ true
      → first_parsed propagator (wanted_values pairs) ≡ some context
      → traceparent_from_comments propagator (print (commented front pairs rest))
        ≡ returns (some context)
  unfolding traceparent_from_comments
  traceparent_from_comments-commented front pairs rest context f h r u e =
      let statement = print (commented front pairs rest) in
      let window : any_window traceparent statement ≡ true =
        any_window-Contains statement
          (commented-Contains front pairs rest (some_values (wanted_values pairs) context e)) in
      let comments =
        block_comments-print (commented front pairs rest)
          (f, unmarked-Calm (format_pairs pairs) (format_pairs-Calm pairs h), r) u in
      rw (window, comments) (found_in-first pairs (comments_of rest) context h e)

  -- A statement whose first comment has percent encoded `key='value'` pairs with commas between them
  -- continues the first trace context among their parent trace values, or is skipped if that one is
  -- not sampled, whatever comments follow. The pairs have such a context, and no key is empty; the
  -- setting gives no context; the text before the comment opens none, nor does it end in `*`; the
  -- comments in the rest are closed; and the statement is UTF-8.
  pub decide_parent-commented :
      (root : TraceId) (guc : Option Str) (front : Str) (pairs : List (Str × Str)) (rest : Sql)
      (context : RemoteContext)
      → parsed_guc propagator guc ≡ none
      → unmarked (front ++ (47 ∷ [])) ≡ true
      → All IsPair pairs
      → IsSql [] rest
      → is_utf8 (print (commented front pairs rest)) ≡ true
      → first_parsed propagator (wanted_values pairs) ≡ some context
      → decide_parent propagator root guc (some (print (commented front pairs rest)))
        ≡ returns (if context.is_sampled then trace (from_remote context) else skip)
  unfolding decide_parent
  decide_parent-commented root guc front pairs rest context g f h r u e =
      rw (g, traceparent_from_comments-commented front pairs rest context f h r u e) refl
