-- ===== src/Trace/Parent/Sources.antt =====
-- Where `decide_parent` of src/postgres.rs looks for a remote parent, and what it finds there.
use pg_otel.Prelude.{
  ◌≡◌, refl, subst, ◌⊎◌, inl, inr, Bool, true, false, Bool-cases, Option, none, some, List, [], ◌∷◌,
  Outcome, returns, arith,
}
use pg_otel.Prelude.Utf8.{is_utf8}
use pg_otel.Prelude.White.{trim}
use pg_otel.Span.{Str}
use pg_otel.Trace.{block_comments}
use pg_otel.Trace.Comments.{texts_of, block_comments_total}
use pg_otel.Trace.Values.{traceparent, traceparent_values}
use pg_otel.Trace.Values.Total.{traceparent_values_total}
use pg_otel.Trace.Parent.{
  RemoteContext, Propagator, any_window, first_parsed, found_in, some_or, parse_traceparent,
  extractor_get, extractor_keys, valid_context, has_traceparent_shape, traceparent_from_comments,
}

-- An element of a list.
abbrev pub IsIn : {A : Type 0} → A → List A → Type 0
IsIn a [] = ⊥
IsIn a (x ∷ xs) = (a ≡ x) ⊎ IsIn a xs

-- A value that stands for `traceparent` in a comment.
abbrev pub IsValueOf : (value comment : Str) → Type 0
IsValueOf value comment =
    (values : List Str) × (traceparent_values comment ≡ returns values) × IsIn value values

abbrev pub IsCommented : (value : Str) → (comments : List Str) → Type 0
IsCommented value [] = ⊥
IsCommented value (comment ∷ comments) = IsValueOf value comment ⊎ IsCommented value comments

-- Where a value may come from: the setting, or a comment of a text in which the key stands as such.
pub data IsSource (guc query_text : Option Str) (value : Str) : Type 0 where
  set : guc ≡ some value → IsSource guc query_text value
  commented :
      (text : Str) (comments : List Str)
      → query_text ≡ some text
      → any_window traceparent text ≡ true
      → block_comments text ≡ returns comments
      → IsCommented value comments
      → IsSource guc query_text value

module _ (propagator : Propagator) where
  -- The context that the propagator reads in a value.
  abbrev pub extracted : Str → RemoteContext
  extracted value = propagator (extractor_get value) extractor_keys

  -- A value of the right shape that the propagator reads as a valid context.
  abbrev pub IsUsable : Str → Type 0
  IsUsable value = (has_traceparent_shape (trim value) ≡ true) × ((extracted value).is_valid ≡ true)

  -- Where a remote parent comes from: a usable value of a source `S`.
  pub record IsParsed (S : Str → Type 0) (context : RemoteContext) : Type 0 where
    pub value : Str
    pub source : S value
    pub usable : IsUsable value
    pub same : extracted value ≡ context

  -- The remote parent comes from the source; if there is none, no value of the source is usable.
  abbrev pub Search : (Str → Type 0) → Option RemoteContext → Type 0
  Search S none = (value : Str) → S value → ¬ IsUsable value
  Search S (some context) = IsParsed S context

  pub parse_traceparent-usable :
      (value : Str) → IsUsable value → parse_traceparent propagator value ≡ some (extracted value)
  unfolding parse_traceparent
  parse_traceparent-usable value (shape, valid) = rw (shape, valid) refl

  parse_traceparent-IsParsed :
      (value : Str) (context : RemoteContext)
      → parse_traceparent propagator value ≡ some context
      → IsParsed (λ v. v ≡ value) context
  unfolding parse_traceparent
  parse_traceparent-IsParsed value context e =
      let shape : has_traceparent_shape (trim value) ≡ true = ground arith in
      let valid : valid_context (extracted value) ≡ some context = ground arith in
      let same : extracted value ≡ context = ground arith in
      record { value = value; source = refl; usable = (shape, ground arith); same = same }

  pub Search-parse : (value : Str) → Search (λ v. v ≡ value) (parse_traceparent propagator value)
  Search-parse value = from (parse_traceparent propagator value) refl
    where
      from :
          (found : Option RemoteContext)
          → parse_traceparent propagator value ≡ found
          → Search (λ v. v ≡ value) found
      from none e = λ v same usable.
          let read = parse_traceparent-usable value (subst IsUsable same usable) in
          absurd (ground arith)
      from (some context) e = parse_traceparent-IsParsed value context e

  pub IsParsed-mono :
      (S T : Str → Type 0) (context : RemoteContext)
      → ((v : Str) → S v → T v)
      → IsParsed S context
      → IsParsed T context
  IsParsed-mono S T context f p = record {
    value = p.value;
    source = f p.value p.source;
    usable = p.usable;
    same = p.same;
  }

  -- A search of two sources, one behind the other.
  Search-or :
      (S T U : Str → Type 0) (a b : Option RemoteContext)
      → ((v : Str) → S v → U v)
      → ((v : Str) → T v → U v)
      → ((v : Str) → U v → S v ⊎ T v)
      → Search S a
      → Search T b
      → Search U (some_or propagator a b)
  Search-or S T U none none f g split h k =
      λ v u usable. elim (split v u) [ inl s ↦ h v s usable | inr t ↦ k v t usable ]
  Search-or S T U none (some context) f g split h k = IsParsed-mono T U context g k
  Search-or S T U (some context) b f g split h k = IsParsed-mono S U context f h

  Search-first : (values : List Str) → Search (λ v. IsIn v values) (first_parsed propagator values)
  Search-first [] = λ v h usable. h
  Search-first (value ∷ values) =
      Search-or (λ v. v ≡ value) (λ v. IsIn v values) (λ v. IsIn v (value ∷ values))
        (parse_traceparent propagator value) (first_parsed propagator values) (λ v h. inl h)
        (λ v h. inr h) (λ v h. h) (Search-parse value) (Search-first values)

  -- A search that returns, with what it found.
  abbrev pub Finds : (Str → Type 0) → Outcome (Option RemoteContext) → Type 0
  Finds S search = (found : Option RemoteContext) × (search ≡ returns found) × Search S found

  -- The values of one comment.
  Search-values :
      (comment : Str) (values : List Str)
      → traceparent_values comment ≡ returns values
      → Search (λ v. IsValueOf v comment) (first_parsed propagator values)
  Search-values comment values e = from (first_parsed propagator values) (Search-first values)
    where
      from :
          (found : Option RemoteContext)
          → Search (λ v. IsIn v values) found
          → Search (λ v. IsValueOf v comment) found
      from none h = λ v (others, f, k).
          let same : others ≡ values = ground arith in h v (subst (IsIn v) same k)
      from (some context) h =
          IsParsed-mono (λ v. IsIn v values) (λ v. IsValueOf v comment) context
            (λ v k. (values, e, k)) h

  found_in-Finds :
      (comments : List Str) → Finds (λ v. IsCommented v comments) (found_in propagator comments)
  found_in-Finds [] = (none, refl, λ v h usable. h)
  found_in-Finds (c ∷ comments) =
      let (values, e) = traceparent_values_total c in
      let (others, g, k) = found_in-Finds comments in
      (
        some_or propagator (first_parsed propagator values) others,
        from values e (first_parsed propagator values) refl others g,
        Search-or (λ v. IsValueOf v c) (λ v. IsCommented v comments)
            (λ v. IsCommented v (c ∷ comments)) (first_parsed propagator values) others
            (λ v h. inl h) (λ v h. inr h) (λ v h. h) (Search-values c values e) k,
      )
    where
      from :
          (values : List Str)
          → traceparent_values c ≡ returns values
          → (first : Option RemoteContext) → first_parsed propagator values ≡ first
          → (others : Option RemoteContext) → found_in propagator comments ≡ returns others
          → found_in propagator (c ∷ comments)
            ≡ returns (some_or propagator (first_parsed propagator values) others)
      from values e none f others g = rw (e, f, g) refl
      from values e (some context) f others g = rw (e, f) refl

  -- The values that the search of the text finds.
  abbrev pub IsInText : Str → Str → Type 0
  IsInText text value =
      (any_window traceparent text ≡ true)
      × (comments : List Str) × (block_comments text ≡ returns comments)
      × IsCommented value comments

  pub traceparent_from_comments-Finds :
      (text : Str)
      → is_utf8 text ≡ true
      → Finds (IsInText text) (traceparent_from_comments propagator text)
  unfolding traceparent_from_comments
  traceparent_from_comments-Finds text u = elim (Bool-cases (any_window traceparent text)) [
    | inl e ↦
        let (ranges, found, _) = block_comments_total text u in
        let (context, f, h) = found_in-Finds (texts_of text ranges) in
        (context, rw (e, found) f, from (texts_of text ranges) found e context h)
    | inr e ↦ (none, rw e refl, λ v h usable. cc_false (any_window traceparent text) e h.0)
  ]
    where
      cc_false : (b : Bool) → b ≡ false → b ≡ true → ⊥
      cc_false b e f = ground arith

      from :
          (comments : List Str)
          → block_comments text ≡ returns comments
          → any_window traceparent text ≡ true
          → (found : Option RemoteContext) → Search (λ v. IsCommented v comments) found
          → Search (IsInText text) found
      from comments f e none h = λ v (_, others, g, k).
          let same : others ≡ comments = ground arith in h v (subst (IsCommented v) same k)
      from comments f e (some context) h =
          IsParsed-mono (λ v. IsCommented v comments) (IsInText text) context
            (λ v k. (e, comments, f, k)) h
