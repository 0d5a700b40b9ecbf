-- ===== src/Trace/Parent/Total.antt =====
-- `decide_parent` of src/postgres.rs on every statement: it returns, and what it returns.
use pg_otel.Prelude.{
  ◌≡◌, refl, sym, ap, subst, ◌∙◌, inl, inr, true, false, Bool-cases, replicate, Option, none, some,
  returns, arith,
}
use pg_otel.Prelude.Utf8.{is_utf8}
use pg_otel.Span.{Str, TraceId}
use pg_otel.Trace.Parent.{
  RemoteContext, Propagator, TraceDecision, skip, trace, from_remote, remote_parent, parsed_guc,
  parse_traceparent, decision, decide_parent,
}
use pg_otel.Trace.Parent.Sources.{
  IsSource, set, commented, extracted, IsUsable, Search, parse_traceparent-usable, Search-parse,
  IsParsed-mono, Finds, IsInText, traceparent_from_comments-Finds,
}

-- A query text that Rust's `str` can hold, if there is one.
abbrev pub IsText : Option Str → Type 0
IsText none = Unit
IsText (some text) = is_utf8 text ≡ true

-- The answer for a remote parent, or for none.
pub data Answers (root : TraceId) : Option RemoteContext → TraceDecision → Type 0 where
  rooted :
      Answers root none
        (trace (record { trace_id = root; span_id = replicate 8 0; is_remote = false }))
  continued :
      (context : RemoteContext)
      → context.is_sampled ≡ true
      → Answers root (some context) (
          trace
            (record { trace_id = context.trace_id; span_id = context.span_id; is_remote = true }))
  skipped :
      (context : RemoteContext) → context.is_sampled ≡ false → Answers root (some context) skip

decision-Answers :
    (root : TraceId) (remote : Option RemoteContext) → Answers root remote (decision root remote)
decision-Answers root none = rooted
decision-Answers root (some context) = elim (Bool-cases context.is_sampled) [
  | inl e ↦
      let traced : decision root (some context) ≡ trace (from_remote context) = rw e refl in
      subst (Answers root (some context)) (sym traced) (continued context e)
  | inr e ↦
      let none_made : decision root (some context) ≡ skip = rw e refl in
      subst (Answers root (some context)) (sym none_made) (skipped context e)
]

module _ (propagator : Propagator) where
  -- What `decide_parent` does: it looks for a remote parent in the setting and in the comments, the
  -- setting first, and answers by what it found.
  pub record Decided (root : TraceId) (guc query_text : Option Str) (answer : TraceDecision)
      : Type 0 where
    pub remote : Option RemoteContext
    pub found : Search propagator (IsSource guc query_text) remote
    pub preferred :
        (value : Str)
        → guc ≡ some value
        → IsUsable propagator value
        → remote ≡ some (extracted propagator value)
    pub answered : Answers root remote answer

  Search-guc :
      (guc : Option Str) → Search propagator (λ v. guc ≡ some v) (parsed_guc propagator guc)
  Search-guc none = λ v h. cc
  Search-guc (some value) =
      from (parse_traceparent propagator value) (Search-parse propagator value)
    where
      from :
          (found : Option RemoteContext)
          → Search propagator (λ v. v ≡ value) found
          → Search propagator (λ v. some value ≡ some v) found
      from none h = λ v same. let back : v ≡ value = ground arith in h v back
      from (some context) h =
          IsParsed-mono propagator (λ v. v ≡ value) (λ v. some value ≡ some v) context
            (λ v e. ap some (sym e)) h

  Search-source :
      (guc query_text : Option Str) (text : Str) (found : Option RemoteContext)
      → query_text ≡ some text
      → ((v : Str) → guc ≡ some v → ¬ IsUsable propagator v)
      → Search propagator (IsInText propagator text) found
      → Search propagator (IsSource guc query_text) found
  Search-source guc query_text text none e none_set h = λ v source usable. elim source [
    | set f ↦ none_set v f usable
    | commented other comments f window blocks k ↦
        let same : other ≡ text = ground arith in
        h v (subst (λ t. IsInText propagator t v) same (window, comments, blocks, k)) usable
  ]
  Search-source guc query_text text (some context) e none_set h =
      IsParsed-mono propagator (IsInText propagator text) (IsSource guc query_text) context
        (λ v (window, comments, blocks, k). commented text comments e window blocks k) h

  -- The remote parent of a statement.
  remote_parent-Finds :
      (guc : Option Str) (from_guc : Option RemoteContext) (query_text : Option Str)
      → IsText query_text
      → Search propagator (λ v. guc ≡ some v) from_guc
      → Finds propagator (IsSource guc query_text) (remote_parent propagator from_guc query_text)
  remote_parent-Finds guc (some remote) query_text u h = (
    some remote,
    refl,
    IsParsed-mono propagator _ (IsSource guc query_text) remote (λ v e. set e) h,
  )
  remote_parent-Finds guc none none u h = (
    none,
    refl,
    λ v source usable. elim source [
      | set f ↦ h v f usable
      | commented other comments f window blocks k ↦ absurd (ground arith)
    ],
  )
  remote_parent-Finds guc none (some text) u h =
      let (found, e, k) = traceparent_from_comments-Finds propagator text u in
      (found, e, Search-source guc (some text) text found refl h k)

  remote_parent-preferred :
      (value : Str) (query_text : Option Str) (remote : Option RemoteContext)
      → IsUsable propagator value
      → remote_parent propagator (parsed_guc propagator (some value)) query_text ≡ returns remote
      → remote ≡ some (extracted propagator value)
  remote_parent-preferred value query_text remote usable e =
      let read = parse_traceparent-usable propagator value usable in
      let given : returns (some (extracted propagator value)) ≡ returns remote =
        sym (ap (λ r. remote_parent propagator r query_text) read) ∙ e in
      ground arith

  -- For every setting and every statement whose text is UTF-8, `decide_parent` returns an answer. It
  -- continues the trace of a sampled context and skips the statement for one that is not sampled; the
  -- context is what the propagator reads in a value that has the W3C shape and is valid to the
  -- propagator, and that is the setting, if that is usable, or stands in a comment of a text that
  -- has `traceparent` in it. Only if no such value is usable the statement starts a new trace.
  pub decide_parent_lem :
      (root : TraceId) (guc query_text : Option Str)
      → IsText query_text
      → (answer : TraceDecision) × (decide_parent propagator root guc query_text ≡ returns answer)
        × Decided root guc query_text answer
  unfolding decide_parent
  decide_parent_lem root guc query_text u =
      let (remote, e, h) =
        remote_parent-Finds guc (parsed_guc propagator guc) query_text u (Search-guc guc) in
      (
        decision root remote,
        rw e refl,
        record {
          remote = remote;
          found = h;
          preferred = λ value f usable.
              remote_parent-preferred value query_text remote usable (
                ap (λ g. remote_parent propagator (parsed_guc propagator g) query_text) (sym f)
                ∙ e);
          answered = decision-Answers root remote;
        },
      )
