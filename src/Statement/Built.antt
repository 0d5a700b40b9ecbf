-- ===== src/Statement/Built.antt =====
-- The spans that src/postgres.rs builds when a statement ends: which there are, and when there are none.
use pg_otel.Prelude.{
  ℕ, ◌+◌, ◌≡◌, refl, ap, ◌∙◌, ◌⊎◌, inl, inr, Bool, true, false, Bool-cases, Option, none, some,
  List, [], ◌∷◌, ◌++◌, Outcome, returns, ◌>>=◌,
}
use pg_otel.Prelude.Int.{ℤ}
use pg_otel.Prelude.Lossy.{from_utf8_lossy, from_utf8_lossy-utf8}
use pg_otel.Span.{Bytes, Str, SpanRecord}
use pg_otel.Span.Walk.{WalkSummary}
use pg_otel.Span.Walk.Recursion.{IsHeight}
use pg_otel.Sanitize.Export.Limits.{IsShort, sanitize_total}
use pg_otel.PlanSpans.Collect.{Collected, children_of_plan, visit_plan}
use pg_otel.PlanSpans.Connected.{collect_plan_spans-IsCollected}
use pg_otel.Trace.{meets_slow_query_threshold}
use pg_otel.Trace.Parent.{ParentContext, TraceDecision, skip, trace, decide_parent}
use pg_otel.Trace.Parent.Total.{IsText, decide_parent_lem}
use pg_otel.Statement.{
  QueryDesc, Backend, off, normalize_for, query_text_max_len, location_of, pg_str, sanitized_for,
  exported_query_text_and_id, from_query_of, from_query_with, from_query, query_link, with_query,
  traced_spans, decided_spans, timed_spans, is_explained, tracing_enabled_here, statement_spans,
  get_max_plan_spans,
}
use pg_otel.Statement.Described.{
  IsEnabled, tracing_enabled_sound, tracing_enabled_complete, meets_sound, meets_complete, disabled,
  explained, untimed, fast, unsampled, wall_start, Traced, Made, nothing, made,
}

pg_str-IsText : (source_text : Option Bytes) → IsText (pg_str source_text)
pg_str-IsText none = tt
pg_str-IsText (some bytes) = from_utf8_lossy-utf8 bytes

module _ {N : Type 0} (backend : Backend N) (q : QueryDesc N) where
  sanitized_for_lem :
      (normalize : Option Bool)
      → (text : Option Str) × (sanitized_for backend q normalize ≡ returns text)
        × IsShort query_text_max_len text
        × (normalize ≡ none → text ≡ none)
  sanitized_for_lem none = (none, refl, tt, λ e. refl)
  sanitized_for_lem (some normalize) =
      let (location, len, id) = location_of q.planned in
      let (text, e, short) =
        sanitize_total backend.server_encoding_is_utf8 backend.scan backend.clean_query_text
          from_utf8_lossy q.source_text location len normalize query_text_max_len in
      (text, e, short, λ f. cc)

  -- The span of the query.
  from_query_lem :
      (total_ns : ℤ) (start : ℤ) (parent : ParentContext) (tables : List Str) (omitted : ℕ)
      → q.total_ns ≡ some total_ns
      → (text : Option Str) × (from_query backend q start parent tables omitted
          ≡ returns (
              some (
                from_query_of backend q total_ns start parent tables omitted
                  (text, (location_of q.planned).2))))
        × IsShort query_text_max_len text
        × (backend.query_text_mode ≡ off → text ≡ none)
  unfolding from_query exported_query_text_and_id
  from_query_lem total_ns start parent tables omitted timed =
      let (text, f, short, hidden) = sanitized_for_lem (normalize_for backend.query_text_mode) in
      let built = λ (t : Option Str × ℤ).
        some (from_query_of backend q total_ns start parent tables omitted t) in
      (
        text,
        ap (from_query_with backend q start parent tables omitted) timed
            ∙ ap
                (λ (o : Outcome (Option Str)).
                  o >>= (λ text. returns (text, (location_of q.planned).2)) >>= λ t.
                  returns (built t))
                f,
        short,
        λ m. hidden (ap normalize_for m ∙ unfold normalize_for in refl),
      )

  traced_spans_lem :
      (rank : N → ℕ) (total_ns : ℤ) (parent : ParentContext)
      → q.total_ns ≡ some total_ns
      → IsHeight
          (children_of_plan backend.view backend.random
            (wall_start backend q total_ns)
            (query_link backend (wall_start backend q total_ns) total_ns parent))
          (visit_plan backend.view backend.random
            (wall_start backend q total_ns)
            (query_link backend (wall_start backend q total_ns) total_ns parent))
          (get_max_plan_spans backend.max_plan_spans)
          rank
      → (steps : ℕ) × (spans : List SpanRecord) × ((more : ℕ)
          → traced_spans backend (steps + more) q total_ns parent ≡ returns (some spans))
        × Traced backend q total_ns parent spans
  traced_spans_lem rank total_ns parent timed ranked =
      let link = query_link backend (wall_start backend q total_ns) total_ns parent in
      let (steps, plan, e, c) =
        collect_plan_spans-IsCollected backend.view backend.random (wall_start backend q total_ns)
          link (get_max_plan_spans backend.max_plan_spans) rank q.planstate ranked in
      let (text, f, short, hidden) =
        from_query_lem total_ns (wall_start backend q total_ns) parent plan.1.tables plan.0.omitted
          timed in
      (
        steps,
        plan.1.spans
            ++ (from_query_of backend q total_ns (wall_start backend q total_ns) parent
                  plan.1.tables plan.0.omitted (text, (location_of q.planned).2)
                ∷ []),
        λ more.
            ap
              (λ (o : Outcome (WalkSummary × Collected)). o >>= λ plan.
                from_query backend q (wall_start backend q total_ns) parent plan.1.tables
                  plan.0.omitted
                >>= λ span. returns (with_query backend plan.1.spans span))
              (e more)
            ∙ ap
                (λ (o : Outcome (Option SpanRecord)).
                  o >>= λ span. returns (with_query backend plan.1.spans span))
                f,
        record {
          plan = plan;
          collected = c;
          query_text = text;
          short = short;
          hidden = hidden;
          span = _;
          described = record {
            trace_id = refl;
            parent_id = refl;
            span_id = refl;
            start_time = refl;
            end_time = refl;
            name = refl;
            attributes = refl;
          };
          whole = refl;
        },
      )

  -- The plan of the statement has a finite height, whatever the spans of the query and its start.
  abbrev pub IsFinite : (rank : N → ℕ) → Type 0
  IsFinite rank =
      (total_ns : ℤ) (parent : ParentContext)
      → IsHeight
          (children_of_plan backend.view backend.random (wall_start backend q total_ns)
            (query_link backend (wall_start backend q total_ns) total_ns parent))
          (visit_plan backend.view backend.random (wall_start backend q total_ns)
            (query_link backend (wall_start backend q total_ns) total_ns parent))
          (get_max_plan_spans backend.max_plan_spans) rank

  -- Code on fuel that comes to what is made of the statement.
  abbrev Makes : (ℕ → Outcome (Option (List SpanRecord))) → Type 0
  Makes code =
      (steps : ℕ) × (spans : Option (List SpanRecord)) × ((more : ℕ)
        → code (steps + more) ≡ returns spans)
      × Made backend q spans

  decided_lem :
      (rank : N → ℕ) (total_ns : ℤ) (answer : TraceDecision)
      → IsFinite rank
      → q.total_ns ≡ some total_ns
      → meets_slow_query_threshold total_ns backend.min_duration_ms ≡ true
      → decide_parent backend.propagator backend.random_trace_id backend.guc_traceparent
          (pg_str q.source_text)
        ≡ returns answer
      → Makes (λ fuel. decided_spans backend fuel q total_ns answer)
  decided_lem rank total_ns skip finite timed slow e =
      (0, none, (λ more. refl), nothing (unsampled e))
  decided_lem rank total_ns (trace parent) finite timed slow e =
      let (steps, spans, f, t) =
        traced_spans_lem rank total_ns parent timed (finite total_ns parent) in
      (
        steps,
        some spans,
        f,
        made total_ns parent spans timed (meets_sound total_ns backend.min_duration_ms slow) e t,
      )

  timed_lem :
      (rank : N → ℕ) (total : Option ℤ)
      → IsFinite rank
      → q.total_ns ≡ total
      → Makes (λ fuel. timed_spans backend fuel q total)
  timed_lem rank none finite timed = (0, none, (λ more. refl), nothing (untimed timed))
  timed_lem rank (some total_ns) finite timed =
      elim (Bool-cases (meets_slow_query_threshold total_ns backend.min_duration_ms)) [
        | inl e ↦
            let (answer, f, _) =
              decide_parent_lem backend.propagator backend.random_trace_id backend.guc_traceparent
                (pg_str q.source_text) (pg_str-IsText q.source_text) in
            let (steps, spans, g, m) = decided_lem rank total_ns answer finite timed e f in
            (
              steps,
              spans,
              λ more.
                  rw e (ap (λ o. o >>= decided_spans backend (steps + more) q total_ns) f ∙ g more),
              m,
            )
        | inr e ↦ (
          0,
          none,
          (λ more. rw e refl),
          nothing (fast total_ns timed (meets_complete total_ns backend.min_duration_ms e)),
        )
      ]

  -- For every statement whose plan has a finite height the spans are built, with enough fuel. If
  -- there are none, tracing is disabled or the process is a parallel worker, or the statement is only
  -- explained, or it has no timer, or it is faster than the limit, or its parent trace is not
  -- sampled. If there are spans, tracing is enabled, the statement is not only explained and not
  -- faster than the limit, and the spans are those of the plan, connected and within the limit, and
  -- behind them that of the query, below the parent that was decided on, with the number of plan
  -- nodes left out and at most 4096 bytes of text, which is missing if the mode is off.
  pub statement_spans_lem :
      (rank : N → ℕ)
      → IsFinite rank
      → (steps : ℕ) × (spans : Option (List SpanRecord)) × ((more : ℕ)
          → statement_spans backend (steps + more) (some q) ≡ returns spans)
        × Made backend q spans
        × ((spans ≡ none)
            ⊎ (IsEnabled backend.min_duration_ms backend.parallel_worker_number
                × (is_explained backend q.top_eflags ≡ false)))
  unfolding statement_spans
  statement_spans_lem rank finite =
      let (steps, spans, f, m) = timed_lem rank q.total_ns finite refl in
      elim (Bool-cases (tracing_enabled_here backend)) [
        | inl e ↦ elim (Bool-cases (is_explained backend q.top_eflags)) [
          | inl g ↦ (0, none, (λ more. rw (e, g) refl), nothing (explained g), inl refl)
          | inr g ↦ (
            steps,
            spans,
            (λ more. rw (e, g) (f more)),
            m,
            inr (tracing_enabled_sound backend.min_duration_ms backend.parallel_worker_number e, g),
          )
        ]
        | inr e ↦ (
          0,
          none,
          (λ more. rw e refl),
          nothing (
              disabled (
                tracing_enabled_complete backend.min_duration_ms backend.parallel_worker_number e)),
          inl refl,
        )
      ]
