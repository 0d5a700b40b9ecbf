-- ===== src/Statement/Described.antt =====
-- What a statement's spans are, and why a statement has none: the promise of src/postgres.rs at the end
-- of a statement.
use pg_otel.Prelude.{
  ℕ, ◌*◌, ◌≤◌, arith, ◌≡◌, true, false, Option, none, some, List, [], ◌∷◌, ◌++◌, returns,
}
use pg_otel.Prelude.Int.{ℤ, pos, negsuc, ◌+ℤ◌, ◌-ℤ◌}
use pg_otel.Span.{Str, SpanRecord, SpanLink, query}
use pg_otel.Sanitize.Truncate.{truncate_utf8}
use pg_otel.PlanSpans.Node.{name_max_len}
use pg_otel.Span.Walk.{WalkSummary}
use pg_otel.Sanitize.Export.Limits.{IsShort}
use pg_otel.PlanSpans.Collect.{Collected}
use pg_otel.PlanSpans.Connected.{IsCollected}
use pg_otel.Trace.{tracing_enabled, meets_slow_query_threshold}
use pg_otel.Trace.Parent.{ParentContext, skip, trace, decide_parent}
use pg_otel.Statement.{
  QueryDesc, Backend, off, query_text_max_len, location_of, nanos, pg_str, is_explained,
  get_max_plan_spans, query_name, join_tables,
}

-- Tracing is on, and the process is no parallel worker, whose number would not be negative.
abbrev pub IsEnabled : (min_duration_ms parallel_worker_number : ℤ) → Type 0
IsEnabled (pos m) (negsuc k) = Unit
IsEnabled (pos m) (pos k) = ⊥
IsEnabled (negsuc m) number = ⊥

-- A statement that took at least as many milliseconds as the limit says.
abbrev pub IsSlow : (total_ns min_duration_ms : ℤ) → Type 0
IsSlow (pos d) (pos m) = m * 1000000 ≤ d
IsSlow (negsuc d) (pos m) = ⊥
IsSlow total_ns (negsuc m) = ⊥

pub tracing_enabled_sound : (m n : ℤ) → tracing_enabled m n ≡ true → IsEnabled m n
unfolding tracing_enabled
tracing_enabled_sound (pos m) (pos k) e = cc
tracing_enabled_sound (pos m) (negsuc k) e = tt
tracing_enabled_sound (negsuc m) n e = cc

pub tracing_enabled_complete : (m n : ℤ) → tracing_enabled m n ≡ false → ¬ IsEnabled m n
unfolding tracing_enabled
tracing_enabled_complete (pos m) (pos k) e = λ h. h
tracing_enabled_complete (pos m) (negsuc k) e = λ h. absurd (ground arith)
tracing_enabled_complete (negsuc m) n e = λ h. h

pub meets_sound : (d m : ℤ) → meets_slow_query_threshold d m ≡ true → IsSlow d m
unfolding meets_slow_query_threshold
meets_sound (pos d) (pos m) e = ground arith
meets_sound (negsuc d) (pos m) e = absurd (ground arith)
meets_sound (pos d) (negsuc m) e = absurd (ground arith)
meets_sound (negsuc d) (negsuc m) e = absurd (ground arith)

pub meets_complete : (d m : ℤ) → meets_slow_query_threshold d m ≡ false → ¬ IsSlow d m
unfolding meets_slow_query_threshold
meets_complete (pos d) (pos m) e = λ h. ground arith
meets_complete (negsuc d) (pos m) e = λ h. h
meets_complete (pos d) (negsuc m) e = λ h. h
meets_complete (negsuc d) (negsuc m) e = λ h. h

module _ {N : Type 0} (backend : Backend N) (q : QueryDesc N) where
  -- Why a statement gets no spans.
  pub data Untraced : Type 0 where
    disabled : ¬ IsEnabled backend.min_duration_ms backend.parallel_worker_number → Untraced
    explained : is_explained backend q.top_eflags ≡ true → Untraced
    untimed : q.total_ns ≡ none → Untraced
    fast :
        (total_ns : ℤ)
        → q.total_ns ≡ some total_ns
        → ¬ IsSlow total_ns backend.min_duration_ms
        → Untraced
    unsampled :
        decide_parent backend.propagator backend.random_trace_id backend.guc_traceparent
            (pg_str q.source_text)
          ≡ returns skip
        → Untraced

  -- The start of a statement that took `total_ns`.
  abbrev pub wall_start : ℤ → ℤ
  wall_start total_ns = backend.end_time -ℤ nanos total_ns

  -- What the spans of the plan hang below: the span of the query.
  abbrev pub link_of : ℤ → ParentContext → SpanLink
  link_of total_ns parent = record {
    trace_id = parent.trace_id;
    span_id = backend.query_span_id;
    end_time = wall_start total_ns +ℤ nanos total_ns;
  }

  -- The span of the query, below `parent`, over the whole time of the statement.
  pub record IsQuerySpan (total_ns : ℤ) (parent : ParentContext) (tables : List Str) (omitted : ℕ)
      (text : Option Str) (span : SpanRecord) : Type 0 where
    pub trace_id : span.trace_id ≡ parent.trace_id
    pub parent_id : span.parent_id ≡ parent.span_id
    pub span_id : span.span_id ≡ backend.query_span_id
    pub start_time : span.start_time ≡ backend.end_time -ℤ nanos total_ns
    pub end_time : span.end_time ≡ (backend.end_time -ℤ nanos total_ns) +ℤ nanos total_ns
    pub name :
        span.name
        ≡ truncate_utf8 (query_name q.operation ++ ((32 ∷ []) ++ join_tables tables)) name_max_len
    pub attributes :
        span.attributes
        ≡ query (record {
          parent_is_remote = parent.is_remote;
          operation = query_name q.operation;
          query_text = text;
          query_id = (location_of q.planned).2;
          exec_total_time_ns = total_ns;
          plan_spans_omitted = omitted;
        })

  -- The spans of a statement that is traced: those of its plan, and behind them that of the query,
  -- which carries the number of nodes left out, and the text, cut to its limit and only if the mode
  -- asks for it.
  pub record Traced (total_ns : ℤ) (parent : ParentContext) (spans : List SpanRecord) : Type 0 where
    pub plan : WalkSummary × Collected
    pub collected :
        IsCollected backend.view backend.random
          (wall_start total_ns)
          (link_of total_ns parent)
          (get_max_plan_spans backend.max_plan_spans)
          plan
    pub query_text : Option Str
    pub short : IsShort query_text_max_len query_text
    pub hidden : backend.query_text_mode ≡ off → query_text ≡ none
    pub span : SpanRecord
    pub described : IsQuerySpan total_ns parent plan.1.tables plan.0.omitted query_text span
    pub whole : spans ≡ plan.1.spans ++ (span ∷ [])

  -- What a backend makes of a statement: no spans, for one of the reasons that there are, or the
  -- spans of the parent that was decided on.
  pub data Made : Option (List SpanRecord) → Type 0 where
    nothing : Untraced → Made none
    made :
        (total_ns : ℤ) (parent : ParentContext) (spans : List SpanRecord)
        → q.total_ns ≡ some total_ns
        → IsSlow total_ns backend.min_duration_ms
        → decide_parent backend.propagator backend.random_trace_id backend.guc_traceparent
            (pg_str q.source_text)
          ≡ returns (trace parent)
        → Traced total_ns parent spans
        → Made (some spans)
