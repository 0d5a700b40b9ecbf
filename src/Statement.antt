-- ===== src/Statement.antt =====
-- What a backend does when a statement ends: `collect_spans_unguarded` of src/postgres.rs and
-- `SpanRecord::from_query` of src/span.rs. The settings, the clock, the ids of the generator and
-- Postgres' functions are a `Backend`; a `QueryDesc` is what the code reads of it.
pub mod Built
pub mod Described
mod Tests
use pg_otel.Prelude.{
  ℕ, ◌+◌, ◌/◌, ◌%◌, ◌^◌, Bool, true, false, ◌&&◌, not, Option, none, some, List, [], ◌∷◌, ◌++◌,
  ◌==◌, if◌then◌else◌, Outcome, returns, panics, unfinished, ◌>>=◌,
}
use pg_otel.Prelude.Int.{ℤ, pos, negsuc, ◌+ℤ◌, ◌-ℤ◌}
use pg_otel.Prelude.Lossy.{from_utf8_lossy}
use pg_otel.Codec.Words.{to_bits}
use pg_otel.Codec.Encode.{encode_batch}
use pg_otel.Span.{Bytes, Str, TraceId, SpanId, SystemTime, query, SpanRecord, SpanLink}
use pg_otel.Span.Walk.{WalkSummary}
use pg_otel.Sanitize.Truncate.{truncate_utf8}
use pg_otel.Sanitize.Tokens.{Scanned}
use pg_otel.Sanitize.Export.{sanitize}
use pg_otel.PlanSpans.State.{PlanState}
use pg_otel.PlanSpans.Node.{name_max_len}
use pg_otel.PlanSpans.Collect.{Collected, collect_plan_spans}
use pg_otel.Trace.{tracing_enabled, meets_slow_query_threshold}
use pg_otel.Trace.Parent.{Propagator, ParentContext, TraceDecision, skip, trace, decide_parent}
use pg_otel.Shared.{Header, PublishOutcome, publish}

pub data CmdType : Type 0 where
  select update insert delete merge utility nothing other_command : CmdType

pub data QueryTextMode : Type 0 where
  off normalized raw : QueryTextMode

-- `top_eflags` stands in the state of the executor, if there is one; `total_ns` is what
-- `query_total_ns` finds; `planned` are the location, the length and the id of the statement.
pub record QueryDesc (N : Type 0) : Type 0 where
  pub top_eflags : Option ℕ
  pub total_ns : Option ℤ
  pub operation : CmdType
  pub planned : Option (ℤ × ℤ × ℤ)
  pub source_text : Option Bytes
  pub planstate : Option N

-- `random` gives the ids that plan spans draw.
pub record Backend (N : Type 0) : Type 0 where
  pub min_duration_ms : ℤ
  pub parallel_worker_number : ℤ
  pub explain_only_bit : ℕ
  pub end_time : SystemTime
  pub guc_traceparent : Option Str
  pub query_text_mode : QueryTextMode
  pub max_plan_spans : ℤ
  pub propagator : Propagator
  pub random_trace_id : TraceId
  pub query_span_id : SpanId
  pub random : ℕ → SpanId
  pub view : N → PlanState N
  pub server_encoding_is_utf8 : Bool
  pub scan : Str → Option (List Scanned)
  pub clean_query_text : Bytes → ℤ → ℤ → ℤ × ℤ

-- `usize::try_from(..).unwrap_or(0)`.
abbrev pub get_max_plan_spans : ℤ → ℕ
get_max_plan_spans (pos n) = n
get_max_plan_spans (negsuc n) = 0

-- `eflags & EXEC_FLAG_EXPLAIN_ONLY != 0`, a flag of one bit.
unfoldable pub is_explain_only : (bit : ℕ) → (eflags : ℕ) → Bool
is_explain_only bit eflags = not ((eflags / 2 ^ bit) % 2 == 0)

unfoldable pub query_name : CmdType → Str
query_name select = 83 ∷ 69 ∷ 76 ∷ 69 ∷ 67 ∷ 84 ∷ []
query_name update = 85 ∷ 80 ∷ 68 ∷ 65 ∷ 84 ∷ 69 ∷ []
query_name insert = 73 ∷ 78 ∷ 83 ∷ 69 ∷ 82 ∷ 84 ∷ []
query_name delete = 68 ∷ 69 ∷ 76 ∷ 69 ∷ 84 ∷ 69 ∷ []
query_name merge = 77 ∷ 69 ∷ 82 ∷ 71 ∷ 69 ∷ []
query_name utility = 85 ∷ 84 ∷ 73 ∷ 76 ∷ 73 ∷ 84 ∷ 89 ∷ []
query_name nothing = 78 ∷ 79 ∷ 84 ∷ 72 ∷ 73 ∷ 78 ∷ 71 ∷ []
query_name other_command = 85 ∷ 78 ∷ 75 ∷ 78 ∷ 79 ∷ 87 ∷ 78 ∷ []

unfoldable pub normalize_for : QueryTextMode → Option Bool
normalize_for off = none
normalize_for normalized = some true
normalize_for raw = some false

abbrev pub query_text_max_len : ℕ
query_text_max_len = 4096

abbrev pub join_tables : List Str → Str
join_tables [] = []
join_tables (t ∷ []) = t
join_tables (t ∷ u ∷ tables) = t ++ (44 ∷ 32 ∷ join_tables (u ∷ tables))

-- The location, the length and the id of a statement; without a plan there are none.
abbrev pub location_of : Option (ℤ × ℤ × ℤ) → ℤ × ℤ × ℤ
location_of none = (negsuc 0, pos 0, pos 0)
location_of (some planned) = planned

-- `Duration::from_nanos` of a total.
abbrev pub nanos : ℤ → ℤ
nanos total_ns = pos (to_bits (2 ^ 64) total_ns)

-- `pg_str`.
abbrev pub pg_str : Option Bytes → Option Str
pg_str none = none
pg_str (some bytes) = some (from_utf8_lossy bytes)

module _ {N : Type 0} (backend : Backend N) where
  abbrev pub sanitized_for : QueryDesc N → Option Bool → Outcome (Option Str)
  sanitized_for q none = returns none
  sanitized_for q (some normalize) =
      let (location, len, _) = location_of q.planned in
      sanitize backend.server_encoding_is_utf8 backend.scan backend.clean_query_text from_utf8_lossy
        q.source_text location len normalize query_text_max_len

  unfoldable pub exported_query_text_and_id : QueryDesc N → QueryTextMode → Outcome (Option Str × ℤ)
  exported_query_text_and_id q mode =
      sanitized_for q (normalize_for mode) >>= λ text. returns (text, (location_of q.planned).2)

  -- `from_query` behind its tests for a null pointer and for the total.
  abbrev pub from_query_of :
      QueryDesc N
      → (total_ns : ℤ) → SystemTime
      → ParentContext
      → (tables : List Str) → (plan_spans_omitted : ℕ) → Option Str × ℤ
      → SpanRecord
  from_query_of q total_ns wall_start parent tables plan_spans_omitted (query_text, query_id) =
      record {
        trace_id = parent.trace_id;
        span_id = backend.query_span_id;
        parent_id = parent.span_id;
        name =
            truncate_utf8 (query_name q.operation ++ ((32 ∷ []) ++ join_tables tables))
              name_max_len;
        start_time = wall_start;
        end_time = wall_start +ℤ nanos total_ns;
        attributes = query (record {
          parent_is_remote = parent.is_remote;
          operation = query_name q.operation;
          query_text = query_text;
          query_id = query_id;
          exec_total_time_ns = total_ns;
          plan_spans_omitted = plan_spans_omitted;
        });
      }

  abbrev pub from_query_with :
      QueryDesc N
      → SystemTime
      → ParentContext
      → List Str
      → ℕ
      → (total_ns : Option ℤ) → Outcome (Option SpanRecord)
  from_query_with q wall_start parent tables omitted none = returns none
  from_query_with q wall_start parent tables omitted (some total_ns) =
      exported_query_text_and_id q backend.query_text_mode >>= λ text.
      returns (some (from_query_of q total_ns wall_start parent tables omitted text))

  unfoldable pub from_query :
      QueryDesc N → SystemTime → ParentContext → List Str → ℕ → Outcome (Option SpanRecord)
  from_query q wall_start parent tables omitted =
      from_query_with q wall_start parent tables omitted q.total_ns

  abbrev pub query_link : SystemTime → ℤ → ParentContext → SpanLink
  query_link wall_start total_ns parent = record {
    trace_id = parent.trace_id;
    span_id = backend.query_span_id;
    end_time = wall_start +ℤ nanos total_ns;
  }

  -- The spans of the plan, with that of the query behind them, if there is one.
  abbrev pub with_query : List SpanRecord → Option SpanRecord → Option (List SpanRecord)
  with_query spans none = none
  with_query spans (some span) = some (spans ++ (span ∷ []))

  -- What follows the decision to trace.
  abbrev pub traced_spans :
      (fuel : ℕ) → QueryDesc N → (total_ns : ℤ) → ParentContext → Outcome (Option (List SpanRecord))
  traced_spans fuel q total_ns parent =
      let wall_start = backend.end_time -ℤ nanos total_ns in
      collect_plan_spans backend.view backend.random wall_start
        (query_link wall_start total_ns parent) fuel (get_max_plan_spans backend.max_plan_spans)
        q.planstate
      >>= λ plan. from_query q wall_start parent plan.1.tables plan.0.omitted >>= λ span.
          returns (with_query plan.1.spans span)

  abbrev pub decided_spans :
      (fuel : ℕ) → QueryDesc N → (total_ns : ℤ) → TraceDecision → Outcome (Option (List SpanRecord))
  decided_spans fuel q total_ns skip = returns none
  decided_spans fuel q total_ns (trace parent) = traced_spans fuel q total_ns parent

  abbrev pub timed_spans : (fuel : ℕ) → QueryDesc N → Option ℤ → Outcome (Option (List SpanRecord))
  timed_spans fuel q none = returns none
  timed_spans fuel q (some total_ns) =
      if meets_slow_query_threshold total_ns backend.min_duration_ms
      then decide_parent backend.propagator backend.random_trace_id backend.guc_traceparent
          (pg_str q.source_text)
        >>= decided_spans fuel q total_ns
      else returns none

  abbrev pub is_explained : Option ℕ → Bool
  is_explained none = false
  is_explained (some eflags) = is_explain_only backend.explain_only_bit eflags

  abbrev pub tracing_enabled_here : Bool
  tracing_enabled_here = tracing_enabled backend.min_duration_ms backend.parallel_worker_number

  -- The spans of a finished statement; none if it is not traced.
  unfoldable pub statement_spans :
      (fuel : ℕ) → Option (QueryDesc N) → Outcome (Option (List SpanRecord))
  statement_spans fuel none = returns none
  statement_spans fuel (some q) =
      let spans = timed_spans fuel q q.total_ns in
      if tracing_enabled_here
      then if is_explained q.top_eflags then returns none else spans
      else returns none

  abbrev pub publish_spans :
      (procs : Option ℕ) → Header → Option (List SpanRecord) → Outcome (Option PublishOutcome)
  publish_spans procs header none = returns none
  publish_spans procs header (some spans) =
      let (batch, skipped) = encode_batch spans in
      publish procs header batch skipped >>= λ out. returns (some out)

  unfoldable pub collect_spans_unguarded :
      (fuel : ℕ)
      → (procs : Option ℕ) → Header
      → Option (QueryDesc N)
      → Outcome (Option PublishOutcome)
  collect_spans_unguarded fuel procs header query_desc =
      statement_spans fuel query_desc >>= publish_spans procs header
