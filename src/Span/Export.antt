-- ===== src/Span/Export.antt =====
-- `From<SpanRecord> for SpanData` of src/span.rs: the span as the OpenTelemetry exporter takes it.
-- A constructor of `Key` stands for the literal of that name, dots and all: `db_query_text` is
-- "db.query.text". A text literal among the values is a constructor of `Literal`.
mod Tests
pub mod Keys
use pg_otel.Prelude.{
  ℕ, ◌-◌, ◌+◌, ◌^◌, Bool, true, false, Option, none, some, List, [], ◌∷◌, ◌++◌, ltb, leb, ◌==◌,
  if◌then◌else◌, not,
}
use pg_otel.Prelude.Int.{ℤ, pos, negsuc}
use pg_otel.Span.{
  TraceId, SpanId, Str, Float, SystemTime, QueryAttributes, PlanNodeAttributes, SpanAttributes,
  query, plan_node, SpanRecord,
}

pub data Key : Type 0 where
  db_operation_name db_system_name execution_total_time_seconds : Key
  db_query_text db_query_id plan_spans_truncated plan_spans_omitted : Key
  plan_node_type plan_relation plan_parent_relationship plan_subplan_name : Key
  plan_subplans_removed plan_workers_launched plan_never_executed : Key
  plan_instrumentation_incomplete plan_startup_cost plan_total_cost plan_rows : Key
  plan_width_bytes plan_parallel_aware plan_parallel_safe plan_async_capable : Key
  instrumentation_startup_time_seconds instrumentation_total_time_seconds : Key
  instrumentation_rows instrumentation_secondary_rows instrumentation_loops : Key
  rows_removed_by_scan_or_join_filter rows_removed_by_other_filter : Key
  span_duration_us span_type span_subtype : Key

pub data Literal : Type 0 where
  postgresql db internal : Literal

-- A value of an attribute; `quotient n d` is the double that `n as f64 / d` gives.
pub data Value : Type 0 where
  literal : Literal → Value
  text : Str → Value
  boolean : Bool → Value
  int : ℤ → Value
  float : Float → Value
  quotient : ℤ → ℕ → Value

pub data SpanKind : Type 0 where
  server internal_kind : SpanKind

pub data Status : Type 0 where
  status_ok : Status

pub record SpanContext : Type 0 where
  pub trace_id : TraceId
  pub span_id : SpanId
  pub sampled : Bool
  pub is_remote : Bool

pub record SpanData : Type 0 where
  pub span_context : SpanContext
  pub parent_span_id : SpanId
  pub parent_span_is_remote : Bool
  pub span_kind : SpanKind
  pub name : Str
  pub start_time : SystemTime
  pub end_time : SystemTime
  pub attributes : List (Key × Value)
  pub dropped_attributes_count : ℕ
  pub status : Status

abbrev pub ns_to_seconds : ℤ → Value
ns_to_seconds ns = quotient ns 1000000000

abbrev pub ns_to_micros : ℤ → Value
ns_to_micros ns = quotient ns 1000

-- `i64::try_from(n).unwrap_or(i64::MAX)`.
abbrev pub saturated : ℕ → ℤ
saturated n = if ltb n (2 ^ 63) then pos n else pos (2 ^ 63 - 1)

-- `if let Some(v) = value { attributes.push(KeyValue::new(key, v)) }`.
abbrev pub push_some {ℓ} :
    {A : Type ℓ} → Key → (A → Value) → Option A → List (Key × Value) → List (Key × Value)
push_some key value none attributes = attributes
push_some key value (some v) attributes = attributes ++ ((key, value v) ∷ [])

-- `if test { attributes.push(..) }`, once for each of `pairs`.
abbrev pub push_if : Bool → List (Key × Value) → List (Key × Value) → List (Key × Value)
push_if true pairs attributes = attributes ++ pairs
push_if false pairs attributes = attributes

abbrev pub is_zero : ℤ → Bool
is_zero (pos n) = n == 0
is_zero (negsuc n) = false

unfoldable pub query_attributes : QueryAttributes → List (Key × Value)
query_attributes attr =
    let attributes =
      (db_operation_name, text attr.operation)
      ∷ (db_system_name, literal postgresql)
      ∷ (execution_total_time_seconds, ns_to_seconds attr.exec_total_time_ns)
      ∷ (span_duration_us, ns_to_micros attr.exec_total_time_ns)
      ∷ (span_type, literal db)
      ∷ (span_subtype, literal postgresql)
      ∷ [] in
    let attributes = push_some db_query_text text attr.query_text attributes in
    let attributes =
      push_if (not (is_zero attr.query_id)) ((db_query_id, int attr.query_id) ∷ []) attributes in
    push_if (ltb 0 attr.plan_spans_omitted)
      ((plan_spans_truncated, boolean true)
        ∷ (plan_spans_omitted, int (saturated attr.plan_spans_omitted))
        ∷ [])
      attributes

unfoldable pub plan_attributes : PlanNodeAttributes → List (Key × Value)
plan_attributes attr =
    let attributes =
      (db_system_name, literal postgresql) ∷ (plan_node_type, text attr.node_type) ∷ [] in
    let attributes = push_some plan_relation text attr.relation attributes in
    let attributes = push_some plan_parent_relationship text attr.parent_relationship attributes in
    let attributes = push_some plan_subplan_name text attr.subplan_name attributes in
    let attributes =
      push_if (ltb 0 attr.subplans_removed)
        ((plan_subplans_removed, int (saturated attr.subplans_removed)) ∷ []) attributes in
    let attributes = push_some plan_workers_launched int attr.workers_launched attributes in
    let attributes =
      push_if attr.never_executed ((plan_never_executed, boolean true) ∷ []) attributes in
    let attributes =
      push_if attr.instrumentation_incomplete ((plan_instrumentation_incomplete, boolean true) ∷ [])
        attributes in
    attributes
    ++ ((plan_startup_cost, float attr.startup_cost)
        ∷ (plan_total_cost, float attr.total_cost)
        ∷ (plan_rows, float attr.rows)
        ∷ (plan_width_bytes, int attr.width_bytes)
        ∷ (plan_parallel_aware, boolean attr.parallel_aware)
        ∷ (plan_parallel_safe, boolean attr.parallel_safe)
        ∷ (plan_async_capable, boolean attr.async_capable)
        ∷ (instrumentation_startup_time_seconds, ns_to_seconds attr.instr_startup_time_ns)
        ∷ (instrumentation_total_time_seconds, ns_to_seconds attr.instr_total_time_ns)
        ∷ (instrumentation_rows, float attr.instr_rows)
        ∷ (instrumentation_secondary_rows, float attr.instr_secondary_rows)
        ∷ (instrumentation_loops, float attr.instr_loops)
        ∷ (
          rows_removed_by_scan_or_join_filter,
          float attr.instr_rows_removed_by_scan_or_join_filter,
        )
        ∷ (rows_removed_by_other_filter, float attr.instr_rows_removed_by_other_filter)
        ∷ (span_duration_us, ns_to_micros attr.instr_total_time_ns)
        ∷ (span_type, literal db)
        ∷ (span_subtype, literal internal)
        ∷ [])

abbrev pub exported_context : SpanRecord → SpanContext
exported_context span = record {
  trace_id = span.trace_id;
  span_id = span.span_id;
  sampled = true;
  is_remote = false;
}

-- The match of the conversion on the span's attributes.
unfoldable pub export_as : SpanRecord → SpanAttributes → SpanData
export_as span (query attr) = record {
  span_context = exported_context span;
  parent_span_id = span.parent_id;
  parent_span_is_remote = attr.parent_is_remote;
  span_kind = server;
  name = span.name;
  start_time = span.start_time;
  end_time = span.end_time;
  attributes = query_attributes attr;
  dropped_attributes_count = 0;
  status = status_ok;
}
export_as span (plan_node attr) = record {
  span_context = exported_context span;
  parent_span_id = span.parent_id;
  parent_span_is_remote = false;
  span_kind = internal_kind;
  name = span.name;
  start_time = span.start_time;
  end_time = span.end_time;
  attributes = plan_attributes attr;
  dropped_attributes_count = 0;
  status = status_ok;
}

unfoldable pub export_span : SpanRecord → SpanData
export_span span = export_as span span.attributes
