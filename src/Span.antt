-- ===== src/Span.antt =====
-- src/span.rs: the span record that backends queue, and the link that its children need.
-- A trace or span id is its bytes (16 and 8), a string its UTF-8 bytes, a float its 64-bit pattern,
-- a `SystemTime` the nanoseconds from the Unix epoch to it, and a `Duration` its nanoseconds.
pub mod Walk
pub mod Export
use pg_otel.Prelude.{ℕ, Bool, Option, List}
use pg_otel.Prelude.Int.{ℤ}

abbrev pub Bytes : Type 0
Bytes = List ℕ

abbrev pub Str : Type 0
Str = List ℕ

abbrev pub TraceId : Type 0
TraceId = Bytes

abbrev pub SpanId : Type 0
SpanId = Bytes

abbrev pub Float : Type 0
Float = ℕ

abbrev pub SystemTime : Type 0
SystemTime = ℤ

pub record QueryAttributes : Type 0 where
  pub parent_is_remote : Bool
  pub operation : Str
  pub query_text : Option Str
  pub query_id : ℤ
  pub exec_total_time_ns : ℤ
  pub plan_spans_omitted : ℕ

pub record PlanNodeAttributes : Type 0 where
  pub node_type : Str
  pub relation : Option Str
  pub parent_relationship : Option Str
  pub subplan_name : Option Str
  pub subplans_removed : ℕ
  pub workers_launched : Option ℤ
  pub never_executed : Bool
  pub instrumentation_incomplete : Bool
  pub startup_cost : Float
  pub total_cost : Float
  pub rows : Float
  pub width_bytes : ℤ
  pub parallel_aware : Bool
  pub parallel_safe : Bool
  pub async_capable : Bool
  pub instr_startup_time_ns : ℤ
  pub instr_total_time_ns : ℤ
  pub instr_rows : Float
  pub instr_secondary_rows : Float
  pub instr_loops : Float
  pub instr_rows_removed_by_scan_or_join_filter : Float
  pub instr_rows_removed_by_other_filter : Float

pub data SpanAttributes : Type 0 where
  query : QueryAttributes → SpanAttributes
  plan_node : PlanNodeAttributes → SpanAttributes

pub record SpanRecord : Type 0 where
  pub trace_id : TraceId
  pub span_id : SpanId
  pub parent_id : SpanId
  pub name : Str
  pub start_time : SystemTime
  pub end_time : SystemTime
  pub attributes : SpanAttributes

pub record SpanLink : Type 0 where
  pub trace_id : TraceId
  pub span_id : SpanId
  pub end_time : SystemTime
