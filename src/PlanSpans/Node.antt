-- ===== src/PlanSpans/Node.antt =====
-- `from_plan` of src/span.rs: the span of a plan node.
use pg_otel.Prelude.{
  ℕ, suc, ◌+◌, ◌-◌, ◌^◌, Bool, true, false, ◌||◌, Option, none, some, [], ◌∷◌, ◌++◌, ltb, ◌==◌,
  if◌then◌else◌,
}
use pg_otel.Prelude.Int.{ℤ, pos, negsuc, ◌+ℤ◌, ltb_ℤ}
use pg_otel.Codec.Words.{to_bits}
use pg_otel.Sanitize.Truncate.{truncate_utf8}
use pg_otel.Span.{Str, SpanId, SystemTime, plan_node, SpanRecord, SpanLink}
use pg_otel.Span.Walk.{
  Relationship, outer, inner, init_plan, sub_plan, member, subquery, child, ChildEdge,
}
use pg_otel.PlanSpans.State.{
  NodeTag, Plan, NodeStats, no_stats, NodeInstrument, PlanState, measured, incomplete, append,
  merge_append, gather, gather_merge,
}

unfoldable pub as_str : Relationship → Str
as_str outer = 79 ∷ 117 ∷ 116 ∷ 101 ∷ 114 ∷ []
as_str inner = 73 ∷ 110 ∷ 110 ∷ 101 ∷ 114 ∷ []
as_str init_plan = 73 ∷ 110 ∷ 105 ∷ 116 ∷ 80 ∷ 108 ∷ 97 ∷ 110 ∷ []
as_str sub_plan = 83 ∷ 117 ∷ 98 ∷ 80 ∷ 108 ∷ 97 ∷ 110 ∷ []
as_str member = 77 ∷ 101 ∷ 109 ∷ 98 ∷ 101 ∷ 114 ∷ []
as_str subquery = 83 ∷ 117 ∷ 98 ∷ 113 ∷ 117 ∷ 101 ∷ 114 ∷ 121 ∷ []
as_str child = 67 ∷ 104 ∷ 105 ∷ 108 ∷ 100 ∷ []

-- `planned.saturating_sub(live)` on `i32`, as a `u64` or 0.
abbrev pub removed_members : ℤ → ℤ → ℕ
removed_members (pos planned) (pos live) = planned - live
removed_members (pos planned) (negsuc live) =
    if ltb (planned + suc live) (2 ^ 31) then planned + suc live else 2 ^ 31 - 1
removed_members (negsuc planned) (pos live) = 0
removed_members (negsuc planned) (negsuc live) = live - planned

unfoldable pub pruned_member_count : {N : Type 0} → PlanState N → Plan → NodeTag → ℕ
pruned_member_count state plan append = removed_members plan.planned_members state.nplans
pruned_member_count state plan merge_append = removed_members plan.planned_members state.nplans
pruned_member_count state plan tag = 0

unfoldable pub launched_workers : {N : Type 0} → PlanState N → NodeTag → Option ℤ
launched_workers state gather = some state.nworkers_launched
launched_workers state gather_merge = some state.nworkers_launched
launched_workers state tag = none

abbrev pub name_max_len : ℕ
name_max_len = 256

-- The prefix of a span's name, `postgresql.operation.`.
abbrev pub operation_prefix : Str
operation_prefix =
    112 ∷ 111 ∷ 115 ∷ 116 ∷ 103 ∷ 114 ∷ 101 ∷ 115 ∷ 113 ∷ 108 ∷ 46 ∷ 111 ∷ 112 ∷ 101 ∷ 114 ∷ 97
    ∷ 116 ∷ 105 ∷ 111 ∷ 110 ∷ 46 ∷ []

unfoldable pub plan_span_name : Option Str → (node_type table_suffix : Str) → Str
plan_span_name none node_type table_suffix = operation_prefix ++ (node_type ++ table_suffix)
plan_span_name (some subplan) node_type table_suffix =
    subplan
    ++ ((32 ∷ 226 ∷ 134 ∷ 146 ∷ 32 ∷ []) ++ (operation_prefix ++ (node_type ++ table_suffix)))

abbrev pub table_suffix_of : Option Str → Str
table_suffix_of none = []
table_suffix_of (some table) = (32 ∷ 91 ∷ []) ++ (table ++ (93 ∷ []))

abbrev pub truncated_name : Option Str → Option Str
truncated_name none = none
truncated_name (some table) = some (truncate_utf8 table name_max_len)

abbrev pub edge_subplan : Option ChildEdge → Option Str
edge_subplan none = none
edge_subplan (some edge) = edge.subplan_name

abbrev pub edge_relationship : Option ChildEdge → Option Str
edge_relationship none = none
edge_relationship (some edge) = some (as_str edge.relationship)

-- The timings, whether the node never ran, and whether its instrumentation is unusable. A double
-- is equal to zero if its bits are those of 0.0 or of -0.0.
abbrev pub timings_of : NodeInstrument → NodeStats × Bool × Bool
timings_of (measured stats) = (stats, stats.loops == 0 || stats.loops == 2 ^ 63, false)
timings_of incomplete = (no_stats, false, true)

abbrev pub min_time : SystemTime → SystemTime → SystemTime
min_time a b = if ltb_ℤ b a then b else a

-- `from_plan` behind its two tests for null pointers.
unfoldable pub from_plan_of :
    {N : Type 0}
    → PlanState N
    → Plan
    → SystemTime
    → SpanLink
    → Option ChildEdge
    → SpanId
    → SpanRecord
from_plan_of state plan wall_start parent edge id =
    let (timings, never_executed, is_incomplete) = timings_of state.instrument in
    let relation = truncated_name state.relation in
    record {
      trace_id = parent.trace_id;
      span_id = id;
      parent_id = parent.span_id;
      name =
          truncate_utf8
            (plan_span_name (edge_subplan edge) state.type_name (table_suffix_of relation))
            name_max_len;
      start_time = wall_start;
      end_time = min_time (wall_start +ℤ pos (to_bits (2 ^ 64) timings.total_ns)) parent.end_time;
      attributes = plan_node (record {
        node_type = state.type_name;
        relation = relation;
        parent_relationship = edge_relationship edge;
        subplan_name = edge_subplan edge;
        subplans_removed = pruned_member_count state plan plan.tag;
        workers_launched = launched_workers state plan.tag;
        never_executed = never_executed;
        instrumentation_incomplete = is_incomplete;
        startup_cost = plan.startup_cost;
        total_cost = plan.total_cost;
        rows = plan.plan_rows;
        width_bytes = plan.plan_width;
        parallel_aware = plan.parallel_aware;
        parallel_safe = plan.parallel_safe;
        async_capable = plan.async_capable;
        instr_startup_time_ns = timings.startup_ns;
        instr_total_time_ns = timings.total_ns;
        instr_rows = timings.rows;
        instr_secondary_rows = timings.secondary_rows;
        instr_loops = timings.loops;
        instr_rows_removed_by_scan_or_join_filter = timings.filtered_by_scan_or_join;
        instr_rows_removed_by_other_filter = timings.filtered_by_other;
      });
    }

abbrev pub with_plan :
    {N : Type 0}
    → PlanState N
    → SystemTime
    → SpanLink
    → Option ChildEdge
    → SpanId
    → Option Plan
    → Option SpanRecord
with_plan state wall_start parent edge id none = none
with_plan state wall_start parent edge id (some plan) =
    some (from_plan_of state plan wall_start parent edge id)

unfoldable pub from_plan :
    {N : Type 0}
    → PlanState N
    → SystemTime
    → SpanLink
    → Option ChildEdge
    → SpanId
    → Option SpanRecord
from_plan state wall_start parent edge id = with_plan state wall_start parent edge id state.plan

abbrev pub link : SpanRecord → SpanLink
link span = record { trace_id = span.trace_id; span_id = span.span_id; end_time = span.end_time }
