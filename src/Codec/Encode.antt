-- ===== src/Codec/Encode.antt =====
-- The encoders of src/codec.rs: each appends to the byte vector it is given.
use pg_otel.Prelude.{
  ℕ, ◌+◌, ◌-◌, ◌^◌, Bool, Option, none, some, List, [], ◌∷◌, ◌++◌, leb, if◌then◌else◌, length, take,
  Result, ok, err,
}
use pg_otel.Prelude.Int.{ℤ, pos_part}
use pg_otel.Prelude.Bytes.{to_le_bytes}
use pg_otel.Codec.Words.{to_bits}
use pg_otel.Queue.{Batch, batch_new, push_record}
use pg_otel.Span.{
  Str, Float, SystemTime, QueryAttributes, PlanNodeAttributes, SpanAttributes, query, plan_node,
  SpanRecord,
}

abbrev pub format_version : ℕ
format_version = 2

abbrev pub kind_query : ℕ
kind_query = 1

abbrev pub kind_plan_node : ℕ
kind_plan_node = 2

abbrev pub u32_max : ℕ
u32_max = 2 ^ 32 - 1

abbrev pub u64_max : ℕ
u64_max = 2 ^ 64 - 1

unfoldable pub put_bool : List ℕ → Bool → List ℕ
put_bool out value = out ++ ((if value then 1 else 0) ∷ [])

unfoldable pub put_i64 : List ℕ → ℤ → List ℕ
put_i64 out value = out ++ to_le_bytes 8 (to_bits (2 ^ 64) value)

unfoldable pub put_i32 : List ℕ → ℤ → List ℕ
put_i32 out value = out ++ to_le_bytes 4 (to_bits (2 ^ 32) value)

unfoldable pub put_u64 : List ℕ → ℕ → List ℕ
put_u64 out value = out ++ to_le_bytes 8 value

unfoldable pub put_opt_i64 : List ℕ → Option ℤ → List ℕ
put_opt_i64 out (some value) = put_i64 (out ++ (1 ∷ [])) value
put_opt_i64 out none = out ++ (0 ∷ [])

unfoldable pub put_f64 : List ℕ → Float → List ℕ
put_f64 out value = out ++ to_le_bytes 8 value

-- `duration_since(UNIX_EPOCH)` fails for a time before the epoch.
unfoldable pub put_time : List ℕ → SystemTime → List ℕ
put_time out time =
    let nanos = pos_part time in out ++ to_le_bytes 8 (if leb nanos u64_max then nanos else u64_max)

unfoldable pub put_str : List ℕ → Str → List ℕ
put_str out value =
    let len = if leb (length value) u32_max then length value else u32_max in
    (out ++ to_le_bytes 4 len) ++ take len value

unfoldable pub put_opt_str : List ℕ → Option Str → List ℕ
put_opt_str out (some value) = put_str (out ++ (1 ∷ [])) value
put_opt_str out none = out ++ (0 ∷ [])

unfoldable pub encode_query : QueryAttributes → List ℕ → List ℕ
encode_query q out =
    let out = put_bool out q.parent_is_remote in
    let out = put_str out q.operation in
    let out = put_opt_str out q.query_text in
    let out = put_i64 out q.query_id in
    let out = put_i64 out q.exec_total_time_ns in put_u64 out q.plan_spans_omitted

unfoldable pub encode_plan_node : PlanNodeAttributes → List ℕ → List ℕ
encode_plan_node node out =
    let out = put_str out node.node_type in
    let out = put_opt_str out node.relation in
    let out = put_opt_str out node.parent_relationship in
    let out = put_opt_str out node.subplan_name in
    let out = put_u64 out node.subplans_removed in
    let out = put_opt_i64 out node.workers_launched in
    let out = put_bool out node.never_executed in
    let out = put_bool out node.instrumentation_incomplete in
    let out = put_f64 out node.startup_cost in
    let out = put_f64 out node.total_cost in
    let out = put_f64 out node.rows in
    let out = put_i32 out node.width_bytes in
    let out = put_bool out node.parallel_aware in
    let out = put_bool out node.parallel_safe in
    let out = put_bool out node.async_capable in
    let out = put_i64 out node.instr_startup_time_ns in
    let out = put_i64 out node.instr_total_time_ns in
    let out = put_f64 out node.instr_rows in
    let out = put_f64 out node.instr_secondary_rows in
    let out = put_f64 out node.instr_loops in
    let out = put_f64 out node.instr_rows_removed_by_scan_or_join_filter in
    put_f64 out node.instr_rows_removed_by_other_filter

unfoldable pub kind_of : SpanAttributes → ℕ
kind_of (query _) = kind_query
kind_of (plan_node _) = kind_plan_node

unfoldable pub encode_attributes : SpanAttributes → List ℕ → List ℕ
encode_attributes (query q) out = encode_query q out
encode_attributes (plan_node node) out = encode_plan_node node out

unfoldable pub encode_span : SpanRecord → List ℕ → List ℕ
encode_span span out =
    let out = out ++ (format_version ∷ []) in
    let out = out ++ (kind_of span.attributes ∷ []) in
    let out = out ++ span.trace_id in
    let out = out ++ span.span_id in
    let out = out ++ span.parent_id in
    let out = put_time out span.start_time in
    let out = put_time out span.end_time in
    let out = put_str out span.name in encode_attributes span.attributes out

-- Whether a push was refused.
abbrev pub is_err {ℓ κ} : {A : Type ℓ} {E : Type κ} → Result A E → ℕ
is_err (ok a) = 0
is_err (err e) = 1

-- The loop of `encode_batch` over the spans that are left.
unfoldable pub encode_loop : Batch → ℕ → List SpanRecord → Batch × ℕ
encode_loop batch skipped [] = (batch, skipped)
encode_loop batch skipped (span ∷ spans) =
    let (batch', result) = push_record batch (encode_span span) in
    encode_loop batch' (skipped + is_err result) spans

unfoldable pub encode_batch : List SpanRecord → Batch × ℕ
encode_batch spans = encode_loop batch_new 0 spans
