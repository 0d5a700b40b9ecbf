-- ===== src/Codec/RoundTrip.antt =====
-- A span record is read back from its encoding, its times clamped to what the format can hold.
use pg_otel.Prelude.{
  ℕ, ◌+◌, ◌^◌, ◌<◌, ◌≡◌, refl, sym, ap, ◌∙◌, List, [], ◌∷◌, ◌++◌, length, ok, err, append_assoc,
  append-nil,
}
use pg_otel.Span.{QueryAttributes, PlanNodeAttributes, SpanAttributes, query, plan_node, SpanRecord}
use pg_otel.Codec.Words.{IsSigned}
use pg_otel.Codec.Encode.{encode_query, encode_plan_node, encode_attributes, encode_span, kind_of}
use pg_otel.Codec.Decode.{
  decode_query, decode_plan_node, decode_attributes, expect_version, decode_body, decode_span,
  finish, trailing_bytes,
}
use pg_otel.Codec.Fields.{
  IsStr, IsOptStr, IsOptI64, clamp_time, Reads, appends, bool_bytes, i64_bytes, i32_bytes,
  u64_bytes, opt_i64_bytes, time_bytes, str_bytes, opt_str_bytes, u8-Reads, array-Reads, bool-Reads,
  u64-Reads, i64-Reads, i32-Reads, f64-Reads, time-Reads, string-Reads, opt_i64-Reads,
  opt_string-Reads,
}

-- The values of the fields' types: UTF-8 strings of less than 4 GiB, 64-bit and 32-bit numbers.
pub record IsQuery (q : QueryAttributes) : Type 0 where
  pub operation_fits : IsStr q.operation
  pub query_text_fits : IsOptStr q.query_text
  pub query_id_fits : IsSigned (2 ^ 63 + 2 ^ 63) q.query_id
  pub exec_total_time_ns_fits : IsSigned (2 ^ 63 + 2 ^ 63) q.exec_total_time_ns
  pub plan_spans_omitted_fits : q.plan_spans_omitted < 2 ^ 64

pub record IsPlanNode (node : PlanNodeAttributes) : Type 0 where
  pub node_type_fits : IsStr node.node_type
  pub relation_fits : IsOptStr node.relation
  pub parent_relationship_fits : IsOptStr node.parent_relationship
  pub subplan_name_fits : IsOptStr node.subplan_name
  pub subplans_removed_fits : node.subplans_removed < 2 ^ 64
  pub workers_launched_fits : IsOptI64 node.workers_launched
  pub startup_cost_fits : node.startup_cost < 2 ^ 64
  pub total_cost_fits : node.total_cost < 2 ^ 64
  pub rows_fits : node.rows < 2 ^ 64
  pub width_bytes_fits : IsSigned (2 ^ 31 + 2 ^ 31) node.width_bytes
  pub instr_startup_time_ns_fits : IsSigned (2 ^ 63 + 2 ^ 63) node.instr_startup_time_ns
  pub instr_total_time_ns_fits : IsSigned (2 ^ 63 + 2 ^ 63) node.instr_total_time_ns
  pub instr_rows_fits : node.instr_rows < 2 ^ 64
  pub instr_secondary_rows_fits : node.instr_secondary_rows < 2 ^ 64
  pub instr_loops_fits : node.instr_loops < 2 ^ 64
  pub instr_rows_removed_by_scan_or_join_filter_fits :
      node.instr_rows_removed_by_scan_or_join_filter < 2 ^ 64
  pub instr_rows_removed_by_other_filter_fits : node.instr_rows_removed_by_other_filter < 2 ^ 64

abbrev pub IsAttributes : SpanAttributes → Type 0
IsAttributes (query q) = IsQuery q
IsAttributes (plan_node node) = IsPlanNode node

pub record IsSpan (span : SpanRecord) : Type 0 where
  pub trace_id_fits : length span.trace_id ≡ 16
  pub span_id_fits : length span.span_id ≡ 8
  pub parent_id_fits : length span.parent_id ≡ 8
  pub name_fits : IsStr span.name
  pub attributes_fit : IsAttributes span.attributes

-- The span as it arrives.
abbrev pub clamp_span : SpanRecord → SpanRecord
clamp_span span = record span {
  start_time = clamp_time span.start_time;
  end_time = clamp_time span.end_time;
}

unfoldable pub query_bytes : QueryAttributes → List ℕ
query_bytes q =
    bool_bytes q.parent_is_remote
    ++ (str_bytes q.operation
        ++ (opt_str_bytes q.query_text
            ++ (i64_bytes q.query_id
                ++ (i64_bytes q.exec_total_time_ns ++ (u64_bytes q.plan_spans_omitted)))))

unfoldable pub plan_node_bytes : PlanNodeAttributes → List ℕ
plan_node_bytes node =
    str_bytes node.node_type
    ++ (opt_str_bytes node.relation
        ++ (opt_str_bytes node.parent_relationship
            ++ (opt_str_bytes node.subplan_name
                ++ (u64_bytes node.subplans_removed
                    ++ (opt_i64_bytes node.workers_launched
                        ++ (bool_bytes node.never_executed
                            ++ (bool_bytes node.instrumentation_incomplete
                                ++ (u64_bytes node.startup_cost
                                    ++ (u64_bytes node.total_cost
                                        ++ (u64_bytes node.rows
                                            ++ (i32_bytes node.width_bytes
                                                ++ (bool_bytes node.parallel_aware
                                                    ++ (bool_bytes node.parallel_safe
                                                        ++ (bool_bytes node.async_capable
                                                            ++ (i64_bytes node.instr_startup_time_ns
                                                            ++ (i64_bytes node.instr_total_time_ns
                                                            ++ (u64_bytes node.instr_rows
                                                            ++ (u64_bytes node.instr_secondary_rows
                                                            ++ (u64_bytes node.instr_loops
                                                            ++ (u64_bytes
                                                            node.instr_rows_removed_by_scan_or_join_filter
                                                            ++ (u64_bytes
                                                            node.instr_rows_removed_by_other_filter)))))))))))))))))))))

encode_query-bytes :
    (q : QueryAttributes) (out : List ℕ) → encode_query q out ≡ out ++ query_bytes q
unfolding encode_query query_bytes
encode_query-bytes q out = simp appends

encode_plan_node-bytes :
    (node : PlanNodeAttributes) (out : List ℕ)
    → encode_plan_node node out ≡ out ++ plan_node_bytes node
unfolding encode_plan_node plan_node_bytes
encode_plan_node-bytes node out = simp appends

decode_query-Reads : (q : QueryAttributes) → IsQuery q → Reads decode_query (query_bytes q) q
unfolding decode_query query_bytes
decode_query-Reads q v rest = simp append_assoc (
    rw (
      bool-Reads q.parent_is_remote,
      string-Reads q.operation v.operation_fits,
      opt_string-Reads q.query_text v.query_text_fits,
      i64-Reads q.query_id v.query_id_fits,
      i64-Reads q.exec_total_time_ns v.exec_total_time_ns_fits,
      u64-Reads q.plan_spans_omitted v.plan_spans_omitted_fits,
    ))

decode_plan_node-Reads :
    (node : PlanNodeAttributes)
    → IsPlanNode node
    → Reads decode_plan_node (plan_node_bytes node) node
unfolding decode_plan_node plan_node_bytes
decode_plan_node-Reads node v rest = simp append_assoc (
    rw (
      string-Reads node.node_type v.node_type_fits,
      opt_string-Reads node.relation v.relation_fits,
      opt_string-Reads node.parent_relationship v.parent_relationship_fits,
      opt_string-Reads node.subplan_name v.subplan_name_fits,
      u64-Reads node.subplans_removed v.subplans_removed_fits,
      opt_i64-Reads node.workers_launched v.workers_launched_fits,
      bool-Reads node.never_executed,
      bool-Reads node.instrumentation_incomplete,
      f64-Reads node.startup_cost v.startup_cost_fits,
      f64-Reads node.total_cost v.total_cost_fits,
      f64-Reads node.rows v.rows_fits,
      i32-Reads node.width_bytes v.width_bytes_fits,
      bool-Reads node.parallel_aware,
      bool-Reads node.parallel_safe,
      bool-Reads node.async_capable,
      i64-Reads node.instr_startup_time_ns v.instr_startup_time_ns_fits,
      i64-Reads node.instr_total_time_ns v.instr_total_time_ns_fits,
      f64-Reads node.instr_rows v.instr_rows_fits,
      f64-Reads node.instr_secondary_rows v.instr_secondary_rows_fits,
      f64-Reads node.instr_loops v.instr_loops_fits,
      f64-Reads node.instr_rows_removed_by_scan_or_join_filter
          v.instr_rows_removed_by_scan_or_join_filter_fits,
      f64-Reads node.instr_rows_removed_by_other_filter v.instr_rows_removed_by_other_filter_fits,
    ))

unfoldable pub attributes_bytes : SpanAttributes → List ℕ
attributes_bytes (query q) = query_bytes q
attributes_bytes (plan_node node) = plan_node_bytes node

encode_attributes-bytes :
    (a : SpanAttributes) (out : List ℕ) → encode_attributes a out ≡ out ++ attributes_bytes a
unfolding encode_attributes attributes_bytes
encode_attributes-bytes (query q) out = encode_query-bytes q out
encode_attributes-bytes (plan_node node) out = encode_plan_node-bytes node out

decode_attributes-Reads :
    (a : SpanAttributes)
    → IsAttributes a
    → Reads (decode_attributes (kind_of a)) (attributes_bytes a) a
unfolding decode_attributes attributes_bytes kind_of
decode_attributes-Reads (query q) v rest = rw (decode_query-Reads q v rest)
decode_attributes-Reads (plan_node node) v rest = rw (decode_plan_node-Reads node v rest)

-- The encoding of a span by itself.
unfoldable pub span_bytes : SpanRecord → List ℕ
span_bytes s =
    (2 ∷ [])
    ++ ((kind_of s.attributes ∷ [])
        ++ (s.trace_id
            ++ (s.span_id
                ++ (s.parent_id
                    ++ (time_bytes s.start_time
                        ++ (time_bytes s.end_time
                            ++ (str_bytes s.name ++ attributes_bytes s.attributes)))))))

-- `encode_span` only appends, as the queue expects of a closure that writes a record.
pub encode_span-bytes :
    (span : SpanRecord) (out : List ℕ) → encode_span span out ≡ out ++ span_bytes span
unfolding encode_span span_bytes
encode_span-bytes span out = simp (appends, encode_attributes-bytes)

version_Reads : Reads (expect_version 2) [] tt
unfolding expect_version
version_Reads rest = refl

pub decode_body-Reads :
    (span : SpanRecord) → IsSpan span → Reads decode_body (span_bytes span) (clamp_span span)
unfolding decode_body span_bytes
decode_body-Reads s v rest = simp append_assoc (
    rw (
      u8-Reads 2,
      version_Reads,
      u8-Reads (kind_of s.attributes),
      array-Reads 16 s.trace_id (sym v.trace_id_fits),
      array-Reads 8 s.span_id (sym v.span_id_fits),
      array-Reads 8 s.parent_id (sym v.parent_id_fits),
      time-Reads s.start_time,
      time-Reads s.end_time,
      string-Reads s.name v.name_fits,
      decode_attributes-Reads s.attributes v.attributes_fit,
    ))

-- If the fields of a span have values of their types, with texts below 4 GiB,
-- decoding the encoding of the span gives the span, with its two times clamped to the range that the
-- format holds: a time before the epoch becomes the epoch, and one past 2^64 - 1 ns that limit.
pub decode_span-encode_span :
    (span : SpanRecord) → IsSpan span → decode_span (encode_span span []) ≡ ok (clamp_span span)
unfolding decode_span finish
decode_span-encode_span span v =
    ap (λ bytes. finish (decode_body bytes))
      (encode_span-bytes span [] ∙ sym (append-nil (span_bytes span)))
    ∙ ap finish (decode_body-Reads span v [])

-- Bytes behind the encoding of a span whose fields have values of their types are refused.
pub decode_span_trailing :
    (span : SpanRecord) (b : ℕ) (more : List ℕ)
    → IsSpan span
    → decode_span (encode_span span [] ++ (b ∷ more)) ≡ err trailing_bytes
unfolding decode_span finish
decode_span_trailing span b more v =
    ap (λ bytes. finish (decode_body (bytes ++ (b ∷ more)))) (encode_span-bytes span [])
    ∙ ap finish (decode_body-Reads span v (b ∷ more))
