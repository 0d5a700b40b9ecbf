-- ===== src/Span/Export/Keys.antt =====
-- The keys of an exported span.
use pg_otel.Prelude.{
  ℕ, suc, ◌≢◌, ◌≤◌, ◌<◌, ap, Bool, true, false, Option, none, some, List, [], ◌∷◌, ◌++◌, ltb, not,
  arith, All, All-append, All-mono,
}
use pg_otel.Span.{SpanRecord, QueryAttributes, PlanNodeAttributes, SpanAttributes, query, plan_node}
use pg_otel.Span.Export.{
  Key, Value, push_some, push_if, query_attributes, plan_attributes, export_as, export_span,
  is_zero, saturated, literal, postgresql, db, ns_to_seconds, ns_to_micros, text, int, boolean,
}
use pg_otel.Span.Export.Key.{
  db_operation_name, db_system_name, execution_total_time_seconds, plan_node_type, plan_relation,
  plan_parent_relationship, plan_subplan_name, plan_subplans_removed, plan_workers_launched,
  plan_never_executed, plan_instrumentation_incomplete, plan_startup_cost, plan_total_cost,
  plan_rows, plan_width_bytes, plan_parallel_aware, plan_parallel_safe, plan_async_capable,
  instrumentation_startup_time_seconds, instrumentation_total_time_seconds, instrumentation_rows,
  instrumentation_secondary_rows, instrumentation_loops, rows_removed_by_scan_or_join_filter,
  rows_removed_by_other_filter, span_duration_us, span_type, span_subtype, db_query_text,
  db_query_id, plan_spans_truncated, plan_spans_omitted,
}

-- A place for each key that agrees with the order in which attributes are pushed.
abbrev index : Key → ℕ
index db_operation_name = 0
index db_system_name = 1
index execution_total_time_seconds = 2
index plan_node_type = 3
index plan_relation = 4
index plan_parent_relationship = 5
index plan_subplan_name = 6
index plan_subplans_removed = 7
index plan_workers_launched = 8
index plan_never_executed = 9
index plan_instrumentation_incomplete = 10
index plan_startup_cost = 11
index plan_total_cost = 12
index plan_rows = 13
index plan_width_bytes = 14
index plan_parallel_aware = 15
index plan_parallel_safe = 16
index plan_async_capable = 17
index instrumentation_startup_time_seconds = 18
index instrumentation_total_time_seconds = 19
index instrumentation_rows = 20
index instrumentation_secondary_rows = 21
index instrumentation_loops = 22
index rows_removed_by_scan_or_join_filter = 23
index rows_removed_by_other_filter = 24
index span_duration_us = 25
index span_type = 26
index span_subtype = 27
index db_query_text = 28
index db_query_id = 29
index plan_spans_truncated = 30
index plan_spans_omitted = 31

-- No key occurs twice.
abbrev pub Distinct : List (Key × Value) → Type 0
Distinct [] = Unit
Distinct (x ∷ xs) = All (λ y. x.0 ≢ y.0) xs × Distinct xs

abbrev Rising : List (Key × Value) → Type 0
Rising [] = Unit
Rising (x ∷ xs) = All (λ y. index x.0 < index y.0) xs × Rising xs

-- The keys rise, and all are before place `n`.
record UpTo (n : ℕ) (xs : List (Key × Value)) : Type 0 where
  rising : Rising xs
  below : All (λ x. index x.0 < n) xs

Rising-Distinct : (xs : List (Key × Value)) → Rising xs → Distinct xs
Rising-Distinct [] r = tt
Rising-Distinct (x ∷ xs) r = (
  All-mono (λ y. index x.0 < index y.0) (λ y. x.0 ≢ y.0) xs (λ y h e. omega (arith, ap index e))
      r.0,
  Rising-Distinct xs r.1,
)

Rising-append :
    (n : ℕ) (xs ys : List (Key × Value))
    → Rising xs
    → All (λ x. index x.0 < n) xs
    → Rising ys
    → All (λ y. n ≤ index y.0) ys
    → Rising (xs ++ ys)
Rising-append n [] ys r h r' h' = r'
Rising-append n (x ∷ xs) ys r h r' h' = (
  All-append (λ y. index x.0 < index y.0) xs ys r.0
      (All-mono (λ y. n ≤ index y.0) (λ y. index x.0 < index y.0) ys (λ y k. omega (arith, h.0))
        h'),
  Rising-append n xs ys r.1 h.1 r' h',
)

module _ {n m : ℕ} {xs : List (Key × Value)} (u : UpTo n xs) (le : n ≤ m) where
  UpTo-mono : UpTo m xs
  UpTo-mono = record {
    rising = u.rising;
    below = All-mono (λ x. index x.0 < n) (λ x. index x.0 < m) xs (λ x h. omega arith) u.below;
  }

  UpTo-append :
      (ys : List (Key × Value))
      → Rising ys
      → All (λ y. n ≤ index y.0) ys
      → All (λ y. index y.0 < m) ys
      → UpTo m (xs ++ ys)
  UpTo-append ys r above below = record {
    rising = Rising-append n xs ys u.rising u.below r above;
    below = All-append (λ x. index x.0 < m) xs ys UpTo-mono.below below;
  }

  UpTo-push_if :
      (test : Bool) (ys : List (Key × Value))
      → Rising ys
      → All (λ y. n ≤ index y.0) ys
      → All (λ y. index y.0 < m) ys
      → UpTo m (push_if test ys xs)
  UpTo-push_if true ys r above below = UpTo-append ys r above below
  UpTo-push_if false ys r above below = UpTo-mono

UpTo-push_some :
    {n : ℕ} {A : Type 0} {xs : List (Key × Value)} (key : Key) (value : A → Value) (o : Option A)
    → n ≤ index key
    → UpTo n xs
    → UpTo (suc (index key)) (push_some key value o xs)
UpTo-push_some key value none h u = UpTo-mono u (omega arith)
UpTo-push_some key value (some v) h u =
    UpTo-append u (omega arith) ((key, value v) ∷ []) (tt, tt) (h, tt) (omega arith, tt)

query_attributes-Distinct : (attr : QueryAttributes) → Distinct (query_attributes attr)
unfolding query_attributes
query_attributes-Distinct attr =
    let start : UpTo 28 (
        (db_operation_name, text attr.operation)
        ∷ (db_system_name, literal postgresql)
        ∷ (execution_total_time_seconds, ns_to_seconds attr.exec_total_time_ns)
        ∷ (span_duration_us, ns_to_micros attr.exec_total_time_ns)
        ∷ (span_type, literal db)
        ∷ (span_subtype, literal postgresql)
        ∷ []) =
      record { rising = omega arith; below = omega arith } in
    let texts = UpTo-push_some db_query_text text attr.query_text (omega arith) start in
    let ids =
      UpTo-push_if {m = 30} texts (omega arith) (not (is_zero attr.query_id))
        ((db_query_id, int attr.query_id) ∷ []) (tt, tt) (omega arith, tt) (omega arith, tt) in
    let all =
      UpTo-push_if {m = 32} ids (omega arith) (ltb 0 attr.plan_spans_omitted)
        ((plan_spans_truncated, boolean true)
          ∷ (plan_spans_omitted, int (saturated attr.plan_spans_omitted))
          ∷ [])
        (omega arith) (omega arith) (omega arith) in
    Rising-Distinct _ all.rising

plan_attributes-Distinct : (attr : PlanNodeAttributes) → Distinct (plan_attributes attr)
unfolding plan_attributes
plan_attributes-Distinct attr =
    let start : UpTo 4
        ((db_system_name, literal postgresql) ∷ (plan_node_type, text attr.node_type) ∷ []) =
      record { rising = omega arith; below = omega arith } in
    let relations = UpTo-push_some plan_relation text attr.relation (omega arith) start in
    let relationships =
      UpTo-push_some plan_parent_relationship text attr.parent_relationship (omega arith)
        relations in
    let names =
      UpTo-push_some plan_subplan_name text attr.subplan_name (omega arith) relationships in
    let removed =
      UpTo-push_if {m = 8} names (omega arith) (ltb 0 attr.subplans_removed)
        ((plan_subplans_removed, int (saturated attr.subplans_removed)) ∷ []) (tt, tt)
        (omega arith, tt) (omega arith, tt) in
    let workers =
      UpTo-push_some plan_workers_launched int attr.workers_launched (omega arith) removed in
    let never =
      UpTo-push_if {m = 10} workers (omega arith) attr.never_executed
        ((plan_never_executed, boolean true) ∷ []) (tt, tt) (omega arith, tt) (omega arith, tt) in
    let incomplete =
      UpTo-push_if {m = 11} never (omega arith) attr.instrumentation_incomplete
        ((plan_instrumentation_incomplete, boolean true) ∷ []) (tt, tt) (omega arith, tt)
        (omega arith, tt) in
    let all =
      UpTo-append {m = 32} incomplete (omega arith) _ (omega arith) (omega arith) (omega arith) in
    Rising-Distinct _ all.rising

export_as-Distinct :
    (span : SpanRecord) (a : SpanAttributes) → Distinct ((export_as span a).attributes)
unfolding export_as
export_as-Distinct span (query attr) = query_attributes-Distinct attr
export_as-Distinct span (plan_node attr) = plan_attributes-Distinct attr

-- No attribute of an exported span has the key of another, whichever optional ones there are.
pub export_span-Distinct : (span : SpanRecord) → Distinct ((export_span span).attributes)
unfolding export_span
export_span-Distinct span = export_as-Distinct span span.attributes
