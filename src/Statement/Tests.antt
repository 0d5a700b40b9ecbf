-- ===== src/Statement/Tests.antt =====
-- The theorem on the end of a statement at a plan of one node.
use pg_otel.Prelude.{
  ℕ, ◌+◌, ◌≡◌, true, false, ◌⊎◌, Option, none, some, List, [], ◌∷◌, replicate, returns,
}
use pg_otel.Prelude.Int.{pos, negsuc}
use pg_otel.Span.{SpanRecord}
use pg_otel.PlanSpans.State.{PlanState, other_tag, incomplete}
use pg_otel.PlanSpans.Children.{plan_state_children, push_subplans, push_child, push_tagged}
use pg_otel.Statement.{QueryDesc, Backend, select, normalized, statement_spans, is_explained}
use pg_otel.Statement.Built.{IsFinite, statement_spans_lem}
use pg_otel.Statement.Described.{IsEnabled, Made}

abbrev seq_scan : PlanState ℕ
seq_scan = record {
  type_name = 83 ∷ [];
  plan = some (record {
    tag = other_tag;
    startup_cost = 0;
    total_cost = 0;
    plan_rows = 0;
    plan_width = pos 4;
    parallel_aware = false;
    parallel_safe = true;
    async_capable = false;
    planned_members = pos 0;
  });
  init_plans = [];
  sub_plans = [];
  lefttree = none;
  righttree = none;
  members = none;
  nplans = pos 0;
  subplan = none;
  custom_ps = [];
  nworkers_launched = pos 0;
  relation = some (116 ∷ []);
  instrument = incomplete;
}

abbrev finished : QueryDesc ℕ
finished = record {
  top_eflags = some 0;
  total_ns = some (pos 2000000);
  operation = select;
  planned = some (pos 0, pos 0, pos 7);
  source_text = some (115 ∷ 101 ∷ []);
  planstate = some 0;
}

-- Statements of a millisecond and more are traced, and the scanner raises an error.
abbrev backend : Backend ℕ
backend = record {
  min_duration_ms = pos 1;
  parallel_worker_number = negsuc 0;
  explain_only_bit = 0;
  end_time = pos 5000000;
  guc_traceparent = none;
  query_text_mode = normalized;
  max_plan_spans = pos 10;
  propagator = λ get keys. record {
    trace_id = replicate 16 0;
    span_id = replicate 8 0;
    is_sampled = false;
    is_valid = false;
  };
  random_trace_id = replicate 16 5;
  query_span_id = replicate 8 6;
  random = λ n. replicate 8 (n + 7);
  view = λ n. seq_scan;
  server_encoding_is_utf8 = true;
  scan = λ text. none;
  clean_query_text = λ text location len. (location, len);
}

plan-IsFinite : IsFinite backend finished (λ n. n)
unfolding plan_state_children push_subplans push_child push_tagged
plan-IsFinite total_ns parent node c = tt

statement_spans_lem_example :
    (steps : ℕ) × (spans : Option (List SpanRecord)) × ((more : ℕ)
      → statement_spans backend (steps + more) (some finished) ≡ returns spans)
    × Made backend finished spans
    × ((spans ≡ none)
        ⊎ (IsEnabled backend.min_duration_ms backend.parallel_worker_number
            × (is_explained backend finished.top_eflags ≡ false)))
statement_spans_lem_example = statement_spans_lem backend finished (λ n. n) plan-IsFinite
