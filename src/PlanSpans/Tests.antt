-- ===== src/PlanSpans/Tests.antt =====
-- The spans of a plan of two nodes: a Gather over a scan.
use pg_otel.Prelude.{
  ℕ, zero, suc, ◌+◌, ◌≡◌, true, false, none, some, [], ◌∷◌, replicate, returns, arith,
}
use pg_otel.Prelude.Int.{pos}
use pg_otel.Span.{SpanLink, SpanId}
use pg_otel.Span.Walk.{WalkSummary}
use pg_otel.Span.Walk.Recursion.{IsHeight}
use pg_otel.PlanSpans.State.{PlanState, Plan, gather, other_tag, incomplete}
use pg_otel.PlanSpans.Collect.{Collected, children_of_plan, visit_plan, collect_plan_spans}
use pg_otel.PlanSpans.Children.{plan_state_children, push_subplans, push_child, push_tagged}
use pg_otel.PlanSpans.Connected.{IsCollected, collect_plan_spans-IsCollected}

abbrev scan_plan : Plan
scan_plan = record {
  tag = other_tag;
  startup_cost = 0;
  total_cost = 0;
  plan_rows = 0;
  plan_width = pos 4;
  parallel_aware = true;
  parallel_safe = true;
  async_capable = false;
  planned_members = pos 0;
}

abbrev scan_state : PlanState ℕ
scan_state = record {
  type_name = 83 ∷ [];
  plan = some scan_plan;
  init_plans = [];
  sub_plans = [];
  lefttree = none;
  righttree = none;
  members = none;
  nplans = pos 0;
  subplan = none;
  custom_ps = [];
  nworkers_launched = pos 0;
  relation = some (116 ∷ []);
  instrument = incomplete;
}

abbrev view : ℕ → PlanState ℕ
view zero = scan_state
view (suc n) = record scan_state {
  plan = some (record scan_plan { tag = gather });
  lefttree = some n;
  nworkers_launched = pos 2;
}

abbrev random : ℕ → SpanId
random n = replicate 8 (n + 1)

abbrev query : SpanLink
query = record { trace_id = replicate 16 1; span_id = replicate 8 9; end_time = pos 1000 }

view-IsHeight :
    IsHeight
      (children_of_plan view random (pos 0) query)
      (visit_plan view random (pos 0) query)
      10
      (λ n. n)
unfolding plan_state_children push_subplans push_child push_tagged
view-IsHeight zero c = tt
view-IsHeight (suc n) c = (omega arith, tt)

collect_plan_spans-IsCollected_example :
    (steps : ℕ) × (w : WalkSummary × Collected) × ((more : ℕ)
      → collect_plan_spans view random (pos 0) query (steps + more) 10 (some 1) ≡ returns w)
    × IsCollected view random (pos 0) query 10 w
collect_plan_spans-IsCollected_example =
    collect_plan_spans-IsCollected view random (pos 0) query 10 (λ n. n) (some 1) view-IsHeight
