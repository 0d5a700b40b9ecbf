-- ===== src/PlanSpans/Collect.antt =====
-- `collect_plan_spans` of src/postgres.rs. `random` gives the ids of the generator in the order in
-- which they are drawn; it gives no invalid id, as `random_span_id` draws again then.
use pg_otel.Prelude.{
  ℕ, ◌+◌, Bool, true, false, ◌&&◌, ◌||◌, Option, none, some, List, [], ◌∷◌, ◌++◌, ltb, ◌==◌,
  if◌then◌else◌, Outcome, returns,
}
use pg_otel.Prelude.Int.{ℤ}
use pg_otel.Prelude.Text.{bytes_eq}
use pg_otel.Span.{Str, SpanId, SystemTime, SpanRecord, SpanLink}
use pg_otel.Span.Walk.{ChildEdge, PlanChild, WalkSummary, walk_plan}
use pg_otel.PlanSpans.State.{PlanState}
use pg_otel.PlanSpans.Children.{plan_state_children}
use pg_otel.PlanSpans.Node.{truncated_name, from_plan, link}

-- A set of tables, in the order of their names.
abbrev pub insert_table : Str → List Str → List Str
insert_table t [] = t ∷ []
insert_table t (u ∷ us) =
    if bytes_eq t u then u ∷ us else if bytes_lt t u then t ∷ u ∷ us else u ∷ insert_table t us
  where
    bytes_lt : Str → Str → Bool
    bytes_lt [] [] = false
    bytes_lt [] (b ∷ bs) = true
    bytes_lt (a ∷ xs) [] = false
    bytes_lt (a ∷ xs) (b ∷ ys) = ltb a b || (a == b && bytes_lt xs ys)

abbrev pub insert_relation : Option Str → List Str → List Str
insert_relation none tables = tables
insert_relation (some relation) tables = insert_table relation tables

-- What the closures of `collect_plan_spans` capture, and how many ids were drawn.
pub record Collected : Type 0 where
  pub printed_subplans : List ℤ
  pub spans : List SpanRecord
  pub tables : List Str
  pub drawn : ℕ

abbrev pub parent_or : SpanLink → Option SpanLink → SpanLink
parent_or query none = query
parent_or query (some parent) = parent

-- A span that was built, or none.
abbrev pub collect_span : Option Str → Collected → Option SpanRecord → Option SpanLink × Collected
collect_span relation c none = (none, c)
collect_span relation c (some span) = (
  some (link span),
  record c {
    tables = insert_relation relation c.tables;
    spans = c.spans ++ (span ∷ []);
    drawn = c.drawn + 1;
  },
)

module _ {N : Type 0} (view : N → PlanState N) (random : ℕ → SpanId) (wall_start : SystemTime)
    (query : SpanLink) where
  abbrev pub visit_plan :
      N → Option ChildEdge → Option SpanLink → Collected → Option SpanLink × Collected
  visit_plan node edge parent c =
      collect_span (truncated_name ((view node).relation)) c
        (from_plan (view node) wall_start (parent_or query parent) edge (random c.drawn))

  abbrev pub children_of_plan : N → Collected → List (PlanChild N) × Collected
  children_of_plan node c =
      let (children, printed) = plan_state_children (view node) c.printed_subplans in
      (children, record c { printed_subplans = printed })

  abbrev pub nothing_collected : Collected
  nothing_collected = record { printed_subplans = []; spans = []; tables = []; drawn = 0 }

  unfoldable pub collect_plan_spans :
      (fuel : ℕ) → (max_spans : ℕ) → Option N → Outcome (WalkSummary × Collected)
  collect_plan_spans fuel max_spans none =
      returns (record { emitted = 0; omitted = 0 }, nothing_collected)
  collect_plan_spans fuel max_spans (some root) =
      walk_plan children_of_plan visit_plan max_spans fuel root nothing_collected
