-- ===== src/PlanSpans/Connected.antt =====
-- The spans that `collect_plan_spans` of src/postgres.rs builds hang together.
use pg_otel.Prelude.{
  ℕ, suc, ◌+◌, ◌<◌, ◌≤◌, ◌≡◌, ◌⊎◌, inl, inr, refl, false, Bool-cases, Option, none, some, List, [],
  ◌∷◌, ◌++◌, length, length-append, le→ltb, lt→ltb, le→leb, lt→leb, arith, returns,
}
use pg_otel.Prelude.Int.{ltb_ℤ}
use pg_otel.Span.{Str, SpanId, SystemTime, SpanRecord, SpanLink}
use pg_otel.Span.Walk.{ChildEdge, WalkSummary, no_summary, count_node}
use pg_otel.Span.Walk.Recursion.{IsHeight, walk_plan-traverse}
use pg_otel.Span.Walk.Invariants.{OnSome, Keeps, Preserved, traverse-Keeps}
use pg_otel.PlanSpans.State.{PlanState, Plan}
use pg_otel.PlanSpans.Collect.{
  Collected, parent_or, collect_span, visit_plan, children_of_plan, nothing_collected,
  collect_plan_spans,
}
use pg_otel.PlanSpans.Node.{link, truncated_name, from_plan, with_plan, from_plan_of, min_time}
use native.Mathlib.Decide.{dec_lt}

-- The link of the query's span, or of one of `spans`.
pub data IsLink (query : SpanLink) : List SpanRecord → SpanLink → Type 0 where
  of_query : (spans : List SpanRecord) → IsLink query spans query
  of_last :
      (spans : List SpanRecord) (span : SpanRecord)
      → IsLink query (spans ++ (span ∷ [])) (link span)
  of_earlier :
      (spans : List SpanRecord) (span : SpanRecord) {l : SpanLink}
      → IsLink query spans l
      → IsLink query (spans ++ (span ∷ [])) l

-- A span below the span of a link: in its trace, started with the query, and not ended after it.
pub record IsBelow (wall_start : SystemTime) (parent : SpanLink) (span : SpanRecord) : Type 0 where
  pub same_trace : span.trace_id ≡ parent.trace_id
  pub parent_lem : span.parent_id ≡ parent.span_id
  pub start : span.start_time ≡ wall_start
  pub ends : ltb_ℤ parent.end_time span.end_time ≡ false

-- Spans of which each is below the query's span or below an earlier one.
pub data Connected (wall_start : SystemTime) (query : SpanLink) : List SpanRecord → Type 0 where
  none_yet : Connected wall_start query []
  one_more :
      (spans : List SpanRecord) (span : SpanRecord) (parent : SpanLink)
      → Connected wall_start query spans
      → IsLink query spans parent
      → IsBelow wall_start parent span
      → Connected wall_start query (spans ++ (span ∷ []))

ltb_ℤ-refl : (a : SystemTime) → ltb_ℤ a a ≡ false
ltb_ℤ-refl a = ground arith

min_time-le : (a b : SystemTime) → ltb_ℤ b (min_time a b) ≡ false
min_time-le a b = elim (Bool-cases (ltb_ℤ b a)) [ inl e ↦ rw e (ltb_ℤ-refl b) | inr e ↦ rw e e ]

from_plan_of-IsBelow :
    {N : Type 0} (state : PlanState N) (plan : Plan) (wall_start : SystemTime) (parent : SpanLink)
    (edge : Option ChildEdge) (id : SpanId)
    → IsBelow wall_start parent (from_plan_of state plan wall_start parent edge id)
unfolding from_plan_of
from_plan_of-IsBelow state plan wall_start parent edge id = record {
  same_trace = refl;
  parent_lem = refl;
  start = refl;
  ends = min_time-le _ parent.end_time;
}

module _ {N : Type 0} (view : N → PlanState N) (random : ℕ → SpanId) (wall_start : SystemTime)
    (query : SpanLink) (max_spans : ℕ) where
  -- The spans so far are connected, one for each node that was counted, and within the limit.
  pub record IsCollected (w : WalkSummary × Collected) : Type 0 where
    pub connected : Connected wall_start query (w.1.spans)
    pub counted : length (w.1.spans) ≡ w.0.emitted
    pub limited : w.0.emitted ≤ max_spans
    pub truncated : (w.0.omitted ≡ 0) ⊎ (w.0.emitted ≡ max_spans)

  abbrev Known : SpanLink → WalkSummary × Collected → Type 0
  Known l w = IsLink query (w.1.spans) l

  IsLink-parent_or :
      (w : WalkSummary × Collected) (parent : Option SpanLink)
      → OnSome (λ p. Known p w) parent
      → IsLink query (w.1.spans) (parent_or query parent)
  IsLink-parent_or w none k = of_query (w.1.spans)
  IsLink-parent_or w (some p) k = k

  -- What a visit leaves, when `built` is the span that it built, if any.
  abbrev after_visit :
      Option Str
      → WalkSummary × Collected
      → Option SpanRecord
      → Option SpanLink × (WalkSummary × Collected)
  after_visit relation (summary, c) built =
      let (l, c') = collect_span relation c built in (l, (count_node max_spans l summary, c'))

  visited :
      (relation : Option Str) (w : WalkSummary × Collected) (parent : SpanLink)
      (built : Option SpanRecord)
      → w.0.emitted < max_spans
      → IsLink query (w.1.spans) parent
      → OnSome (IsBelow wall_start parent) built
      → let (l, w') = after_visit relation w built in
        Keeps
          (children_of_plan view random wall_start query)
          (visit_plan view random wall_start query)
          max_spans
          IsCollected
          Known
          w
          w'
        × OnSome (λ p. Known p w') l
  visited relation (summary, c) parent none h k b =
      (rw (lt→leb max_spans summary.emitted h) (record { inv = λ i. i; known = λ p k. k }), tt)
  visited relation (summary, c) parent (some span) h k b = (
    record {
      inv = λ i. record {
        connected = one_more c.spans span parent i.connected k b;
        counted = omega (arith, length-append c.spans (span ∷ []), i.counted);
        limited = omega arith;
        truncated = omega (arith, i.truncated);
      };
      known = λ p k. of_earlier c.spans span k;
    },
    of_last c.spans span,
  )

  with_plan-IsBelow :
      (node : N) (parent : SpanLink) (edge : Option ChildEdge) (id : SpanId) (plan : Option Plan)
      → OnSome (IsBelow wall_start parent) (with_plan (view node) wall_start parent edge id plan)
  with_plan-IsBelow node parent edge id none = tt
  with_plan-IsBelow node parent edge id (some plan) =
      from_plan_of-IsBelow (view node) plan wall_start parent edge id

  preserved :
      Preserved
        (children_of_plan view random wall_start query)
        (visit_plan view random wall_start query)
        max_spans
        IsCollected
        Known
  unfolding from_plan
  preserved = record {
    visits = λ node edge parent w i k. elim (dec_lt (w.0.emitted) max_spans) [
      | yes room ↦ rw (lt→ltb (w.0.emitted) max_spans room) (
          visited (truncated_name ((view node).relation)) w (parent_or query parent)
            (from_plan (view node) wall_start (parent_or query parent) edge (random (w.1.drawn)))
            room (IsLink-parent_or w parent k)
            (with_plan-IsBelow node (parent_or query parent) edge (random (w.1.drawn))
              (view node).plan))
      | no full ↦
          rw
            (
              le→ltb (w.0.emitted) max_spans (omega arith),
              le→leb max_spans (w.0.emitted) (omega arith),
            )
            (
              record {
                inv = λ i. record {
                  connected = i.connected;
                  counted = i.counted;
                  limited = i.limited;
                  truncated = inr (omega (arith, i.limited));
                };
                known = λ p k. k;
              },
              tt,
            )
    ];
    enumerates = λ node summary c. record {
      inv = λ i. record {
        connected = i.connected;
        counted = i.counted;
        limited = i.limited;
        truncated = i.truncated;
      };
      known = λ p k. k;
    };
  }

  start_IsCollected : IsCollected (no_summary, nothing_collected view random wall_start query)
  start_IsCollected = record {
    connected = none_yet;
    counted = refl;
    limited = omega arith;
    truncated = inl refl;
  }

  -- Collecting the spans of a plan of finite height ends, with enough fuel. Each span is below the
  -- query's span or below a span collected before it: in the same trace, starting with the query
  -- and ending no later. There are at most `max_spans`, one for each node that was counted as
  -- emitted, and exactly as many if any node was omitted.
  pub collect_plan_spans-IsCollected :
      (rank : N → ℕ) (root : Option N)
      → IsHeight
          (children_of_plan view random wall_start query)
          (visit_plan view random wall_start query)
          max_spans
          rank
      → (steps : ℕ) × (w : WalkSummary × Collected) × ((more : ℕ)
          → collect_plan_spans view random wall_start query (steps + more) max_spans root
            ≡ returns w)
        × IsCollected w
  unfolding collect_plan_spans
  collect_plan_spans-IsCollected rank none ranked = (0, _, (λ more. refl), start_IsCollected)
  collect_plan_spans-IsCollected rank (some root) ranked =
      let (steps, e) =
        walk_plan-traverse (children_of_plan view random wall_start query)
          (visit_plan view random wall_start query) max_spans rank ranked root
          (nothing_collected view random wall_start query) in
      let k =
        traverse-Keeps (children_of_plan view random wall_start query)
          (visit_plan view random wall_start query) max_spans IsCollected Known preserved
          (suc (rank root)) root none none
          (no_summary, nothing_collected view random wall_start query) start_IsCollected tt in
      (steps, _, e, k.inv start_IsCollected)
