-- ===== src/Span/Walk.antt =====
-- `walk_plan` of src/span.rs: a plan tree walked depth-first with an explicit stack.
-- The closures `children_of` and `visit` may change what they capture: a state that the walk
-- passes through them.
pub mod Recursion
pub mod Invariants
mod Tests
use pg_otel.Prelude.{
  ℕ, zero, suc, ◌+◌, Option, none, some, List, [], ◌∷◌, ltb, leb, if◌then◌else◌, Outcome, returns,
  unfinished,
}
use pg_otel.Span.{Str}

-- EXPLAIN's "Parent Relationship".
pub data Relationship : Type 0 where
  outer inner init_plan sub_plan member subquery child : Relationship

pub record ChildEdge : Type 0 where
  pub relationship : Relationship
  pub subplan_name : Option Str

abbrev pub child_edge_new : Relationship → ChildEdge
child_edge_new relationship = record { relationship = relationship; subplan_name = none }

pub record PlanChild (N : Type 0) : Type 0 where
  pub node : N
  pub edge : ChildEdge

pub record WalkSummary : Type 0 where
  pub emitted : ℕ
  pub omitted : ℕ

abbrev pub no_summary : WalkSummary
no_summary = record { emitted = 0; omitted = 0 }

-- `Option::or`.
abbrev pub or {ℓ} : {A : Type ℓ} → Option A → Option A → Option A
or (some a) b = some a
or none b = b

-- The match of the walk on what `visit` returned.
abbrev pub count_node {ℓ} : {L : Type ℓ} → (max_spans : ℕ) → Option L → WalkSummary → WalkSummary
count_node max_spans (some link) summary = record summary { emitted = summary.emitted + 1 }
count_node max_spans none summary =
    if leb max_spans summary.emitted
    then record summary { omitted = summary.omitted + 1 }
    else summary

-- The children go onto the stack in reverse, so that the first is on top.
abbrev pub push_children :
    {N L : Type 0}
    → List (PlanChild N)
    → Option L
    → List (N × Option ChildEdge × Option L)
    → List (N × Option ChildEdge × Option L)
push_children [] parent stack = stack
push_children (c ∷ cs) parent stack = (c.node, some c.edge, parent) ∷ push_children cs parent stack

module _ {N L S : Type 0} (children_of : N → S → List (PlanChild N) × S)
    (visit : N → Option ChildEdge → Option L → S → Option L × S) (max_spans : ℕ) where
  abbrev pub visit_node :
      N → Option ChildEdge → Option L → WalkSummary × S → Option L × (WalkSummary × S)
  visit_node node edge parent (summary, s) =
      let (link, s') =
        if ltb summary.emitted max_spans then visit node edge parent s else (none, s) in
      (link, (count_node max_spans link summary, s'))

  unfoldable pub walk_loop :
      (fuel : ℕ)
      → List (N × Option ChildEdge × Option L)
      → WalkSummary × S
      → Outcome (WalkSummary × S)
  walk_loop zero stack w = unfinished
  walk_loop (suc fuel) [] w = returns w
  walk_loop (suc fuel) ((node, edge, parent) ∷ stack) w =
      let (link, (summary, s)) = visit_node node edge parent w in
      let (children, s') = children_of node s in
      walk_loop fuel (push_children children (or link parent) stack) (summary, s')

  unfoldable pub walk_plan : (fuel : ℕ) → N → S → Outcome (WalkSummary × S)
  walk_plan fuel root s = walk_loop fuel ((root, none, none) ∷ []) (no_summary, s)
