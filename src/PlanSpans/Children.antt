-- ===== src/PlanSpans/Children.antt =====
-- `plan_state_children` of src/postgres.rs: the children of a plan node, as EXPLAIN shows them.
use pg_otel.Prelude.{
  ℕ, Bool, false, ◌&&◌, ◌||◌, not, Option, none, some, List, [], ◌∷◌, ◌++◌, if◌then◌else◌, take,
}
use pg_otel.Prelude.Int.{ℤ, pos, negsuc, ltb_ℤ}
use pg_otel.Span.{Str}
use pg_otel.Span.Walk.{
  Relationship, outer, inner, init_plan, sub_plan, member, subquery, child, child_edge_new,
  PlanChild,
}
use pg_otel.PlanSpans.State.{
  NodeTag, Plan, SubPlanState, PlanState, append, merge_append, bitmap_and, bitmap_or,
  subquery_scan, custom_scan, gather, gather_merge, other_tag,
}

-- `usize::try_from(count).unwrap_or(0)`.
abbrev pub count_of : ℤ → ℕ
count_of (pos n) = n
count_of (negsuc n) = 0

abbrev pub has_id : ℤ → List ℤ → Bool
has_id i [] = false
has_id i (j ∷ js) = (not (ltb_ℤ i j) && not (ltb_ℤ j i)) || has_id i js

module _ {N : Type 0} where
  unfoldable pub push_child : List (PlanChild N) → Option N → Relationship → List (PlanChild N)
  push_child children none relationship = children
  push_child children (some node) relationship =
      children ++ (record { node = node; edge = child_edge_new relationship } ∷ [])

  abbrev pub push_each : List (PlanChild N) → List (Option N) → Relationship → List (PlanChild N)
  push_each children [] relationship = children
  push_each children (n ∷ ns) relationship =
      push_each (push_child children n relationship) ns relationship

  unfoldable pub push_members :
      List (PlanChild N) → Option (List (Option N)) → ℤ → List (PlanChild N)
  push_members children none count = children
  push_members children (some members) count =
      push_each children (take (count_of count) members) member

  -- One sub-plan of a list, unless it was printed.
  abbrev pub push_subplan :
      List (PlanChild N)
      → Relationship
      → List ℤ
      → Option (SubPlanState N)
      → List (PlanChild N) × List ℤ
  push_subplan children relationship printed none = (children, printed)
  push_subplan children relationship printed (some state) =
      push_named children relationship printed state.subplan state.planstate
    where
      push_named :
          List (PlanChild N)
          → Relationship
          → List ℤ
          → Option (ℤ × Str)
          → Option N
          → List (PlanChild N) × List ℤ
      push_named children relationship printed none planstate = (children, printed)
      push_named children relationship printed (some subplan) none = (children, printed)
      push_named children relationship printed (some (id, name)) (some planstate) =
          if has_id id printed then (children, printed) else (
            children
                ++ (record {
                  node = planstate;
                  edge = record { relationship = relationship; subplan_name = some name };
                }
                    ∷ []),
            id ∷ printed,
          )

  unfoldable pub push_subplans :
      List (PlanChild N)
      → List (Option (SubPlanState N))
      → Relationship
      → List ℤ
      → List (PlanChild N) × List ℤ
  push_subplans children [] relationship printed = (children, printed)
  push_subplans children (s ∷ ss) relationship printed =
      let (children', printed') = push_subplan children relationship printed s in
      push_subplans children' ss relationship printed'

  -- The match on the plan's tag.
  unfoldable pub push_tagged : List (PlanChild N) → PlanState N → NodeTag → List (PlanChild N)
  push_tagged children state append = push_members children state.members state.nplans
  push_tagged children state merge_append = push_members children state.members state.nplans
  push_tagged children state bitmap_and = push_members children state.members state.nplans
  push_tagged children state bitmap_or = push_members children state.members state.nplans
  push_tagged children state subquery_scan = push_child children state.subplan subquery
  push_tagged children state custom_scan = push_each children state.custom_ps child
  push_tagged children state gather = children
  push_tagged children state gather_merge = children
  push_tagged children state other_tag = children

  abbrev pub push_planned : List (PlanChild N) → PlanState N → Option Plan → List (PlanChild N)
  push_planned children state none = children
  push_planned children state (some plan) = push_tagged children state plan.tag

  unfoldable pub plan_state_children : PlanState N → List ℤ → List (PlanChild N) × List ℤ
  plan_state_children state printed =
      let (children, printed) = push_subplans [] state.init_plans init_plan printed in
      let children = push_child children state.lefttree outer in
      let children = push_child children state.righttree inner in
      let children = push_planned children state state.plan in
      push_subplans children state.sub_plans sub_plan printed
