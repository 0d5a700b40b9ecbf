-- ===== src/PlanSpans/State.antt =====
-- The structs of Postgres that src/postgres.rs and src/span.rs read, as records of the fields that
-- they read; a pointer is optional, and a node is of any type `N`.
use pg_otel.Prelude.{Bool, Option, List}
use pg_otel.Prelude.Int.{ℤ, pos}
use pg_otel.Span.{Str, Float}

pub data NodeTag : Type 0 where
  append merge_append bitmap_and bitmap_or subquery_scan custom_scan gather gather_merge other_tag :
      NodeTag

pub record Plan : Type 0 where
  pub tag : NodeTag
  pub startup_cost : Float
  pub total_cost : Float
  pub plan_rows : Float
  pub plan_width : ℤ
  pub parallel_aware : Bool
  pub parallel_safe : Bool
  pub async_capable : Bool
  pub planned_members : ℤ

-- A `SubPlanState`: its `SubPlan` with the id and the display name, and the state of the plan.
pub record SubPlanState (N : Type 0) : Type 0 where
  pub subplan : Option (ℤ × Str)
  pub planstate : Option N

pub record NodeStats : Type 0 where
  pub startup_ns : ℤ
  pub total_ns : ℤ
  pub rows : Float
  pub secondary_rows : Float
  pub loops : Float
  pub filtered_by_scan_or_join : Float
  pub filtered_by_other : Float

abbrev pub no_stats : NodeStats
no_stats = record {
  startup_ns = pos 0;
  total_ns = pos 0;
  rows = 0;
  secondary_rows = 0;
  loops = 0;
  filtered_by_scan_or_join = 0;
  filtered_by_other = 0;
}

pub data NodeInstrument : Type 0 where
  measured : NodeStats → NodeInstrument
  incomplete : NodeInstrument

-- `members` and `nplans` are those of an Append, a MergeAppend or a Bitmap node, `subplan` that of
-- a SubqueryScan. `relation` is what `plan_table_name` finds, `instrument` what `node_instrument`.
pub record PlanState (N : Type 0) : Type 0 where
  pub type_name : Str
  pub plan : Option Plan
  pub init_plans : List (Option (SubPlanState N))
  pub sub_plans : List (Option (SubPlanState N))
  pub lefttree : Option N
  pub righttree : Option N
  pub members : Option (List (Option N))
  pub nplans : ℤ
  pub subplan : Option N
  pub custom_ps : List (Option N)
  pub nworkers_launched : ℤ
  pub relation : Option Str
  pub instrument : NodeInstrument
