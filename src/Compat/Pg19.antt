-- ===== src/Compat/Pg19.antt =====
-- src/compat/pg19.rs. The scale of the clock and its limit are variables of Postgres.
use pg_otel.Prelude.{
  ℕ, Bool, true, false, Option, none, some, [], ◌∷◌, ◌++◌, leb, if◌then◌else◌, Outcome, returns,
  ◌>>=◌,
}
use pg_otel.Prelude.Int.{ℤ, pos, negsuc}
use pg_otel.Span.{Bytes, Str}
use pg_otel.Statement.{pg_str}
use pg_otel.PlanSpans.State.{NodeInstrument, measured, incomplete}
use pg_otel.Compat.{Instrumentation, is_mid_timer}
use pg_otel.Compat.Ticks.{ticks_to_ns}

-- `max(0)`.
abbrev pub max_zero : ℤ → ℤ
max_zero (pos n) = pos n
max_zero (negsuc n) = pos 0

-- The slot of a backend type, if the array has one; `last` is that of `B_LOGGER`.
unfoldable pub log_min_messages_slot : (last : ℕ) → (backend_type : ℕ) → Option ℕ
log_min_messages_slot last backend_type = if leb backend_type last then some backend_type else none

unfoldable pub cook_subplan_name : (is_cte is_init_plan : Bool) → (plan_name : Str) → Str
cook_subplan_name true is_init_plan plan_name = (67 ∷ 84 ∷ 69 ∷ []) ++ ((32 ∷ []) ++ plan_name)
cook_subplan_name false true plan_name =
    (73 ∷ 110 ∷ 105 ∷ 116 ∷ 80 ∷ 108 ∷ 97 ∷ 110 ∷ []) ++ ((32 ∷ []) ++ plan_name)
cook_subplan_name false false plan_name =
    (83 ∷ 117 ∷ 98 ∷ 80 ∷ 108 ∷ 97 ∷ 110 ∷ []) ++ ((32 ∷ []) ++ plan_name)

abbrev pub or_default : Option Str → Str
or_default none = []
or_default (some text) = text

unfoldable pub subplan_display_name :
    (is_cte_sublink is_init_plan : Bool) → (plan_name : Option Bytes) → Str
subplan_display_name is_cte_sublink is_init_plan plan_name =
    cook_subplan_name is_cte_sublink is_init_plan (or_default (pg_str plan_name))

module _ (ticks_per_ns_scaled max_ticks_no_overflow : ℕ) where
  unfoldable pub instr_ticks_to_ns : ℤ → ℤ
  instr_ticks_to_ns ticks = ticks_to_ns ticks ticks_per_ns_scaled max_ticks_no_overflow

  -- The ticks of the statement's instrumentation, if there is one.
  unfoldable pub query_total_ns : Option ℤ → Option ℤ
  query_total_ns none = none
  query_total_ns (some ticks) = some (max_zero (instr_ticks_to_ns ticks))

  abbrev pub stats_of : Instrumentation ℤ → NodeInstrument
  stats_of i = measured (record {
    startup_ns = max_zero (instr_ticks_to_ns i.startup);
    total_ns = max_zero (instr_ticks_to_ns i.total);
    rows = i.ntuples;
    secondary_rows = i.ntuples2;
    loops = i.nloops;
    filtered_by_scan_or_join = i.nfiltered1;
    filtered_by_other = i.nfiltered2;
  })

  unfoldable pub node_instrument :
      (end_loop : Instrumentation ℤ → Outcome (Instrumentation ℤ))
      → Option (Instrumentation ℤ)
      → Outcome NodeInstrument
  node_instrument end_loop none = returns incomplete
  node_instrument end_loop (some i) =
      let folded = end_loop i >>= λ j. returns (stats_of j) in
      if is_mid_timer i.running i.starttime_ticks then returns incomplete else folded
