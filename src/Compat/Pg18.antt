-- ===== src/Compat/Pg18.antt =====
-- src/compat/pg18.rs. `rounded_nanos` is what the machine makes of `(seconds * 1e9).round() as i64` for a
-- double by its bits.
use pg_otel.Prelude.{
  ◌*◌, ◌%◌, ◌^◌, Bool, ◌||◌, Option, none, some, [], ltb, leb, ◌==◌, if◌then◌else◌, Outcome,
  returns, ◌>>=◌,
}
use pg_otel.Prelude.Int.{ℤ, pos}
use pg_otel.Span.{Bytes, Str, Float}
use pg_otel.Statement.{pg_str}
use pg_otel.PlanSpans.State.{NodeInstrument, measured, incomplete}
use pg_otel.Compat.{Instrumentation, is_mid_timer}

-- The bits of a NaN, and those of a number that is not positive.
abbrev pub is_nan : Float → Bool
is_nan bits = ltb (0x7ff * 2 ^ 52) (bits % 2 ^ 63)

abbrev pub not_positive : Float → Bool
not_positive bits = bits == 0 || leb (2 ^ 63) bits

unfoldable pub subplan_display_name : (plan_name : Option Bytes) → Str
subplan_display_name plan_name = plain (pg_str plan_name)
  where
    plain : Option Str → Str
    plain none = []
    plain (some text) = text

-- The instrumentation of the statement: whether it has a timer.
pub record Totaltime : Type 0 where
  pub need_timer : Bool
  pub instrument : Instrumentation Float

module _ (rounded_nanos : Float → ℤ)
    (end_loop : Instrumentation Float → Outcome (Instrumentation Float)) where
  unfoldable pub seconds_to_ns : Float → ℤ
  seconds_to_ns seconds =
      if is_nan seconds || not_positive seconds then pos 0 else rounded_nanos seconds

  -- The instrumentation with the last cycle folded in, if its totals are usable.
  unfoldable pub finished : Instrumentation Float → Outcome (Option (Instrumentation Float))
  finished i =
      let folded = end_loop i >>= λ j. returns (some j) in
      if is_mid_timer i.running i.starttime_ticks then returns none else folded

  abbrev pub total_of : Option (Instrumentation Float) → Option ℤ
  total_of none = none
  total_of (some i) = some (seconds_to_ns i.total)

  unfoldable pub query_total_ns : Option Totaltime → Outcome (Option ℤ)
  query_total_ns none = returns none
  query_total_ns (some t) =
      let total = finished t.instrument >>= λ i. returns (total_of i) in
      if t.need_timer then total else returns none

  abbrev pub stats_of : Option (Instrumentation Float) → NodeInstrument
  stats_of none = incomplete
  stats_of (some i) = measured (record {
    startup_ns = seconds_to_ns i.startup;
    total_ns = seconds_to_ns i.total;
    rows = i.ntuples;
    secondary_rows = i.ntuples2;
    loops = i.nloops;
    filtered_by_scan_or_join = i.nfiltered1;
    filtered_by_other = i.nfiltered2;
  })

  unfoldable pub node_instrument : Option (Instrumentation Float) → Outcome NodeInstrument
  node_instrument none = returns incomplete
  node_instrument (some i) = finished i >>= λ j. returns (stats_of j)
