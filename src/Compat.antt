-- ===== src/Compat.antt =====
-- src/compat: what differs between the versions of Postgres. An instrumentation is the fields that the
-- code reads of it, and `end_loop` is Postgres' `InstrEndLoop`, which raises an error in one state.
pub mod Ticks
pub mod Pg18
pub mod Pg19
pub mod Nodes
mod Tests
use pg_otel.Prelude.{Bool, true, false, ◌&&◌, not, ◌==◌, Outcome, panics}
use pg_otel.Prelude.Int.{ℤ, pos, negsuc}
use pg_otel.Span.{Float}

abbrev pub is_zero : ℤ → Bool
is_zero (pos n) = n == 0
is_zero (negsuc n) = false

unfoldable pub is_mid_timer : (running : Bool) → (starttime_ticks : ℤ) → Bool
is_mid_timer running starttime_ticks = running && not (is_zero starttime_ticks)

-- `Instrumentation` of Postgres 18 and `NodeInstrumentation` of Postgres 19; the times are of the
-- type `T`.
pub record Instrumentation (T : Type 0) : Type 0 where
  pub running : Bool
  pub starttime_ticks : ℤ
  pub startup : T
  pub total : T
  pub ntuples : Float
  pub ntuples2 : Float
  pub nloops : Float
  pub nfiltered1 : Float
  pub nfiltered2 : Float
