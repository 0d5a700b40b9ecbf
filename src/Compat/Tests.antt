-- ===== src/Compat/Tests.antt =====
-- The theorems on src/compat at a clock of 3 GHz and a node that runs.
use pg_otel.Prelude.{
  ◌*◌, ◌/◌, ◌≡◌, ap, Bool-cases, inl, inr, true, false, some, Outcome, returns, panics,
  if◌then◌else◌, Bool, arith,
}
use pg_otel.Prelude.Int.{ℤ, pos}
use pg_otel.PlanSpans.State.{NodeInstrument, incomplete}
use pg_otel.Compat.{Instrumentation, is_mid_timer}
use pg_otel.Compat.Pg19
use pg_otel.Compat.Ticks.{ticks_to_ns, ticks_to_ns_exact}
use pg_otel.Compat.Nodes.{IsEndLoop, IsUnreadable, Read, is_mid_timer_sound, node_instrument_lem}

-- More ticks than the limit.
ticks_to_ns_exact_example :
    ticks_to_ns (pos 3000000000) 5461 1000000 ≡ pos (3000000000 * 5461 / 16384)
ticks_to_ns_exact_example =
    ticks_to_ns_exact 3000000000 5461 1000000 (omega arith) (omega arith) (omega arith)
      (omega arith)

abbrev running : Instrumentation ℤ
running = record {
  running = true;
  starttime_ticks = pos 0;
  startup = pos 16384;
  total = pos 32768;
  ntuples = 0;
  ntuples2 = 0;
  nloops = 0;
  nfiltered1 = 0;
  nfiltered2 = 0;
}

-- An `InstrEndLoop` that stops the cycle, or raises the error.
abbrev stop_cycle : Bool → Instrumentation ℤ → Outcome (Instrumentation ℤ)
stop_cycle mid_timer i = if mid_timer then panics else returns (record i { running = false })

abbrev end_loop : Instrumentation ℤ → Outcome (Instrumentation ℤ)
end_loop i = stop_cycle (is_mid_timer i.running i.starttime_ticks) i

end_loop-IsEndLoop : IsEndLoop end_loop
end_loop-IsEndLoop i h = elim (Bool-cases (is_mid_timer i.running i.starttime_ticks)) [
  | inl e ↦ absurd (h (is_mid_timer_sound i e))
  | inr e ↦ (record i { running = false }, ap (λ b. stop_cycle b i) e)
]

node_instrument_lem_example :
    (out : NodeInstrument) × (Pg19.node_instrument 5461 1000000 end_loop (some running)
      ≡ returns out)
    × Read 5461 1000000 end_loop (some running) out
    × (IsUnreadable (some running) → out ≡ incomplete)
node_instrument_lem_example =
    node_instrument_lem 5461 1000000 end_loop (some running) end_loop-IsEndLoop
