-- ===== src/System/Tests.antt =====
-- The theorem on the shared queue at a fresh one, with a backend and the worker.
use pg_otel.Prelude.{◌≡◌, refl, List, [], ◌∷◌, some, returns, arith}
use pg_otel.Prelude.Int.{pos}
use pg_otel.Codec.Samples.{select_one, select_one-IsSpan}
use pg_otel.Pipeline.Samples.{empty_ring, empty_ring-HoldsSpans, batch_bytes}
use pg_otel.System.{Action, publish_spans, export_turn, register, System, run_actions}
use pg_otel.System.Accounts.{IsAccounted, run_actions-IsAccounted}

abbrev start : System
start = record {
  header = record { ring = empty_ring; worker_proc_number = pos 3; dropped_spans = 0 };
  exported = [];
  answers = [];
}

start-IsAccounted : IsAccounted start
start-IsAccounted = record {
  front = [];
  held = [];
  holds = empty_ring-HoldsSpans;
  exported = refl;
  in_order = refl;
  counted = refl;
}

abbrev turns : List Action
turns =
    register (pos 4)
    ∷ publish_spans (some 10) (select_one ∷ [])
    ∷ publish_spans (some 10) (select_one ∷ [])
    ∷ export_turn
    ∷ publish_spans (some 10) (select_one ∷ [])
    ∷ []

run_actions-IsAccounted_example :
    (s : System) × (run_actions turns start ≡ returns s) × IsAccounted s
run_actions-IsAccounted_example =
    run_actions-IsAccounted turns start start-IsAccounted
      (
        tt,
        ((select_one-IsSpan, tt), ((select_one-IsSpan, tt), (tt, ((select_one-IsSpan, tt), tt)))),
      )
      (omega arith) (omega (arith, batch_bytes))
