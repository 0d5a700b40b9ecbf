-- ===== src/Worker/Run/Tests.antt =====
-- The theorems on the main loop of src/worker.rs at a queue that holds one span.
use pg_otel.Prelude.{ℕ, ◌≡◌, sym, subst, true, false, Bool, some, [], ◌∷◌, append-nil, returns}
use pg_otel.Prelude.Int.{pos}
use pg_otel.Codec.Samples.{select_one}
use pg_otel.Pipeline.{HoldsSpans}
use pg_otel.Pipeline.Samples.{full_ring, full_ring-HoldsSpans}
use pg_otel.Worker.{Worker, Drained}
use pg_otel.Worker.Run.{Run, Wake, main_loop, flush_and_shutdown}
use pg_otel.Worker.Run.Later.{IsArrival}
use pg_otel.Worker.Run.Rounds.{Looped, main_loop_lem}
use pg_otel.Worker.Run.Flush.{Flushed, flush_and_shutdown_lem}

-- The second poll finds a SIGHUP and the fourth a SIGTERM.
abbrev working : Worker
working = record {
  header = record { ring = full_ring; worker_proc_number = pos 3; dropped_spans = 0 };
  signals = record { sighup = false; sigterm = false };
  polls =
      record { sighup = false; sigterm = false }
      ∷ record { sighup = true; sigterm = false }
      ∷ record { sighup = false; sigterm = false }
      ∷ record { sighup = false; sigterm = true }
      ∷ [];
  has_exporter = true;
  exported = [];
  discarded = [];
  clock = λ n. n;
  readings = 0;
}

-- An exporter is a number.
abbrev running : Run ℕ
running = record {
  exporter = some 1;
  shut_down = [];
  dropped_report = record { last_logged_at = 0; last_total = 0 };
  logged = [];
  worker = working;
}

abbrev wake : Wake ℕ
wake = record { in_time = true; arrive = λ h. h; built = some 2 }

quiet : IsArrival (λ h. h)
quiet h held v = ([], subst (HoldsSpans h.ring) (sym (append-nil held)) v)

main_loop_lem_example :
    (stopped : Bool) × (r : Run ℕ) × (main_loop (wake ∷ wake ∷ wake ∷ []) running
      ≡ returns (stopped, r))
    × Looped (wake ∷ wake ∷ wake ∷ []) running stopped r
main_loop_lem_example =
    main_loop_lem (wake ∷ wake ∷ wake ∷ []) running (select_one ∷ []) (quiet, (quiet, (quiet, tt)))
      full_ring-HoldsSpans

flush_and_shutdown_lem_example :
    (drained : Drained) × (r : Run ℕ) × (flush_and_shutdown running ≡ returns (drained, r))
    × Flushed running (select_one ∷ []) drained r
flush_and_shutdown_lem_example =
    flush_and_shutdown_lem running (select_one ∷ []) full_ring-HoldsSpans
