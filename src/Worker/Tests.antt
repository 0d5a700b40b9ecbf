-- ===== src/Worker/Tests.antt =====
-- The theorems on src/worker.rs at a queue that holds one span.
use pg_otel.Prelude.{◌+◌, ◌*◌, ◌≡◌, true, false, [], ◌∷◌, returns, arith}
use pg_otel.Prelude.Int.{pos}
use pg_otel.Codec.Samples.{select_one}
use pg_otel.Pipeline.Samples.{full_ring, full_ring-HoldsSpans}
use pg_otel.Worker.{
  Worker, Drained, interrupted, drain_queue, next_chunk, export_chunk, has_signal,
  DroppedSpansReport, report,
}
use pg_otel.Worker.Drain.{Exported, drain_queue_lem, has_signal-IsQuiet}
use pg_otel.Worker.Report.{Reports, report_lem}

abbrev busy : Worker
busy = record {
  header = record { ring = full_ring; worker_proc_number = pos 3; dropped_spans = 0 };
  signals = record { sighup = false; sigterm = false };
  polls =
      record { sighup = false; sigterm = false } ∷ record { sighup = true; sigterm = false } ∷ [];
  has_exporter = true;
  exported = [];
  discarded = [];
  clock = λ n. n;
  readings = 0;
}

drain_queue_lem_example :
    (d : Drained) × (w' : Worker) × (drain_queue 2 next_chunk export_chunk has_signal busy
      ≡ returns (d, w'))
    × Exported has_signal busy (select_one ∷ []) d w'
    × ((has_signal busy).0 ≡ true → (d ≡ interrupted) × (w' ≡ (has_signal busy).1))
drain_queue_lem_example =
    drain_queue_lem has_signal 2 busy (select_one ∷ []) has_signal-IsQuiet full_ring-HoldsSpans
      (omega arith)

abbrev minutes_ago : DroppedSpansReport
minutes_ago = record { last_logged_at = 1; last_total = 2 }

report_lem_example :
    Reports minutes_ago (2 + 60 * 1000000000) 7 (report minutes_ago (2 + 60 * 1000000000) 7)
report_lem_example = report_lem minutes_ago (2 + 60 * 1000000000) 7
