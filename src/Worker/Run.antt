-- ===== src/Worker/Run.antt =====
-- The main loop of src/worker.rs: `background_worker_run`, `reload_exporter` and `flush_and_shutdown`.
-- An exporter is anything (`E`). What the loop meets is data: `Wake` for each of its rounds. Calls of
-- an exporter return, so that the time-out around a single export never ends it.
pub mod Signals
pub mod Later
pub mod Rounds
pub mod Flush
mod Tests
use pg_otel.Prelude.{
  ℕ, suc, ◌+◌, ◌*◌, Bool, true, false, Option, none, some, List, [], ◌∷◌, ◌++◌, leb, if◌then◌else◌,
  Outcome, returns, panics, unfinished, ◌>>=◌,
}
use pg_otel.Queue.{capacity}
use pg_otel.Shared.{Header, dropped_spans_of}
use pg_otel.Worker.{
  PendingSignals, any, Drained, drain_queue, Worker, next_chunk, export_chunk, polled,
  export_pending, DroppedSpansReport, report_new, report,
}

-- `Instant::now()`.
abbrev pub now : Worker → ℕ × Worker
now w = (w.clock w.readings, record w { readings = w.readings + 1 })

abbrev pub shutdown_flush_timeout : ℕ
shutdown_flush_timeout = 5 * 1000000000

-- The test of the deadline between chunks.
abbrev pub is_expired : (deadline : ℕ) → Worker → Bool × Worker
is_expired deadline w = let (time, w') = now w in (leb deadline time, w')

-- A chunk takes a byte at least, so this is enough for a queue that nobody adds to.
abbrev pub enough : Worker → ℕ
enough w = suc (capacity (w.header.ring))

abbrev pub no_signals : PendingSignals
no_signals = record { sighup = false; sigterm = false }

-- What `wait_latch` returns, which is false after a SIGTERM or the death of the postmaster, is
-- asked for only if no signal is pending.
abbrev pub waited : (in_time : Bool) → PendingSignals → PendingSignals
waited in_time signals =
    if any signals then signals else if in_time then signals else record signals { sigterm = true }

module _ {E : Type 0} where
  abbrev pub is_some : Option E → Bool
  is_some none = false
  is_some (some exporter) = true

  abbrev pub to_list : Option E → List E
  to_list none = []
  to_list (some exporter) = exporter ∷ []

abbrev pub append_some : Option (ℕ × ℕ) → List (ℕ × ℕ) → List (ℕ × ℕ)
append_some none logged = logged
append_some (some message) logged = logged ++ (message ∷ [])

-- The worker between two rounds, and the exporters that it has shut down.
pub record Run (E : Type 0) : Type 0 where
  pub exporter : Option E
  pub shut_down : List E
  pub dropped_report : DroppedSpansReport
  pub logged : List (ℕ × ℕ)
  pub worker : Worker

-- What a round meets: the answer of `wait_latch`, what other processes did to the queue while it
-- slept, and what `build_exporter` gives if it is asked.
pub record Wake (E : Type 0) : Type 0 where
  pub in_time : Bool
  pub arrive : Header → Header
  pub built : Option E

module _ {E : Type 0} where
  unfoldable pub reload_exporter : (built : Option E) → Run E → Run E
  reload_exporter none r = r
  reload_exporter (some new) r = record r {
    exporter = some new;
    shut_down = r.shut_down ++ to_list r.exporter;
  }

  -- The start of a round: the sleep and the poll behind it.
  abbrev pub woken : Wake E → Run E → Run E
  woken wake r =
      let w = record r.worker {
        header = wake.arrive (r.worker.header);
        signals = waited wake.in_time r.worker.signals;
      } in
      record r { worker = polled w.signals w w.polls }

  -- `take` of the pending SIGHUP, and the reload.
  abbrev pub reacted : Wake E → Run E → Run E
  reacted wake r =
      if r.worker.signals.sighup
      then reload_exporter wake.built (record r {
        worker = record r.worker { signals = record r.worker.signals { sighup = false } };
      })
      else r

  abbrev pub with_worker : Run E → Outcome (Drained × Worker) → Outcome (Run E)
  with_worker r (returns (drained, w)) = returns (record r { worker = w })
  with_worker r panics = panics
  with_worker r unfinished = unfinished

  abbrev pub exported_pending : Run E → Outcome (Run E)
  exported_pending r =
      let w = record r.worker { has_exporter = is_some r.exporter } in
      with_worker r (export_pending (enough w) w)

  -- The numbers that `log_if_due` logs, if any, are added to `logged`.
  abbrev pub log_if_due : Run E → Run E
  log_if_due r =
      let (time, w) = now r.worker in
      let (dropped_report, message) =
        report r.dropped_report time (dropped_spans_of (some w.header)) in
      record r {
        dropped_report = dropped_report;
        logged = append_some message r.logged;
        worker = w;
      }

  abbrev pub goes_on : Run E → Outcome (Bool × Run E)
  goes_on r = returns (false, log_if_due r)

  -- A round of the loop, and whether the loop ends with it.
  unfoldable pub round : Wake E → Run E → Outcome (Bool × Run E)
  round wake r =
      let r' = woken wake r in
      let rest = exported_pending (reacted wake r') >>= goes_on in
      if r'.worker.signals.sigterm then returns (true, r') else rest

  -- The loop over the rounds that are given; it may go on behind them.
  unfoldable pub main_loop : List (Wake E) → Run E → Outcome (Bool × Run E)
  main_loop [] r = returns (false, r)
  main_loop (wake ∷ wakes) r =
      round wake r >>= λ out. if out.0 then returns out else main_loop wakes out.1

  abbrev pub shut_down_last : Run E → Drained × Worker → Drained × Run E
  shut_down_last r (drained, w) =
      (drained, record r { worker = w; shut_down = r.shut_down ++ to_list r.exporter })

  unfoldable pub flush_and_shutdown : Run E → Outcome (Drained × Run E)
  flush_and_shutdown r =
      let (time, w) = now (record r.worker { has_exporter = is_some r.exporter }) in
      drain_queue (enough w) next_chunk export_chunk (is_expired (time + shutdown_flush_timeout)) w
      >>= λ out. returns (shut_down_last r out)

  -- The worker with the exporter that was built first, at its start; the flush follows a loop that
  -- ended.
  abbrev pub started : (built : Option E) → Worker → Run E
  started built w =
      let (time, w') = now w in
      record {
        exporter = built;
        shut_down = [];
        dropped_report = report_new time;
        logged = [];
        worker = record w' { signals = no_signals };
      }

  abbrev pub flushed : Bool × Run E → Outcome (Option Drained × Run E)
  flushed (false, r) = returns (none, r)
  flushed (true, r) = flush_and_shutdown r >>= λ out. returns (some out.0, out.1)

  unfoldable pub background_worker_run :
      (built : Option E) → List (Wake E) → Worker → Outcome (Option Drained × Run E)
  background_worker_run built wakes w = main_loop wakes (started built w) >>= flushed
