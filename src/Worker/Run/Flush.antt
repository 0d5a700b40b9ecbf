-- ===== src/Worker/Run/Flush.antt =====
-- `flush_and_shutdown` of src/worker.rs: what is still queued when the worker stops.
use pg_otel.Prelude.{
  ℕ, ◌+◌, ◌*◌, ◌≤◌, ◌≡◌, refl, sym, ap, subst, true, List, [], ◌++◌, returns, ◌>>=◌, arith,
}
use pg_otel.Span.{SpanRecord}
use pg_otel.Pipeline.{HoldsSpans}
use pg_otel.Worker.{Worker, Drained, empty, interrupted}
use pg_otel.Worker.Drain.{output, exports, IsQuiet, drain_queue_lem}
use pg_otel.Worker.Run.{
  Run, now, is_expired, is_some, to_list, enough, shutdown_flush_timeout, shut_down_last,
  flush_and_shutdown,
}
use pg_otel.Worker.Run.Later.{length-HoldsSpans}

is_expired-IsQuiet : (deadline : ℕ) → IsQuiet (is_expired deadline)
is_expired-IsQuiet deadline w = (refl, refl, refl)

-- A worker with the exporter of the run, or with none.
abbrev pub at_flush : {E : Type 0} → Run E → Worker
at_flush r = record r.worker { has_exporter = is_some r.exporter }

-- The clock showed a time from `deadline` on when it was read last.
abbrev pub IsLate : (deadline : ℕ) → Worker → Type 0
IsLate deadline w = (k : ℕ) × (w.readings ≡ k + 1) × (deadline ≤ w.clock k)

-- What a flush of a queue that holds `held` does.
pub record Flushed {E : Type 0} (r : Run E) (held : List SpanRecord) (d : Drained) (r' : Run E)
    : Type 0 where
  pub taken : List SpanRecord
  pub left : List SpanRecord
  pub split : held ≡ taken ++ left
  pub out : output r'.worker ≡ output (at_flush r) ++ exports taken
  pub holds : HoldsSpans (r'.worker.header.ring) left
  pub complete : d ≡ empty → left ≡ []
  pub late : d ≡ interrupted → IsLate (r.worker.clock r.worker.readings + 5 * 1000000000) r'.worker
  pub clock : r'.worker.clock ≡ r.worker.clock
  pub shut_down : r'.shut_down ≡ r.shut_down ++ to_list r.exporter

-- An interruption by the deadline.
is_expired-IsLate :
    (deadline : ℕ) (before after : Worker)
    → (is_expired deadline before).0 ≡ true
    → after ≡ (is_expired deadline before).1
    → IsLate deadline after
is_expired-IsLate deadline before after e f =
    subst (IsLate deadline) (sym f) (before.readings, refl, ground arith)

-- Flushing a queue that holds spans ends, if each call of the exporter returns before the time-out of
-- the whole flush. A front of the spans is exported, in order, each once, or discarded if there is no
-- exporter. The rest stays queued only if the clock has shown that five seconds have passed since
-- the start; else none is left. Behind that the exporter is shut down.
pub flush_and_shutdown_lem :
    {E : Type 0} (r : Run E) (held : List SpanRecord)
    → HoldsSpans (r.worker.header.ring) held
    → (drained : Drained) × (r' : Run E) × (flush_and_shutdown r ≡ returns (drained, r'))
      × Flushed r held drained r'
unfolding flush_and_shutdown
flush_and_shutdown_lem r held v =
    let (time, w) = now (at_flush r) in
    let test = is_expired (time + shutdown_flush_timeout) in
    let (d, w', e, x, _) =
      drain_queue_lem test (enough w) w held (is_expired-IsQuiet (time + shutdown_flush_timeout)) v
        (omega (arith, length-HoldsSpans v)) in
    (
      d,
      record r { worker = w'; shut_down = r.shut_down ++ to_list r.exporter },
      ap (λ o. o >>= λ out. returns (shut_down_last r out)) e,
      record {
        taken = x.taken;
        left = x.left;
        split = x.split;
        out = x.out;
        holds = x.holds;
        complete = x.complete;
        late = λ h.
            let (before, said, same) = x.stopped h in
            is_expired-IsLate (time + shutdown_flush_timeout) before w' said same;
        clock = x.clock;
        shut_down = refl;
      },
    )
