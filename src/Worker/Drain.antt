-- ===== src/Worker/Drain.antt =====
-- `drain_queue` of src/worker.rs over the shared queue: what is exported, and what stays.
use pg_otel.Prelude.{
  ℕ, zero, suc, ◌<◌, ◌≤◌, ◌≡◌, ◌≢◌, true, refl, sym, ap, ◌∙◌, subst, Bool, Bool-cases, inl, inr,
  if◌then◌else◌, List, [], ◌∷◌, ◌++◌, map, length-map, length, length-append, append_assoc,
  append-nil, ok, Outcome, returns, arith,
}
use pg_otel.Prelude.Each.{Each-returns}
use pg_otel.Queue.{drain_into}
use pg_otel.Queue.Tail.{DrainedAtMost, drain_into-tail}
use pg_otel.Span.{SpanRecord}
use pg_otel.Span.Export.{SpanData, export_span}
use pg_otel.Codec.RoundTrip.{clamp_span, span_bytes}
use pg_otel.Codec.Stream.{payloads}
use pg_otel.Codec.Decode.{decode_records}
use pg_otel.Pipeline.{HoldsSpans, decode_records-drain_into}
use pg_otel.Shared.{Header, drained_header, shared_drain_into}
use pg_otel.Worker.{
  Worker, Drained, empty, interrupted, PendingSignals, after_chunk, drain_queue, spans_of, chunk_of,
  take_chunk, chunk_bytes, export_chunk, with_chunk, next_chunk, polled, has_signal,
}

-- The spans as the exporter gets them.
abbrev pub exports : List SpanRecord → List SpanData
exports spans = map export_span (map clamp_span spans)

pub exports-append : (xs ys : List SpanRecord) → exports (xs ++ ys) ≡ exports xs ++ exports ys
exports-append [] ys = refl
exports-append (x ∷ xs) ys = ap (◌∷◌ (export_span (clamp_span x))) (exports-append xs ys)

-- What the worker handed on so far.
abbrev pub output : Worker → List SpanData
output w = if w.has_exporter then w.exported else w.discarded

-- A chunk: the oldest spans, of which there is one unless the queue is empty.
pub record Chunk (h : Header) (held : List SpanRecord) : Type 0 where
  pub taken : List SpanRecord
  pub left : List SpanRecord
  pub header : Header
  pub chunk : take_chunk h ≡ returns (exports taken, header)
  pub split : held ≡ taken ++ left
  pub progress : held ≢ [] → 0 < length taken
  pub holds : HoldsSpans (header.ring) left
  pub unmoved : header.ring.state.tail ≤ h.ring.state.tail
  pub drops : header.dropped_spans ≡ h.dropped_spans

chunk_of-taken :
    (h : Header) (bytes : List ℕ) (taken : List SpanRecord)
    → decode_records bytes ≡ returns (map clamp_span taken, 0)
    → chunk_of (returns (h, bytes, ok (length taken))) ≡ returns (exports taken, h)
chunk_of-taken h bytes [] e = refl
chunk_of-taken h bytes (s ∷ ss) e = ap (spans_of h) e

payloads_some : (held : List SpanRecord) → held ≢ [] → payloads held ≢ []
payloads_some [] h = λ e. h refl
payloads_some (s ∷ ss) h = λ e. cc

pub take_chunk_lem : (h : Header) {held : List SpanRecord} → HoldsSpans h.ring held → Chunk h held
unfolding take_chunk shared_drain_into
take_chunk_lem h {held} v =
    let (taken, left, r', bytes, e, d, split, t, v') = decode_records-drain_into chunk_bytes v in
    record {
      taken = taken;
      left = left;
      header = record h { ring = r' };
      chunk =
          ap (λ out. chunk_of (drained_header h out)) e
          ∙ chunk_of-taken (record h { ring = r' }) bytes taken d;
      split = split;
      progress = λ some_held.
          omega (arith, length-map span_bytes taken, t.progress (payloads_some held some_held));
      holds = v';
      unmoved =
          Each-returns (DrainedAtMost h.ring.state.tail) (drain_into h.ring [] chunk_bytes)
            (r', bytes, ok (length taken)) e (drain_into-tail h.ring [] chunk_bytes);
      drops = refl;
    }

-- A test that changes neither the queue nor what was handed on, nor the clock.
abbrev pub IsQuiet : (Worker → Bool × Worker) → Type 0
IsQuiet test =
    (w : Worker)
    → (((test w).1).header ≡ w.header)
      × (output (test w).1 ≡ output w)
      × (((test w).1).clock ≡ w.clock)

-- What draining a queue that holds `held` does: a front of the spans went out, in order, and the
-- rest is still queued; nothing is, if the worker was not interrupted; and it was interrupted only
-- behind a `test` that said so.
pub record Exported (test : Worker → Bool × Worker) (w : Worker) (held : List SpanRecord)
    (d : Drained) (w' : Worker) : Type 0 where
  pub taken : List SpanRecord
  pub left : List SpanRecord
  pub split : held ≡ taken ++ left
  pub out : output w' ≡ output w ++ exports taken
  pub holds : HoldsSpans (w'.header.ring) left
  pub complete : d ≡ empty → left ≡ []
  pub stopped :
      d ≡ interrupted → (before : Worker) × ((test before).0 ≡ true) × (w' ≡ (test before).1)
  pub clock : w'.clock ≡ w.clock

output-export_chunk :
    (spans : List SpanData) (w : Worker) → output (export_chunk spans w) ≡ output w ++ spans
output-export_chunk spans w = elim (Bool-cases w.has_exporter) [
  | inl e ↦ rw e refl
  | inr e ↦ rw e refl
]

header-export_chunk :
    (spans : List SpanData) (w : Worker) → (export_chunk spans w).header ≡ w.header
header-export_chunk spans w = elim (Bool-cases w.has_exporter) [
  | inl e ↦ rw e refl
  | inr e ↦ rw e refl
]

clock-export_chunk : (spans : List SpanData) (w : Worker) → (export_chunk spans w).clock ≡ w.clock
clock-export_chunk spans w = elim (Bool-cases w.has_exporter) [
  | inl e ↦ rw e refl
  | inr e ↦ rw e refl
]

-- The run of a loop from a state in which the queue holds `held`.
abbrev Run :
    (Worker → Bool × Worker) → Worker → List SpanRecord → Outcome (Drained × Worker) → Type 0
Run test w held run =
    (d : Drained) × (w' : Worker) × (run ≡ returns (d, w')) × Exported test w held d w'

nothing_held : (held : List SpanRecord) → (held ≢ [] → 0 < 0) → held ≡ []
nothing_held [] h = refl
nothing_held (s ∷ ss) h = absurd (omega (arith, h (λ e. cc)))

-- One chunk and what follows it.
chunk_step :
    (test : Worker → Bool × Worker) (w : Worker) (h : Header) (taken left held : List SpanRecord)
    (loop : Worker → Outcome (Drained × Worker))
    → held ≡ taken ++ left
    → (held ≢ [] → 0 < length taken)
    → HoldsSpans h.ring left
    → (0 < length taken
        → (w' : Worker) → HoldsSpans (w'.header.ring) left
        → Run test w' left (loop w'))
    → Run test w held
        (after_chunk export_chunk loop (returns (exports taken, record w { header = h })))
chunk_step test w h [] left held loop split progress v next =
    let nothing : held ≡ [] = nothing_held held progress in
    (
      empty,
      record w { header = h },
      refl,
      record {
        taken = [];
        left = left;
        split = split;
        out = sym (append-nil (output w));
        holds = v;
        complete = λ e. sym split ∙ nothing;
        stopped = λ e. cc;
        clock = refl;
      },
    )
chunk_step test w h (t ∷ ts) left held loop split progress v next =
    let w1 = record w { header = h } in
    let w2 = export_chunk (exports (t ∷ ts)) w1 in
    let (d, w', run, x) =
      next (omega arith) w2
        (subst (λ h. HoldsSpans h.ring left) (sym (header-export_chunk (exports (t ∷ ts)) w1)) v) in
    (
      d,
      w',
      run,
      record {
        taken = (t ∷ ts) ++ x.taken;
        left = x.left;
        split =
            split ∙ ap (λ l. (t ∷ ts) ++ l) x.split ∙ sym (append_assoc (t ∷ ts) x.taken x.left);
        out =
            x.out
            ∙ ap (λ o. o ++ exports x.taken) (output-export_chunk (exports (t ∷ ts)) w1)
            ∙ append_assoc (output w) (exports (t ∷ ts)) (exports x.taken)
            ∙ ap (λ e. output w ++ e) (sym (exports-append (t ∷ ts) x.taken));
        holds = x.holds;
        complete = x.complete;
        stopped = x.stopped;
        clock = x.clock ∙ clock-export_chunk (exports (t ∷ ts)) w1;
      },
    )

Exported-quiet :
    (test : Worker → Bool × Worker) (w w1 : Worker) {w' : Worker} {held : List SpanRecord}
    {d : Drained}
    → output w1 ≡ output w
    → w1.clock ≡ w.clock
    → Exported test w1 held d w'
    → Exported test w held d w'
Exported-quiet test w w1 e c x = record {
  taken = x.taken;
  left = x.left;
  split = x.split;
  out = x.out ∙ ap (λ o. o ++ exports x.taken) e;
  holds = x.holds;
  complete = x.complete;
  stopped = x.stopped;
  clock = x.clock ∙ c;
}

-- Draining the queue ends, if the fuel exceeds the number of spans. A front of the spans that the
-- queue held was handed on, in order, each once; the rest is still queued. The loop is interrupted only
-- behind a test that says so, and at once if the first one does; unless it is interrupted, nothing is
-- left. The test must leave the queue, the exporter and the clock alone.
pub drain_queue_lem :
    (test : Worker → Bool × Worker) (fuel : ℕ) (w : Worker) (held : List SpanRecord)
    → IsQuiet test
    → HoldsSpans (w.header.ring) held
    → length held < fuel
    → (d : Drained) × (w' : Worker) × (drain_queue fuel next_chunk export_chunk test w
        ≡ returns (d, w'))
      × Exported test w held d w'
      × ((test w).0 ≡ true → (d ≡ interrupted) × (w' ≡ (test w).1))
unfolding drain_queue
drain_queue_lem test zero w held q v enough = absurd (omega arith)
drain_queue_lem test (suc fuel) w held q v enough =
    let (stop, w1) = test w in
    let v1 = subst (λ h. HoldsSpans h.ring held) (sym (q w).0) v in
    elim (Bool-cases stop) [
      | inl e ↦ (
        interrupted,
        w1,
        rw e refl,
        Exported-quiet test w w1 (q w).1 (q w).2 (record {
          taken = [];
          left = held;
          split = refl;
          out = sym (append-nil (output w1));
          holds = v1;
          complete = λ e. cc;
          stopped = λ h. (w, e, refl);
          clock = refl;
        }),
        λ h. (refl, refl),
      )
      | inr e ↦
          let c = take_chunk_lem w1.header v1 in
          let (d, w', run, x) =
            chunk_step test w1 c.header c.taken c.left held
              (drain_queue fuel next_chunk export_chunk test) c.split c.progress c.holds
              (λ more w2 v2.
                let (d, w', run, x, _) =
                  drain_queue_lem test fuel w2 c.left q v2
                    (omega (arith, ap length c.split, length-append c.taken c.left)) in
                (d, w', run, x)) in
          (
            d,
            w',
            rw e (
                ap
                  (λ n.
                    after_chunk export_chunk (drain_queue fuel next_chunk export_chunk test)
                      (with_chunk w1 n))
                  c.chunk
                ∙ run),
            Exported-quiet test w w1 (q w).1 (q w).2 x,
            λ h. cc,
          )
    ]

polled-quiet :
    (w : Worker) (polls : List PendingSignals)
    → ((polled w.signals w polls).header ≡ w.header)
      × (output (polled w.signals w polls) ≡ output w)
      × ((polled w.signals w polls).clock ≡ w.clock)
polled-quiet w [] = (refl, refl, refl)
polled-quiet w (p ∷ ps) = (refl, refl, refl)

-- Polling for signals leaves the queue, the exporter and the clock alone.
pub has_signal-IsQuiet : IsQuiet has_signal
has_signal-IsQuiet w = polled-quiet w w.polls
