-- ===== src/Worker.antt =====
-- src/worker.rs: the background worker that drains the queue and exports the spans.
-- The worker's surroundings are data: `polls` are the signals that each poll finds newly received,
-- and the exporter is the list of what it was handed. Log messages are left out.
pub mod Drain
pub mod Exporter
pub mod Report
pub mod Run
mod Tests
use pg_otel.Prelude.{
  ℕ, zero, suc, ◌+◌, ◌-◌, ◌*◌, Bool, true, false, ◌||◌, Option, none, some, List, [], ◌∷◌, ◌++◌,
  map, ltb, ◌==◌, if◌then◌else◌, Result, ok, err, Outcome, returns, panics, unfinished,
}
use pg_otel.Queue.{Corrupted}
use pg_otel.Span.{SpanRecord}
use pg_otel.Span.Export.{SpanData, export_span}
use pg_otel.Codec.Decode.{decode_records}
use pg_otel.Shared.{Header, shared_drain_into}

abbrev pub chunk_bytes : ℕ
chunk_bytes = 256 * 1024

abbrev pub dropped_log_interval : ℕ
dropped_log_interval = 60 * 1000000000

pub record PendingSignals : Type 0 where
  pub sighup : Bool
  pub sigterm : Bool

-- What a poll finds is folded into the pending set.
abbrev pub poll : PendingSignals → (received : PendingSignals) → PendingSignals
poll signals received = record {
  sighup = signals.sighup || received.sighup;
  sigterm = signals.sigterm || received.sigterm;
}

abbrev pub any : PendingSignals → Bool
any signals = signals.sighup || signals.sigterm

pub data Drained : Type 0 where
  empty interrupted : Drained

-- The end of a round of `drain_queue`, once the next chunk is there.
abbrev pub after_chunk :
    {S T : Type 0}
    → (List T → S → S)
    → (S → Outcome (Drained × S))
    → Outcome (List T × S)
    → Outcome (Drained × S)
after_chunk handle loop (returns ([], s)) = returns (empty, s)
after_chunk handle loop (returns (c ∷ cs, s)) = loop (handle (c ∷ cs) s)
after_chunk handle loop panics = panics
after_chunk handle loop unfinished = unfinished

-- The closures' captures are the state `S`. The loop does not end while chunks come.
unfoldable pub drain_queue :
    {S T : Type 0}
    → (fuel : ℕ) → (next_chunk : S → Outcome (List T × S)) → (handle : List T → S → S)
    → (is_interrupted : S → Bool × S) → S
    → Outcome (Drained × S)
drain_queue zero next_chunk handle is_interrupted s = unfinished
drain_queue (suc fuel) next_chunk handle is_interrupted s =
    let (stop, s') = is_interrupted s in
    let more =
      after_chunk handle (drain_queue fuel next_chunk handle is_interrupted) (next_chunk s') in
    if stop then returns (interrupted, s') else more

-- The spans of a decoded chunk; the number of undecodable records is only logged.
abbrev pub spans_of : Header → Outcome (List SpanRecord × ℕ) → Outcome (List SpanData × Header)
spans_of header (returns (spans, undecodable)) = returns (map export_span spans, header)
spans_of header panics = panics
spans_of header unfinished = unfinished

-- The match of `take_chunk` on what was drained.
abbrev pub chunk_of :
    Outcome (Header × List ℕ × Result ℕ Corrupted) → Outcome (List SpanData × Header)
chunk_of (returns (header, buffer, ok zero)) = returns ([], header)
chunk_of (returns (header, buffer, ok (suc n))) = spans_of header (decode_records buffer)
chunk_of (returns (header, buffer, err corrupted)) = returns ([], header)
chunk_of panics = panics
chunk_of unfinished = unfinished

unfoldable pub take_chunk : Header → Outcome (List SpanData × Header)
take_chunk header = chunk_of (shared_drain_into header [] chunk_bytes)

-- The worker: what it drains, the pending signals and those to come, what went to the exporter or,
-- without one, was discarded, and what the clock shows at each reading, with the number of readings
-- so far.
pub record Worker : Type 0 where
  pub header : Header
  pub signals : PendingSignals
  pub polls : List PendingSignals
  pub has_exporter : Bool
  pub exported : List SpanData
  pub discarded : List SpanData
  pub clock : ℕ → ℕ
  pub readings : ℕ

abbrev pub export_chunk : List SpanData → Worker → Worker
export_chunk spans w =
    if w.has_exporter
    then record w { exported = w.exported ++ spans }
    else record w { discarded = w.discarded ++ spans }

abbrev pub with_chunk : Worker → Outcome (List SpanData × Header) → Outcome (List SpanData × Worker)
with_chunk w (returns (spans, header)) = returns (spans, record w { header = header })
with_chunk w panics = panics
with_chunk w unfinished = unfinished

abbrev pub next_chunk : Worker → Outcome (List SpanData × Worker)
next_chunk w = with_chunk w (take_chunk w.header)

abbrev pub polled : PendingSignals → Worker → List PendingSignals → Worker
polled signals w [] = w
polled signals w (received ∷ polls) = record w { signals = poll signals received; polls = polls }

abbrev pub has_signal : Worker → Bool × Worker
has_signal w = let w' = polled w.signals w w.polls in (any w'.signals, w')

unfoldable pub export_pending : (fuel : ℕ) → Worker → Outcome (Drained × Worker)
export_pending fuel w = drain_queue fuel next_chunk export_chunk has_signal w

-- `DroppedSpansReport`; an `Instant` counts nanoseconds, and `duration_since` stops at zero.
pub record DroppedSpansReport : Type 0 where
  pub last_logged_at : ℕ
  pub last_total : ℕ

abbrev pub report_new : ℕ → DroppedSpansReport
report_new now = record { last_logged_at = now; last_total = 0 }

-- The two numbers of the message, if there is one.
unfoldable pub report : DroppedSpansReport → (now total : ℕ) → DroppedSpansReport × Option (ℕ × ℕ)
report r now total =
    let newly_dropped = total - r.last_total in
    if newly_dropped == 0 || ltb (now - r.last_logged_at) dropped_log_interval
    then (r, none)
    else (record { last_logged_at = now; last_total = total }, some (newly_dropped, total))
