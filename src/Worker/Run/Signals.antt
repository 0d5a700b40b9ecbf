-- ===== src/Worker/Run/Signals.antt =====
-- The signals that `export_pending` of src/worker.rs receives: none is lost.
use pg_otel.Prelude.{
  ℕ, zero, suc, ◌≡◌, refl, sym, ap, ◌∙◌, Bool-cases, inl, inr, List, [], ◌∷◌, ◌++◌, append_assoc,
  Outcome, returns, panics, unfinished,
}
use pg_otel.Prelude.Each.{Each, Each-mono}
use pg_otel.Span.Export.{SpanData}
use pg_otel.Shared.{Header}
use pg_otel.Worker.{
  PendingSignals, poll, Drained, after_chunk, drain_queue, Worker, next_chunk, with_chunk,
  take_chunk, export_chunk, polled, has_signal, export_pending,
}

-- The pending signals after some polls.
abbrev pub all_polled : PendingSignals → List PendingSignals → PendingSignals
all_polled signals [] = signals
all_polled signals (received ∷ polls) = all_polled (poll signals received) polls

-- Between two workers some polls were made, and what they found is pending.
pub record IsPolled (w w' : Worker) : Type 0 where
  pub used : List PendingSignals
  pub polls : w.polls ≡ used ++ w'.polls
  pub signals : w'.signals ≡ all_polled w.signals used

all_polled-append :
    (s : PendingSignals) (xs ys : List PendingSignals)
    → all_polled s (xs ++ ys) ≡ all_polled (all_polled s xs) ys
all_polled-append s [] ys = refl
all_polled-append s (x ∷ xs) ys = all_polled-append (poll s x) xs ys

-- A worker of which nothing was polled.
pub unpolled : (w w' : Worker) → w.polls ≡ w'.polls → w'.signals ≡ w.signals → IsPolled w w'
unpolled w w' e f = record { used = []; polls = e; signals = f }

pub IsPolled-trans : (w w' w'' : Worker) → IsPolled w w' → IsPolled w' w'' → IsPolled w w''
IsPolled-trans w w' w'' p q = record {
  used = p.used ++ q.used;
  polls = p.polls ∙ ap (λ t. p.used ++ t) q.polls ∙ sym (append_assoc p.used q.used w''.polls);
  signals =
      q.signals
      ∙ ap (λ s. all_polled s q.used) p.signals
      ∙ sym (all_polled-append w.signals p.used q.used);
}

pub polled-IsPolled :
    (w : Worker) (polls : List PendingSignals)
    → w.polls ≡ polls
    → IsPolled w (polled w.signals w polls)
polled-IsPolled w [] e = unpolled w w refl refl
polled-IsPolled w (p ∷ polls) e = record { used = p ∷ []; polls = e; signals = refl }

export_chunk-polls : (spans : List SpanData) (w : Worker) → w.polls ≡ (export_chunk spans w).polls
export_chunk-polls spans w = elim (Bool-cases w.has_exporter) [
  | inl e ↦ rw e refl
  | inr e ↦ rw e refl
]

export_chunk-signals :
    (spans : List SpanData) (w : Worker) → (export_chunk spans w).signals ≡ w.signals
export_chunk-signals spans w = elim (Bool-cases w.has_exporter) [
  | inl e ↦ rw e refl
  | inr e ↦ rw e refl
]

export_chunk-IsPolled : (spans : List SpanData) (w : Worker) → IsPolled w (export_chunk spans w)
export_chunk-IsPolled spans w =
    unpolled w (export_chunk spans w) (export_chunk-polls spans w) (export_chunk-signals spans w)

with_chunk-IsPolled :
    (w : Worker) (chunk : Outcome (List SpanData × Header))
    → Each (λ out. IsPolled w out.1) (with_chunk w chunk)
with_chunk-IsPolled w (returns (spans, header)) = unpolled w _ refl refl
with_chunk-IsPolled w panics = tt
with_chunk-IsPolled w unfinished = tt

-- The rest of a loop, from a worker that has taken a chunk.
after_chunk-IsPolled :
    (w : Worker) (loop : Worker → Outcome (Drained × Worker))
    (chunk : Outcome (List SpanData × Worker))
    → Each (λ out. IsPolled w out.1) chunk
    → ((w' : Worker) → Each (λ out. IsPolled w' out.1) (loop w'))
    → Each (λ out. IsPolled w out.1) (after_chunk export_chunk loop chunk)
after_chunk-IsPolled w loop (returns ([], w')) p h = p
after_chunk-IsPolled w loop (returns (c ∷ cs, w')) p h =
    let w'' = export_chunk (c ∷ cs) w' in
    Each-mono (λ out. IsPolled w'' out.1) (λ out. IsPolled w out.1) (loop w'')
      (λ out q.
        IsPolled-trans w w'' (out.1) (IsPolled-trans w w' w'' p (export_chunk-IsPolled (c ∷ cs) w'))
          q)
      (h w'')
after_chunk-IsPolled w loop panics p h = tt
after_chunk-IsPolled w loop unfinished p h = tt

-- What is pending after an export are the signals before it and those of its polls.
pub export_pending-IsPolled :
    (fuel : ℕ) (w : Worker) → Each (λ out. IsPolled w out.1) (export_pending fuel w)
unfolding export_pending drain_queue
export_pending-IsPolled zero w = tt
export_pending-IsPolled (suc fuel) w =
    let (stop, w1) = has_signal w in
    let first = polled-IsPolled w w.polls refl in
    elim (Bool-cases stop) [
      | inl e ↦ rw e first
      | inr e ↦ rw e (
          Each-mono (λ out. IsPolled w1 out.1) (λ out. IsPolled w out.1) _
            (λ out q. IsPolled-trans w w1 (out.1) first q)
            (after_chunk-IsPolled w1 (drain_queue fuel next_chunk export_chunk has_signal)
              (next_chunk w1) (with_chunk-IsPolled w1 (take_chunk w1.header))
              (export_pending-IsPolled fuel)))
    ]
