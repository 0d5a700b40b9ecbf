-- ===== src/Worker/Run/Later.antt =====
-- What happens between two states of the worker of src/worker.rs.
use pg_otel.Prelude.{
  ℕ, ◌-◌, ◌≤◌, ◌≡◌, refl, sym, ap, ◌∙◌, true, false, ◌||◌, Bool, Bool-cases, inl, inr, List, [],
  ◌∷◌, ◌++◌, append_assoc, append-nil, length, length-map, arith,
}
use pg_otel.Queue.Frames.{frames, length-frames_cons}
use pg_otel.Queue.Window.{length-ring_bytes}
use pg_otel.Queue.{Ring}
use pg_otel.Span.{SpanRecord}
use pg_otel.Codec.RoundTrip.{span_bytes}
use pg_otel.Codec.Stream.{payloads}
use pg_otel.Pipeline.{HoldsSpans}
use pg_otel.Shared.{Header}
use pg_otel.Worker.{PendingSignals, poll, Worker}
use pg_otel.Worker.Run.{Run, waited, is_some, to_list}
use pg_otel.Worker.Run.Signals.{all_polled}

length-frames_le : (ps : List (List ℕ)) → length ps ≤ length (frames ps)
length-frames_le [] = omega arith
length-frames_le (p ∷ ps) = omega (arith, length-frames_cons p ps, length-frames_le ps)

-- A queue holds no more spans than it has bytes.
pub length-HoldsSpans :
    {r : Ring} {held : List SpanRecord} → HoldsSpans r held → length held ≤ length r.cells
length-HoldsSpans {r} {held} v = omega (
  arith,
  length-map span_bytes held,
  length-frames_le (payloads held),
  ap length v.queued.stored,
  length-ring_bytes r.cells r.state.head (r.state.tail - r.state.head),
  v.queued.consistent.bounded,
)

-- What other processes do to the queue adds spans to it.
abbrev pub IsArrival : (Header → Header) → Type 0
IsArrival arrive =
    (h : Header) (held : List SpanRecord)
    → HoldsSpans h.ring held
    → (more : List SpanRecord) × HoldsSpans ((arrive h).ring) (held ++ more)

abbrev pub any_sigterm : List PendingSignals → Bool
any_sigterm [] = false
any_sigterm (received ∷ polls) = received.sigterm || any_sigterm polls

-- SIGTERM is pending if it was, or if a poll found it.
all_polled-sigterm :
    (s : PendingSignals) (polls : List PendingSignals)
    → (all_polled s polls).sigterm ≡ (s.sigterm || any_sigterm polls)
all_polled-sigterm s [] = ground arith
all_polled-sigterm s (p ∷ polls) = let rest = all_polled-sigterm (poll s p) polls in ground arith

pub waited-sigterm :
    (in_time : Bool) (s : PendingSignals)
    → (in_time ≡ true → (waited in_time s).sigterm ≡ s.sigterm)
      × (s.sigterm ≡ true → (waited in_time s).sigterm ≡ true)
waited-sigterm in_time s = ground arith

any_sigterm-append :
    (xs ys : List PendingSignals) → any_sigterm (xs ++ ys) ≡ (any_sigterm xs || any_sigterm ys)
any_sigterm-append [] ys = refl
any_sigterm-append (x ∷ xs) ys = let rest = any_sigterm-append xs ys in ground arith

or_true : (x : Bool) → (x || true) ≡ true
or_true x = ground arith

module _ {E : Type 0} where
  -- What happened between two states of the worker, if `InTime` says that no wait ended for good:
  -- polls were made, the exporters `installed` came in and others were shut down, and spans queued
  -- and exported.
  pub record IsLater (InTime : Type 0) (installed : List E) (r r' : Run E) : Type 0 where
    pub used : List PendingSignals
    pub held : List SpanRecord
    pub polls : r.worker.polls ≡ used ++ r'.worker.polls
    pub remembered :
        (r.worker.signals.sigterm || any_sigterm used) ≡ true → r'.worker.signals.sigterm ≡ true
    pub received :
        InTime → r'.worker.signals.sigterm ≡ (r.worker.signals.sigterm || any_sigterm used)
    pub exporters :
        r'.shut_down ++ to_list r'.exporter ≡ (r.shut_down ++ to_list r.exporter) ++ installed
    pub kept : is_some r.exporter ≡ true → is_some r'.exporter ≡ true
    pub holds : HoldsSpans (r'.worker.header.ring) held

  pub IsLater-trans :
      {P Q : Type 0} (xs ys : List E) (r r' r'' : Run E)
      → IsLater P xs r r'
      → IsLater Q ys r' r''
      → IsLater (P × Q) (xs ++ ys) r r''
  IsLater-trans xs ys r r' r'' a b =
      let both = any_sigterm-append a.used b.used in
      record {
        used = a.used ++ b.used;
        held = b.held;
        polls =
            a.polls
            ∙ ap (λ t. a.used ++ t) b.polls
            ∙ sym (append_assoc a.used b.used r''.worker.polls);
        remembered = λ h. elim (Bool-cases (r.worker.signals.sigterm || any_sigterm a.used)) [
          | inl e ↦ b.remembered (rw (a.remembered e) refl)
          | inr e ↦
              let later : any_sigterm b.used ≡ true = ground arith in
              b.remembered (rw later (or_true (r'.worker.signals.sigterm)))
        ];
        received = λ h.
            b.received h.1
            ∙ ap (λ t. t || any_sigterm b.used) (a.received h.0)
            ∙ or_assoc (r.worker.signals.sigterm) (any_sigterm a.used) (any_sigterm b.used)
            ∙ ap (λ t. r.worker.signals.sigterm || t) (sym both);
        exporters =
            b.exporters
            ∙ ap (λ t. t ++ ys) a.exporters
            ∙ append_assoc (r.shut_down ++ to_list r.exporter) xs ys;
        kept = λ h. b.kept (a.kept h);
        holds = b.holds;
      }
    where
      or_assoc : (x y z : Bool) → ((x || y) || z) ≡ (x || (y || z))
      or_assoc x y z = ground arith

  -- A step that keeps the exporters, after some polls.
  pub only_polled :
      (P : Type 0) (r : Run E) (w : Worker) (signals : PendingSignals) (used : List PendingSignals)
      (held : List SpanRecord)
      → r.worker.polls ≡ used ++ w.polls
      → w.signals ≡ all_polled signals used
      → (P → signals.sigterm ≡ r.worker.signals.sigterm)
      → (r.worker.signals.sigterm ≡ true → signals.sigterm ≡ true)
      → HoldsSpans w.header.ring held
      → IsLater P [] r (record r { worker = w })
  only_polled P r w signals used held e f same stays v =
      let pending : w.signals.sigterm ≡ (signals.sigterm || any_sigterm used) =
        ap (λ s. s.sigterm) f ∙ all_polled-sigterm signals used in
      record {
        used = used;
        held = held;
        polls = e;
        remembered = λ h. elim (Bool-cases (r.worker.signals.sigterm)) [
          | inl t ↦ pending ∙ rw (stays t) refl
          | inr t ↦
              let found : any_sigterm used ≡ true = ground arith in
              pending ∙ rw found (or_true signals.sigterm)
        ];
        received = λ h. pending ∙ ap (λ t. t || any_sigterm used) (same h);
        exporters = sym (append-nil (r.shut_down ++ to_list r.exporter));
        kept = λ h. h;
        holds = v;
      }

  pub IsLater-weaken :
      (P Q : Type 0) (xs : List E) (r r' : Run E) → (Q → P) → IsLater P xs r r' → IsLater Q xs r r'
  IsLater-weaken P Q xs r r' f a = record {
    used = a.used;
    held = a.held;
    polls = a.polls;
    remembered = a.remembered;
    received = λ q. a.received (f q);
    exporters = a.exporters;
    kept = a.kept;
    holds = a.holds;
  }

  -- A step that polls nothing and leaves SIGTERM as it was.
  pub unpolled_step :
      (r : Run E) (w : Worker) (held : List SpanRecord)
      → r.worker.polls ≡ w.polls
      → w.signals.sigterm ≡ r.worker.signals.sigterm
      → HoldsSpans w.header.ring held
      → IsLater (Unit {0}) [] r (record r { worker = w })
  unpolled_step r w held e f v =
      only_polled Unit r w w.signals [] held e refl (λ h. f) (λ h. f ∙ h) v
