-- ===== src/Worker/Run/Rounds.antt =====
-- The main loop of src/worker.rs: it ends every round, stops for a SIGTERM only and at once, loses no
-- signal, and shuts every exporter that it replaces down once.
use pg_otel.Prelude.{
  ◌≡◌, refl, sym, ap, ◌∙◌, subst, true, false, Bool, Bool-cases, inl, inr, Option, none, some, List,
  [], ◌∷◌, ◌++◌, append-nil, All, returns, ◌>>=◌, if◌then◌else◌, arith,
}
use pg_otel.Prelude.Each.{Each-returns}
use pg_otel.Span.{SpanRecord}
use pg_otel.Pipeline.{HoldsSpans}
use pg_otel.Worker.{PendingSignals, Worker, polled, has_signal, export_pending}
use pg_otel.Worker.Drain.{drain_queue_lem, has_signal-IsQuiet}
use pg_otel.Worker.Run.{
  Run, Wake, waited, woken, reload_exporter, reacted, is_some, to_list, enough, exported_pending,
  with_worker, log_if_due, goes_on, round, main_loop,
}
use pg_otel.Worker.Run.Signals.{IsPolled, polled-IsPolled, export_pending-IsPolled}
use pg_otel.Worker.Run.Later.{
  length-HoldsSpans, IsArrival, waited-sigterm, IsLater, IsLater-trans, IsLater-weaken,
  unpolled_step, only_polled,
}

polled-header :
    (w : Worker) (polls : List PendingSignals) → (polled w.signals w polls).header ≡ w.header
polled-header w [] = refl
polled-header w (p ∷ polls) = refl

if_true : {A : Type 0} (b : Bool) (x y : A) → b ≡ true → (if b then x else y) ≡ x
if_true b x y e = rw e refl

if_false : {A : Type 0} (b : Bool) (x y : A) → b ≡ false → (if b then x else y) ≡ y
if_false b x y e = rw e refl

module _ {E : Type 0} where
  woken_lem :
      (wake : Wake E) (r : Run E) (held : List SpanRecord)
      → IsArrival wake.arrive
      → HoldsSpans (r.worker.header.ring) held
      → IsLater (wake.in_time ≡ true) [] r (woken wake r)
  woken_lem wake r held arrival v =
      let w : Worker = record r.worker {
        header = wake.arrive (r.worker.header);
        signals = waited wake.in_time r.worker.signals;
      } in
      let p = polled-IsPolled w w.polls refl in
      let (more, v') = arrival r.worker.header held v in
      let (same, stays) = waited-sigterm wake.in_time r.worker.signals in
      only_polled (wake.in_time ≡ true) r (polled w.signals w w.polls) w.signals p.used
        (held ++ more) p.polls p.signals same stays
        (subst (λ h. HoldsSpans h.ring (held ++ more)) (sym (polled-header w w.polls)) v')

  reload_lem :
      (built : Option E) (r : Run E) (held : List SpanRecord)
      → HoldsSpans (r.worker.header.ring) held
      → IsLater (Unit {0}) (to_list built) r (reload_exporter built r)
  unfolding reload_exporter
  reload_lem none r held v = unpolled_step r r.worker held refl refl v
  reload_lem (some new) r held v = record {
    used = [];
    held = held;
    polls = refl;
    remembered = λ h. ground arith;
    received = λ h. ground arith;
    exporters = refl;
    kept = λ h. refl;
    holds = v;
  }

  -- The exporter of a round: the one that is built, if SIGHUP is pending, and none otherwise.
  pub record Installs (sighup : Bool) (wake : Wake E) (installed : List E) : Type 0 where
    pub asked : sighup ≡ true → installed ≡ to_list wake.built
    pub unasked : sighup ≡ false → installed ≡ []

  reacted_lem :
      (wake : Wake E) (r : Run E) (held : List SpanRecord)
      → HoldsSpans (r.worker.header.ring) held
      → (installed : List E) × Installs (r.worker.signals.sighup) wake installed
        × IsLater (Unit {0}) installed r (reacted wake r)
  reacted_lem wake r held v = elim (Bool-cases (r.worker.signals.sighup)) [
    | inl e ↦
        let w : Worker = record r.worker { signals = record r.worker.signals { sighup = false } } in
        let r1 : Run E = record r { worker = w } in
        let taken = unpolled_step r w held refl refl v in
        (
          to_list wake.built,
          record { asked = λ h. refl; unasked = λ h. cc },
          subst (IsLater Unit (to_list wake.built) r) (sym (if_true r.worker.signals.sighup _ _ e))
              (IsLater-weaken (Unit × Unit) Unit (to_list wake.built) r
                (reload_exporter wake.built r1) (λ u. (tt, tt))
                (IsLater-trans [] (to_list wake.built) r r1 (reload_exporter wake.built r1) taken
                  (reload_lem wake.built r1 held v))),
        )
    | inr e ↦ (
      [],
      record { asked = λ h. cc; unasked = λ h. refl },
      subst (IsLater Unit [] r) (sym (if_false r.worker.signals.sighup _ _ e))
          (unpolled_step r r.worker held refl refl v),
    )
  ]

  -- An export returns, and nothing it polls is lost.
  exported_lem :
      (r : Run E) (held : List SpanRecord)
      → HoldsSpans (r.worker.header.ring) held
      → (r' : Run E) × (exported_pending r ≡ returns r') × IsLater (Unit {0}) [] r r'
  exported_lem r held v =
      let w : Worker = record r.worker { has_exporter = is_some r.exporter } in
      let (d, w', e, x, _) =
        drain_queue_lem has_signal (enough w) w held has_signal-IsQuiet v
          (omega (arith, length-HoldsSpans v)) in
      let run : export_pending (enough w) w ≡ returns (d, w') = unfold export_pending in e in
      let p =
        Each-returns (λ out. IsPolled w out.1) (export_pending (enough w) w) (d, w') run
          (export_pending-IsPolled (enough w) w) in
      (
        record r { worker = w' },
        ap (with_worker r) run,
        only_polled Unit r w' r.worker.signals p.used x.left p.polls p.signals (λ h. refl) (λ h. h)
            x.holds,
      )

  logged_lem :
      (r : Run E) (held : List SpanRecord)
      → HoldsSpans (r.worker.header.ring) held
      → IsLater (Unit {0}) [] r (log_if_due r)
  logged_lem r held v = record {
    used = [];
    held = held;
    polls = refl;
    remembered = λ h. ground arith;
    received = λ h. ground arith;
    exporters = sym (append-nil (r.shut_down ++ to_list r.exporter));
    kept = λ h. h;
    holds = v;
  }

  -- The exporters that a loop over `wakes` installs, in order: in each round that SIGTERM does not
  -- end, the one that is built, if SIGHUP is pending behind the poll.
  pub data Reloads : List (Wake E) → Run E → List E → Type 0 where
    no_rounds : (r : Run E) → Reloads [] r []
    ended :
        (wake : Wake E) (wakes : List (Wake E)) (r : Run E)
        → (woken wake r).worker.signals.sigterm ≡ true
        → Reloads (wake ∷ wakes) r []
    went_on :
        (wake : Wake E) (wakes : List (Wake E)) (r r' : Run E) (xs ys : List E)
        → round wake r ≡ returns (false, r')
        → Installs ((woken wake r).worker.signals.sighup) wake xs
        → Reloads wakes r' ys
        → Reloads (wake ∷ wakes) r (xs ++ ys)

  -- What a loop over `wakes` does.
  pub record Looped (wakes : List (Wake E)) (r : Run E) (stopped : Bool) (r' : Run E) : Type 0 where
    pub installed : List E
    pub reloads : Reloads wakes r installed
    pub later : IsLater (All (λ wake. wake.in_time ≡ true) wakes) installed r r'
    pub requested : stopped ≡ true → r'.worker.signals.sigterm ≡ true
    pub prompt : stopped ≡ false → r.worker.signals.sigterm ≡ true → wakes ≡ []

  abbrev InTime : Wake E → Type 0
  InTime wake = wake.in_time ≡ true

  -- The rest of a round that SIGTERM does not end.
  rest_lem :
      (wake : Wake E) (r : Run E) (held : List SpanRecord)
      → HoldsSpans (r.worker.header.ring) held
      → (r' : Run E) × ((exported_pending (reacted wake r) >>= goes_on) ≡ returns (false, r'))
        × (installed : List E) × Installs (r.worker.signals.sighup) wake installed
        × IsLater (Unit {0}) installed r r'
  rest_lem wake r held v =
      let (xs, i, a) = reacted_lem wake r held v in
      let (s, e, b) = exported_lem (reacted wake r) a.held a.holds in
      let c = logged_lem s b.held b.holds in
      (
        log_if_due s,
        ap (λ o. o >>= goes_on) e,
        xs,
        i,
        subst (λ ys. IsLater Unit ys r (log_if_due s)) (append-nil xs)
            (IsLater-weaken (Unit × (Unit × Unit)) Unit (xs ++ []) r (log_if_due s)
              (λ u. (tt, (tt, tt)))
              (IsLater-trans xs [] r (reacted wake r) (log_if_due s) a
                (IsLater-trans [] [] (reacted wake r) s (log_if_due s) b c))),
      )

  -- From a queue that holds spans, the main loop ends each of its rounds, if other processes add spans
  -- to the queue while the worker sleeps and leave it alone otherwise. If it stops, SIGTERM is pending, and a pending SIGTERM stops it in
  -- the next round. No SIGTERM is lost that a poll finds, also during an export; and if every wait
  -- returns in time, SIGTERM is pending only if a poll found it. A round that goes on installs the
  -- exporter that is built exactly if SIGHUP is pending behind its poll and one can be built; the
  -- exporters that were installed are, in order, shut down once each, but for the current one, and
  -- an exporter is never given up without another.
  pub main_loop_lem :
      (wakes : List (Wake E)) (r : Run E) (held : List SpanRecord)
      → All (λ wake. IsArrival (wake.arrive)) wakes
      → HoldsSpans (r.worker.header.ring) held
      → (stopped : Bool) × (r' : Run E) × (main_loop wakes r ≡ returns (stopped, r'))
        × Looped wakes r stopped r'
  unfolding main_loop round
  main_loop_lem [] r held arrivals v = (
    false,
    r,
    refl,
    record {
      installed = [];
      reloads = no_rounds r;
      later = IsLater-weaken Unit Unit [] r r (λ u. tt) (unpolled_step r r.worker held refl refl v);
      requested = λ e. cc;
      prompt = λ e f. refl;
    },
  )
  main_loop_lem (wake ∷ wakes) r held arrivals v =
      let first = woken_lem wake r held arrivals.0 v in
      let r1 = woken wake r in
      elim (Bool-cases (r1.worker.signals.sigterm)) [
        | inl e ↦ (
          true,
          r1,
          ap (λ o. o >>= λ out. if out.0 then returns out else main_loop wakes out.1)
              (if_true (r1.worker.signals.sigterm) _ _ e),
          record {
            installed = [];
            reloads = ended wake wakes r e;
            later =
                IsLater-weaken (InTime wake) (All InTime (wake ∷ wakes)) [] r r1 (λ h. h.0) first;
            requested = λ h. e;
            prompt = λ h k. cc;
          },
        )
        | inr e ↦
            let (r2, f, xs, i, middle) = rest_lem wake r1 first.held first.holds in
            let (stopped, r3, g, x) = main_loop_lem wakes r2 middle.held arrivals.1 middle.holds in
            (
              stopped,
              r3,
              ap (λ o. o >>= λ out. if out.0 then returns out else main_loop wakes out.1)
                    (if_false (r1.worker.signals.sigterm) _ _ e ∙ f)
                  ∙ g,
              record {
                installed = xs ++ x.installed;
                reloads =
                    went_on wake wakes r r2 xs x.installed
                      (if_false (r1.worker.signals.sigterm) _ _ e ∙ f) i x.reloads;
                later =
                    IsLater-weaken (InTime wake × (Unit × All InTime wakes))
                      (All InTime (wake ∷ wakes)) (xs ++ x.installed) r r3 (λ h. (h.0, (tt, h.1)))
                      (IsLater-trans [] (xs ++ x.installed) r r1 r3 first
                        (IsLater-trans xs x.installed r1 r2 r3 middle x.later));
                requested = x.requested;
                prompt = λ h k. let pending = first.remembered (rw k refl) in cc;
              },
            )
      ]
