-- ===== src/Compat/Nodes.antt =====
-- `node_instrument` of src/compat/pg19.rs never lets `InstrEndLoop` raise an error.
use pg_otel.Prelude.{
  ℕ, ◌≡◌, ◌≢◌, refl, ap, inl, inr, true, false, Bool-cases, Option, none, some, Outcome, returns,
  arith,
}
use pg_otel.Prelude.Int.{ℤ, pos, negsuc}
use pg_otel.PlanSpans.State.{NodeStats, NodeInstrument, measured, incomplete}
use pg_otel.Compat.{Instrumentation, is_zero, is_mid_timer}
use pg_otel.Compat.Pg19
use pg_otel.Compat.Pg19.{max_zero}

-- Execution stopped within the node: it runs, and its timer is started.
abbrev pub IsMidTimer : {T : Type 0} → Instrumentation T → Type 0
IsMidTimer i = (i.running ≡ true) × (i.starttime_ticks ≢ pos 0)

-- `InstrEndLoop` raises an error only for a node that runs while its timer is started.
abbrev pub IsEndLoop : {T : Type 0} → (Instrumentation T → Outcome (Instrumentation T)) → Type 0
IsEndLoop {T} end_loop =
    (i : Instrumentation T) → ¬ IsMidTimer i → (j : Instrumentation T) × (end_loop i ≡ returns j)

-- A node whose instrumentation cannot be read: there is none, or execution stopped within the node.
abbrev pub IsUnreadable : {T : Type 0} → Option (Instrumentation T) → Type 0
IsUnreadable none = Unit
IsUnreadable (some i) = IsMidTimer i

-- A time, or zero in place of a negative one.
abbrev pub IsClipped : (time clipped : ℤ) → Type 0
IsClipped (pos n) clipped = clipped ≡ pos n
IsClipped (negsuc n) clipped = clipped ≡ pos 0

-- The counters of the instrumentation at the end of its cycle, and its times in nanoseconds, clipped.
pub record IsMeasured (scale max_ticks : ℕ) (i : Instrumentation ℤ) (stats : NodeStats)
    : Type 0 where
  pub startup : IsClipped (Pg19.instr_ticks_to_ns scale max_ticks i.startup) stats.startup_ns
  pub total : IsClipped (Pg19.instr_ticks_to_ns scale max_ticks i.total) stats.total_ns
  pub rows : stats.rows ≡ i.ntuples
  pub secondary_rows : stats.secondary_rows ≡ i.ntuples2
  pub loops : stats.loops ≡ i.nloops
  pub filtered : stats.filtered_by_scan_or_join ≡ i.nfiltered1
  pub filtered_other : stats.filtered_by_other ≡ i.nfiltered2

-- What is read of a node: nothing if it cannot be read, and otherwise what `InstrEndLoop` leaves.
pub data Read (scale max_ticks : ℕ) (end_loop : Instrumentation ℤ → Outcome (Instrumentation ℤ))
    : Option (Instrumentation ℤ) → NodeInstrument → Type 0 where
  unreadable :
      {i : Option (Instrumentation ℤ)} → IsUnreadable i → Read scale max_ticks end_loop i incomplete
  readable :
      (i ended : Instrumentation ℤ) (stats : NodeStats)
      → ¬ IsMidTimer i
      → end_loop i ≡ returns ended
      → IsMeasured scale max_ticks ended stats
      → Read scale max_ticks end_loop (some i) (measured stats)

pub is_mid_timer_sound :
    {T : Type 0} (i : Instrumentation T)
    → is_mid_timer i.running i.starttime_ticks ≡ true
    → IsMidTimer i
unfolding is_mid_timer
is_mid_timer_sound i e = (
  ground arith,
  λ zero. let no : is_zero i.starttime_ticks ≡ true = ap is_zero zero in ground arith,
)

pub is_mid_timer_complete :
    {T : Type 0} (i : Instrumentation T)
    → is_mid_timer i.running i.starttime_ticks ≡ false
    → ¬ IsMidTimer i
unfolding is_mid_timer
is_mid_timer_complete i e = λ h. h.1 (is_zero_sound i.starttime_ticks (ground arith))
  where
    is_zero_sound : (t : ℤ) → is_zero t ≡ true → t ≡ pos 0
    is_zero_sound (pos n) z = let same : n ≡ 0 = ground arith in ap pos same
    is_zero_sound (negsuc n) z = cc

max_zero-IsClipped : (a : ℤ) → IsClipped a (max_zero a)
max_zero-IsClipped (pos n) = refl
max_zero-IsClipped (negsuc n) = refl

-- In Postgres 19 reading the instrumentation of a node never raises an error, as `InstrEndLoop` raises
-- one only for a node that runs while its timer is started. A node without instrumentation and such a
-- node are incomplete, and every other gives the counters that `InstrEndLoop` leaves and its times in
-- nanoseconds, with zero in place of a negative one.
pub node_instrument_lem :
    (scale max_ticks : ℕ) (end_loop : Instrumentation ℤ → Outcome (Instrumentation ℤ))
    (i : Option (Instrumentation ℤ))
    → IsEndLoop end_loop
    → (out : NodeInstrument) × (Pg19.node_instrument scale max_ticks end_loop i ≡ returns out)
      × Read scale max_ticks end_loop i out
      × (IsUnreadable i → out ≡ incomplete)
unfolding Pg19.node_instrument
node_instrument_lem scale max_ticks end_loop none h = (incomplete, refl, unreadable tt, λ u. refl)
node_instrument_lem scale max_ticks end_loop (some i) h =
    elim (Bool-cases (is_mid_timer i.running i.starttime_ticks)) [
      | inl e ↦ (incomplete, rw e refl, unreadable (is_mid_timer_sound i e), λ u. refl)
      | inr e ↦
          let ready = is_mid_timer_complete i e in
          let (j, f) = h i ready in
          (
            Pg19.stats_of scale max_ticks j,
            rw (e, f) refl,
            readable i j _ ready f (record {
              startup = max_zero-IsClipped (Pg19.instr_ticks_to_ns scale max_ticks j.startup);
              total = max_zero-IsClipped (Pg19.instr_ticks_to_ns scale max_ticks j.total);
              rows = refl;
              secondary_rows = refl;
              loops = refl;
              filtered = refl;
              filtered_other = refl;
            }),
            λ u. absurd (ready u),
          )
    ]
