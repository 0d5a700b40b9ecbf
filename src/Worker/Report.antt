-- ===== src/Worker/Report.antt =====
-- `DroppedSpansReport` of src/worker.rs: when the number of dropped spans is logged.
use pg_otel.Prelude.{
  ◌⊎◌, ℕ, ◌+◌, ◌-◌, ◌<◌, ◌≤◌, ◌≡◌, refl, true, false, Bool-cases, inl, inr, ◌||◌, ltb, ◌==◌, Option,
  none, some, arith,
}
use pg_otel.Worker.{DroppedSpansReport, dropped_log_interval, report}

-- What a report says of the totals before and after it: the new spans since the last report, at
-- least an interval after it; without a report nothing is forgotten, and there was no news or the
-- last report is too recent.
abbrev pub Reports :
    DroppedSpansReport → (now total : ℕ) → DroppedSpansReport × Option (ℕ × ℕ) → Type 0
Reports r now total (r', none) =
    (r' ≡ r) × ((total ≤ r.last_total) ⊎ (now - r.last_logged_at < dropped_log_interval))
Reports r now total (r', some (newly, said)) =
    (said ≡ total)
    × (0 < newly)
    × (newly + r.last_total ≡ total)
    × (r.last_logged_at + dropped_log_interval ≤ now)
    × (r'.last_total ≡ total)
    × (r'.last_logged_at ≡ now)

guard_false :
    (n t : ℕ)
    → (n == 0 || ltb t dropped_log_interval) ≡ false
    → (0 < n) × (dropped_log_interval ≤ t)
guard_false n t e = ground arith

guard_true :
    (n t : ℕ) → (n == 0 || ltb t dropped_log_interval) ≡ true → (n ≤ 0) ⊎ (t < dropped_log_interval)
guard_true n t e = ground arith

-- A report of dropped spans says exactly how many are new since the last report, and comes at
-- least a minute after it; when there is no report, the totals are kept for the next one.
pub report_lem : (r : DroppedSpansReport) (now total : ℕ) → Reports r now total (report r now total)
unfolding report
report_lem r now total =
    elim (Bool-cases
      ((total - r.last_total) == 0 || ltb (now - r.last_logged_at) dropped_log_interval)) [
        | inl e ↦ rw e (
          refl,
          elim (guard_true (total - r.last_total) (now - r.last_logged_at) e) [
            | inl a ↦ inl (omega arith)
            | inr b ↦ inr b
          ],
        )
        | inr e ↦
            let (some_new, late) = guard_false (total - r.last_total) (now - r.last_logged_at) e in
            rw e (refl, some_new, omega arith, omega arith, refl, refl)
      ]
