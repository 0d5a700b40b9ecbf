-- ===== src/Queue/Total.antt =====
-- `drain_into` on any ring, whatever its positions and bytes are.
use pg_otel.Prelude.{
  ℕ, zero, suc, ◌+◌, ◌-◌, ◌^◌, ◌<◌, ◌≤◌, ◌≡◌, refl, ap, ◌∙◌, true, List, ◌++◌, arith, length, ltb,
  le→ltb, lt→ltb, ◌&&◌, Result, ok, err, Outcome, returns, ◌>>=◌, Bool-cases, inl, inr,
}
use pg_otel.Prelude.Bytes.{from_le_bytes}
use pg_otel.Queue.{
  Ring, Corrupted, is_consistent, used, reset, read_len, measure_record, measure_loop,
  measure_drain, Reason, drain_measured, drain_into, max_record_bytes, add_u64,
}
use native.Mathlib.Decide.{dec_lt}
use pg_otel.Queue.Window.{ring_bytes}
use pg_otel.Queue.Copies.{copy_out_slice_lem}
use pg_otel.Queue.Push.{used-le-capacity}
use pg_otel.Queue.Drain.{after_drain, drain_measured-ok}

-- A measurement stays within the bytes that are queued.
abbrev Within : ℕ → Result (ℕ × ℕ) Corrupted → Type 0
Within available (ok (bytes, records)) = bytes ≤ available
Within available (err e) = Unit

measure_record-Within :
    (max_bytes available taken records len : ℕ) (next : Outcome (Result (ℕ × ℕ) Corrupted))
    → taken ≤ available
    → (taken + (4 + len) ≤ available
        → (m : Result (ℕ × ℕ) Corrupted) × (next ≡ returns m) × Within available m)
    → (m : Result (ℕ × ℕ) Corrupted) × (measure_record max_bytes taken records
          (available - taken)
          len
          next
        ≡ returns m)
      × Within available m
unfolding measure_record
measure_record-Within max_bytes available taken records len next h k =
    elim (dec_lt max_record_bytes len) [
      | yes long ↦ (
        err (record { reason = Reason.length_out_of_range }),
        rw (lt→ltb max_record_bytes len long),
        tt,
      )
      | no short ↦ elim (dec_lt (available - taken) (4 + len)) [
        | yes past ↦ (
          err (record { reason = Reason.length_out_of_range }),
          rw (le→ltb max_record_bytes len (omega arith), lt→ltb (available - taken) (4 + len) past),
          tt,
        )
        | no inside ↦ elim (Bool-cases (ltb 0 records && ltb max_bytes (taken + (4 + len)))) [
          | inl stop ↦ (
            ok (taken, records),
            rw (
              le→ltb max_record_bytes len (omega arith),
              le→ltb (available - taken) (4 + len) (omega arith),
              stop,
            ),
            h,
          )
          | inr go ↦
              let (m, e, w) = k (omega arith) in
              (
                m,
                rw
                    (
                      le→ltb max_record_bytes len (omega arith),
                      le→ltb (available - taken) (4 + len) (omega arith),
                      go,
                    )
                    e,
                w,
              )
        ]
      ]
    ]

measure_loop-Within :
    (fuel : ℕ) (r : Ring) (max_bytes available taken records : ℕ)
    → available ≤ length r.cells
    → taken ≤ available
    → available - taken < fuel
    → (m : Result (ℕ × ℕ) Corrupted) × (measure_loop fuel r max_bytes available taken records
        ≡ returns m)
      × Within available m
unfolding measure_loop read_len
measure_loop-Within zero r max_bytes available taken records fits le enough = absurd (omega arith)
measure_loop-Within (suc fuel) r max_bytes available taken records fits le enough =
    elim (dec_lt taken available) [
      | no done ↦ (ok (taken, records), rw (le→ltb taken available (omega arith)), le)
      | yes more ↦ elim (dec_lt (available - taken) 4) [
        | yes short ↦ (
          err (record { reason = Reason.truncated_prefix }),
          rw (lt→ltb taken available more, lt→ltb (available - taken) 4 short),
          tt,
        )
        | no enough_bytes ↦
            let pos = add_u64 r.state.head taken in
            let len = from_le_bytes (ring_bytes r.cells pos 4) in
            let (m, e, w) =
              measure_record-Within max_bytes available taken records len
                (measure_loop fuel r max_bytes available (taken + (4 + len)) (records + 1)) le
                (λ h.
                  measure_loop-Within fuel r max_bytes available (taken + (4 + len)) (records + 1)
                    fits h (omega arith)) in
            (
              m,
              rw
                  (
                    lt→ltb taken available more,
                    le→ltb (available - taken) 4 (omega arith),
                    copy_out_slice_lem r pos 4 (omega arith),
                  )
                  e,
              w,
            )
      ]
    ]

-- What a drain of `r` into `out` leaves: on success the oldest `n` bytes left the ring, and `out` gained
-- just these; on corruption `out` is untouched and the ring is empty.
abbrev pub DrainResult : Ring → List ℕ → Ring × List ℕ × Result ℕ Corrupted → Type 0
DrainResult r out (r', out', ok n) =
    (bytes : ℕ) × (out' ≡ out ++ ring_bytes r.cells r.state.head bytes)
    × (r'.cells ≡ r.cells)
    × (r'.state.tail ≡ r.state.tail)
    × (used r' + bytes ≡ used r)
DrainResult r out (r', out', err e) = (r'.cells ≡ r.cells) × (used r' ≡ 0) × (out' ≡ out)

used-after_drain :
    (r : Ring) (bytes : ℕ)
    → is_consistent r ≡ true
    → r.state.tail < 2 ^ 64
    → bytes ≤ used r
    → used (after_drain r bytes) + bytes ≡ used r
unfolding used is_consistent
used-after_drain r bytes c h l = ground arith

used-emptied : (r : Ring) → used (record r { state = record r.state { head = r.state.tail } }) ≡ 0
unfolding used is_consistent
used-emptied r = ground arith

used-reset : (r : Ring) → used (reset r) ≡ 0
unfolding used is_consistent
used-reset r = ground arith

abbrev emptied : Ring → List ℕ → Corrupted → Ring × List ℕ × Result ℕ Corrupted
emptied r out e = (record r { state = record r.state { head = r.state.tail } }, out, err e)

drain_measured-err :
    (r : Ring) (out : List ℕ) (e : Corrupted)
    → drain_measured r out (err e) ≡ returns (emptied r out e)
unfolding drain_measured
drain_measured-err r out e = refl

drain_measured-DrainResult :
    (r : Ring) (out : List ℕ) (m : Result (ℕ × ℕ) Corrupted)
    → is_consistent r ≡ true
    → r.state.tail < 2 ^ 64
    → Within (used r) m
    → (res : Ring × List ℕ × Result ℕ Corrupted) × (drain_measured r out m ≡ returns res)
      × DrainResult r out res
drain_measured-DrainResult r out (ok (bytes, n)) c h w = (
  _,
  drain_measured-ok r out bytes n (omega (arith, used-le-capacity r)),
  (bytes, refl, refl, refl, used-after_drain r bytes c h w),
)
drain_measured-DrainResult r out (err e) c h w =
    (emptied r out e, drain_measured-err r out e, (refl, used-emptied r, refl))

-- A drain returns on every ring with 64-bit positions, whatever bytes and positions memory holds: the walk over the
-- length prefixes ends and no index is out of range. On success the oldest bytes left the ring, and
-- exactly these were appended to `out`; on corruption the ring is empty and `out` untouched.
pub drain_into_total :
    (r : Ring) (out : List ℕ) (max_bytes : ℕ)
    → r.state.tail < 2 ^ 64
    → (res : Ring × List ℕ × Result ℕ Corrupted) × (drain_into r out max_bytes ≡ returns res)
      × DrainResult r out res
unfolding drain_into measure_drain
drain_into_total r out max_bytes h = elim (Bool-cases (is_consistent r)) [
  | inr broken ↦ (
    (reset r, out, err (record { reason = Reason.inconsistent_positions })),
    rw broken,
    (refl, used-reset r, refl),
  )
  | inl sane ↦
      let (m, e, w) =
        measure_loop-Within (suc (used r)) r max_bytes (used r) 0 0 (used-le-capacity r)
          (omega arith) (omega arith) in
      let (res, e', post) = drain_measured-DrainResult r out m sane h w in
      (res, rw sane (ap (λ x. x >>= drain_measured r out) e ∙ e'), post)
]
