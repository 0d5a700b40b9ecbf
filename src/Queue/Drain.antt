-- ===== src/Queue/Drain.antt =====
-- `Ring::drain_into`: which records it takes, what it leaves, and what it does with corrupt data.
use pg_otel.Prelude.{
  ℕ, zero, suc, ◌+◌, ◌-◌, ◌^◌, ◌<◌, ◌≤◌, ◌≡◌, inl, inr, refl, sym, subst, ap, ap₂, ◌∙◌, true, ◌&&◌,
  List, [], ◌∷◌, ◌++◌, arith, length, All, All-behind, ltb, le→ltb, lt→ltb, Result, ok, Outcome,
  returns, if◌then◌else◌, Bool-cases, length-append,
}
use pg_otel.Queue.{
  Ring, Corrupted, is_consistent, used, read_len, copy_out, measure_record, measure_loop,
  measure_drain, drain_measured, drain_into, add_u64, max_record_bytes,
}
use pg_otel.Queue.Window.{ring_bytes, length-ring_bytes, ring_bytes-cut}
use pg_otel.Queue.Copies.{copy_out_slice_lem}
use pg_otel.Queue.Frames.{
  frame, frames, IsPayload, length-frame, length-frames_cons, frames-split, prefix_length,
  frames-append,
}
use pg_otel.Queue.Budget.{Takes, chosen, chosen-split, chosen-Takes}
use pg_otel.Queue.Push.{Holds, used_lem, is_consistent_lem, used-le-capacity, length-stored}
use pg_otel.Prelude.Bytes.{to_le_bytes, length-to_le_bytes}

read_len_lem :
    (r : Ring) (pos : ℕ) (p rest : List ℕ) (n : ℕ)
    → 4 ≤ length r.cells
    → IsPayload p
    → ring_bytes r.cells pos (4 + n) ≡ frame p ++ rest
    → read_len r pos ≡ returns (length p)
unfolding read_len
read_len_lem r pos p rest n h l e =
    let (prefix, _) =
      ring_bytes-cut r.cells pos 4 n (to_le_bytes 4 (length p)) (p ++ rest)
        (length-to_le_bytes 4 (length p)) (e ∙ frames-split p rest) in
    rw (copy_out_slice_lem r pos 4 h, prefix, prefix_length p l)

-- A record within its limits is taken, unless the budget is used up.
measure_record_lem :
    (max_bytes taken records remaining len : ℕ) (next : Outcome (Result (ℕ × ℕ) Corrupted))
    → len ≤ max_record_bytes
    → 4 + len ≤ remaining
    → measure_record max_bytes taken records remaining len next ≡ (
        if ltb 0 records && ltb max_bytes (taken + (4 + len))
        then returns (ok (taken, records))
        else next)
unfolding measure_record
measure_record_lem max_bytes taken records remaining len next h k =
    rw (le→ltb max_record_bytes len h, le→ltb remaining (4 + len) k)

-- The loop, from `taken` bytes and `records` records on, over a window that holds `ps`.
measure_loop-chosen :
    (fuel : ℕ) (r : Ring) (max_bytes available taken records : ℕ) (ps : List (List ℕ))
    → available ≤ length r.cells
    → r.state.head + available < 2 ^ 64
    → taken ≤ available
    → available - taken < fuel
    → ring_bytes r.cells (r.state.head + taken) (available - taken) ≡ frames ps
    → All IsPayload ps
    → let chosen_now = (chosen max_bytes taken records ps).0 in
      measure_loop fuel r max_bytes available taken records
      ≡ returns (ok (taken + length (frames chosen_now), records + length chosen_now))
unfolding measure_loop chosen
measure_loop-chosen zero r max_bytes available taken records ps fits counts le fuel e sized =
    absurd (omega arith)
measure_loop-chosen (suc fuel) r max_bytes available taken records [] fits counts le enough e
      sized =
    let rest : available - taken ≡ 0 =
      sym (length-ring_bytes r.cells (r.state.head + taken) (available - taken)) ∙ ap length e in
    rw (le→ltb taken available (omega arith))
      (ap₂ (λ t n. returns (ok (t, n))) (omega arith) (omega arith))
measure_loop-chosen (suc fuel) r max_bytes available taken records (p ∷ ps) fits counts le enough e
      sized =
    let rest : available - taken ≡ 4 + length p + length (frames ps) =
      sym (length-ring_bytes r.cells (r.state.head + taken) (available - taken))
      ∙ ap length e
      ∙ length-frames_cons p ps in
    let counter : add_u64 r.state.head taken ≡ r.state.head + taken = omega arith in
    let whole : ring_bytes r.cells (r.state.head + taken) (4 + (length p + length (frames ps)))
        ≡ frame p ++ frames ps =
      ap (ring_bytes r.cells (r.state.head + taken)) (omega arith) ∙ e in
    let (_, behind) =
      ring_bytes-cut r.cells (r.state.head + taken) (4 + length p) (length (frames ps)) (frame p)
        (frames ps) (length-frame p)
        (ap (ring_bytes r.cells (r.state.head + taken)) (omega arith) ∙ whole) in
    rw
      (
        lt→ltb taken available (omega arith),
        le→ltb (available - taken) 4 (omega arith),
        counter,
        read_len_lem r (r.state.head + taken) p (frames ps) (length p + length (frames ps))
            (omega arith) sized.0 whole,
      )
      (measure_record_lem max_bytes taken records (available - taken) (length p) _ sized.0
          (omega arith)
        ∙ elim (Bool-cases (ltb 0 records && ltb max_bytes (taken + (4 + length p)))) [
          | inl stop ↦ rw stop (ap₂ (λ t n. returns (ok (t, n))) (omega arith) (omega arith))
          | inr go ↦ rw go (
              measure_loop-chosen fuel r max_bytes available (taken + (4 + length p)) (records + 1)
                ps fits counts (omega arith) (omega arith)
                (ap₂ (ring_bytes r.cells) (omega arith) (omega arith) ∙ behind) sized.1
              ∙ ap₂ (λ t n. returns (ok (t, n)))
                  (omega (
                    arith,
                    length-frames_cons p
                        (chosen max_bytes (taken + (4 + length p)) (records + 1) ps).0,
                  ))
                  (omega arith))
        ])

-- `measure_drain` on a ring that holds `ps` counts the chosen records.
measure_drain_lem :
    {r : Ring} {ps : List (List ℕ)} (max_bytes : ℕ)
    → Holds r ps
    → let taken = (chosen max_bytes 0 0 ps).0 in
      measure_drain r max_bytes ≡ returns (ok (length (frames taken), length taken))
unfolding measure_drain
measure_drain_lem {r} {ps} max_bytes v =
    let all : used r ≡ r.state.tail - r.state.head = used_lem r v.consistent in
    measure_loop-chosen (suc (used r)) r max_bytes (used r) 0 0 ps (used-le-capacity r)
      (omega arith) (omega arith) (omega arith)
      (ap₂ (ring_bytes r.cells) (omega arith) (omega arith) ∙ v.stored) v.accepted
    ∙ ap₂ (λ t n. returns (ok (t, n))) (omega arith) (omega arith)

-- The ring after a drain of `bytes` bytes.
abbrev pub after_drain : Ring → ℕ → Ring
after_drain r bytes = record r {
  state = record { head = add_u64 r.state.head bytes; tail = r.state.tail };
}

pub drain_measured-ok :
    (r : Ring) (out : List ℕ) (bytes n : ℕ)
    → bytes ≤ length r.cells
    → drain_measured r out (ok (bytes, n))
      ≡ returns (after_drain r bytes, out ++ ring_bytes r.cells r.state.head bytes, ok n)
unfolding drain_measured copy_out
drain_measured-ok r out bytes n h = rw (copy_out_slice_lem r r.state.head bytes h)

pub drain_into-measured :
    (r : Ring) (out : List ℕ) (max_bytes : ℕ) (m : Result (ℕ × ℕ) Corrupted)
    → is_consistent r ≡ true
    → measure_drain r max_bytes ≡ returns m
    → drain_into r out max_bytes ≡ drain_measured r out m
unfolding drain_into
drain_into-measured r out max_bytes m c e = rw (c, e)

module _ {r : Ring} (taken left : List (List ℕ)) (v : Holds r (taken ++ left)) where
  taken-le : length (frames taken) + length (frames left) ≡ r.state.tail - r.state.head
  taken-le =
      sym (length-append (frames taken) (frames left))
      ∙ ap length (sym (frames-append taken left))
      ∙ length-stored v

  stored_parts :
      (ring_bytes r.cells r.state.head (length (frames taken)) ≡ frames taken)
      × (ring_bytes r.cells (r.state.head + length (frames taken)) (length (frames left))
          ≡ frames left)
  stored_parts =
      ring_bytes-cut r.cells r.state.head (length (frames taken)) (length (frames left))
        (frames taken) (frames left) refl
        (ap (ring_bytes r.cells r.state.head) (omega (arith, taken-le))
          ∙ v.stored
          ∙ frames-append taken left)

  after_drain-Holds : Holds (after_drain r (length (frames taken))) left
  after_drain-Holds =
      let head : add_u64 r.state.head (length (frames taken))
          ≡ r.state.head + length (frames taken) =
        omega (arith, taken-le) in
      record {
        consistent = omega (arith, taken-le);
        stored = ap₂ (ring_bytes r.cells) head (omega (arith, taken-le)) ∙ stored_parts.1;
        accepted = All-behind IsPayload taken left v.accepted;
      }

-- A drain of a ring that holds `payloads` appends whole records to `out`: those of the payloads
-- that the budget allows, in order, the first one in any case. It returns their number, and the
-- ring holds the rest.
pub drain_into_refines :
    {r : Ring} {payloads : List (List ℕ)} (out : List ℕ) (max_bytes : ℕ)
    → Holds r payloads
    → (taken : List (List ℕ)) × (left : List (List ℕ)) × (r' : Ring) × (drain_into r out max_bytes
        ≡ returns (r', out ++ frames taken, ok (length taken)))
      × Takes max_bytes payloads taken left
      × Holds r' left
drain_into_refines {r} {payloads} out max_bytes v =
    let (taken, left) = chosen max_bytes 0 0 payloads in
    let v' : Holds r (taken ++ left) = subst (Holds r) (chosen-split max_bytes 0 0 payloads) v in
    (
      taken,
      left,
      after_drain r (length (frames taken)),
      drain_into-measured r out max_bytes _ (is_consistent_lem r v.consistent)
            (measure_drain_lem max_bytes v)
          ∙ drain_measured-ok r out (length (frames taken)) (length taken)
              (omega (arith, taken-le taken left v'))
          ∙ ap
              (λ bytes.
                returns (after_drain r (length (frames taken)), out ++ bytes, ok (length taken)))
              (stored_parts taken left v').0,
      chosen-Takes max_bytes payloads,
      after_drain-Holds taken left v',
    )
