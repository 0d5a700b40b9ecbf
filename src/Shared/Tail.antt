-- ===== src/Shared/Tail.antt =====
-- What `publish` of src/shared.rs leaves of the write position of the ring.
use pg_otel.Prelude.{
  ℕ, ◌+◌, ◌≤◌, ◌≡◌, refl, Bool-cases, inl, inr, Option, ltb, length, Result, ok, err, Outcome,
  returns, panics, unfinished, arith,
}
use pg_otel.Prelude.Each.{Each, Each-returns}
use pg_otel.Queue.{Ring, Batch, QueueFull, batch_is_empty, push_batch}
use pg_otel.Queue.Tail.{TailAtMost, push_batch-tail}
use pg_otel.Shared.{Header, PublishOutcome, count_dropped, publish_pushed, publish}

count_dropped-ring : (n : ℕ) (h : Header) → (count_dropped n h).ring ≡ h.ring
unfolding count_dropped
count_dropped-ring n h = elim (Bool-cases (ltb 0 n)) [ inl e ↦ rw e refl | inr e ↦ rw e refl ]

abbrev HeaderAtMost : (n : ℕ) → PublishOutcome → Type 0
HeaderAtMost n out = out.0.ring.state.tail ≤ n

publish_pushed-tail :
    (procs : Option ℕ) (h : Header) (b : Batch) (n : ℕ)
    (pushed : Outcome (Ring × Result (Unit {0}) QueueFull))
    → Each (TailAtMost n) pushed
    → Each (HeaderAtMost n) (publish_pushed procs h b pushed)
publish_pushed-tail procs h b n (returns (ring, ok u)) l = l
publish_pushed-tail procs h b n (returns (ring, err full)) l =
    rw (count_dropped-ring b.records (record h { ring = ring })) l
publish_pushed-tail procs h b n panics l = tt
publish_pushed-tail procs h b n unfinished l = tt

publish-tail :
    (procs : Option ℕ) (h : Header) (b : Batch) (skipped : ℕ)
    → Each (HeaderAtMost (h.ring.state.tail + length b.bytes)) (publish procs h b skipped)
unfolding publish
publish-tail procs h b skipped =
    let counted = count_dropped skipped h in
    let same = count_dropped-ring skipped h in
    elim (Bool-cases (batch_is_empty b)) [
      | inl e ↦ rw (e, same) (omega arith)
      | inr e ↦ rw e (
          publish_pushed-tail procs counted b (h.ring.state.tail + length b.bytes)
            (push_batch counted.ring b) (rw same (push_batch-tail h.ring b)))
    ]

-- Publishing moves the write position on by the length of the batch at most.
pub publish-tail_lem :
    (procs : Option ℕ) (h : Header) (b : Batch) (skipped : ℕ) (out : PublishOutcome)
    → publish procs h b skipped ≡ returns out
    → out.0.ring.state.tail ≤ h.ring.state.tail + length b.bytes
publish-tail_lem procs h b skipped out e =
    Each-returns (HeaderAtMost (h.ring.state.tail + length b.bytes)) (publish procs h b skipped) out
      e (publish-tail procs h b skipped)
