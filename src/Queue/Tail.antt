-- ===== src/Queue/Tail.antt =====
-- The write position of the ring of src/queue.rs: a push moves it on by the length of the batch at
-- most, and a drain does not move it on.
use pg_otel.Prelude.{ℕ, ◌+◌, ◌≤◌, Bool-cases, inl, inr, ltb, List, length, Result, ok, err, arith}
use pg_otel.Prelude.Each.{Each, Each-bind, Each-mono}
use pg_otel.Queue.{
  Ring, Batch, QueueFull, Corrupted, is_consistent, reset, copy_in, copy_out, push_into, push_batch,
  measure_drain, drain_measured, drain_into, free, batch_len_bytes,
}

-- A ring whose write position is at most `n` comes of a push, or of a drain.
abbrev pub TailAtMost : (n : ℕ) → Ring × Result (Unit {0}) QueueFull → Type 0
TailAtMost n out = out.0.state.tail ≤ n

abbrev pub DrainedAtMost : (n : ℕ) → Ring × List ℕ × Result ℕ Corrupted → Type 0
DrainedAtMost n out = out.0.state.tail ≤ n

push_into-tail :
    (r : Ring) (b : Batch) → Each (TailAtMost (r.state.tail + length b.bytes)) (push_into r b)
unfolding push_into
push_into-tail r b =
    let most = r.state.tail + length b.bytes in
    elim (Bool-cases (ltb (free r) (batch_len_bytes b))) [
      | inl e ↦ rw e (omega arith)
      | inr e ↦
          rw e
            (Each-bind (TailAtMost most) (copy_in r r.state.tail b.bytes) _ λ copied. omega arith)
    ]

-- A push moves the write position on by the length of the batch at most.
pub push_batch-tail :
    (r : Ring) (b : Batch) → Each (TailAtMost (r.state.tail + length b.bytes)) (push_batch r b)
unfolding push_batch
push_batch-tail r b = elim (Bool-cases (is_consistent r)) [
  | inl e ↦ rw e (push_into-tail r b)
  | inr e ↦ rw e (
      Each-mono (TailAtMost (0 + length b.bytes)) (TailAtMost (r.state.tail + length b.bytes))
        (push_into (reset r) b) (λ out h. omega arith) (push_into-tail (reset r) b))
]

drain_measured-tail :
    (r : Ring) (out : List ℕ) (measured : Result (ℕ × ℕ) Corrupted)
    → Each (DrainedAtMost r.state.tail) (drain_measured r out measured)
unfolding drain_measured
drain_measured-tail r out (ok (bytes, records)) =
    Each-bind (DrainedAtMost r.state.tail) (copy_out r r.state.head bytes out) _
      λ copied. omega arith
drain_measured-tail r out (err corrupted) = omega arith

-- A drain does not move the write position on.
pub drain_into-tail :
    (r : Ring) (out : List ℕ) (max_bytes : ℕ)
    → Each (DrainedAtMost r.state.tail) (drain_into r out max_bytes)
unfolding drain_into
drain_into-tail r out max_bytes = elim (Bool-cases (is_consistent r)) [
  | inl e ↦ rw e (
      Each-bind (DrainedAtMost r.state.tail) (measure_drain r max_bytes) _
        λ measured. drain_measured-tail r out measured)
  | inr e ↦ rw e (omega arith)
]
