-- ===== src/Queue/Push.antt =====
-- The ring as a queue of payloads, and `Ring::push_batch` on it.
use pg_otel.Prelude.{
  ℕ, ◌+◌, ◌-◌, ◌^◌, ◌<◌, ◌≤◌, ◌≡◌, refl, sym, ap, ap₂, ◌∙◌, true, false, List, [], ◌++◌, arith,
  length, All, All-append, le→ltb, lt→ltb, Result, ok, err, returns, if◌then◌else◌,
}
use pg_otel.Queue.{
  Ring, Batch, QueueFull, is_consistent, used, free, reset, push_into, push_batch, add_u64,
}
use pg_otel.Queue.Window.{ring_bytes, length-ring_bytes, ring_bytes-split}
use pg_otel.Queue.Written.{written, length-written, ring_bytes-written_new, ring_bytes-written_old}
use pg_otel.Queue.Copies.{copy_in_lem}
use pg_otel.Queue.Frames.{frames, frames-append, IsPayload, Carries}
use native.Mathlib.Decide.{dec_lt}

-- The positions are in order and at most a capacity apart.
pub record IsConsistent (r : Ring) : Type 0 where
  pub ordered : r.state.head ≤ r.state.tail
  pub bounded : r.state.tail - r.state.head ≤ length r.cells
  pub counted : r.state.tail < 2 ^ 64

-- The ring holds these payloads, oldest first.
pub record Holds (r : Ring) (payloads : List (List ℕ)) : Type 0 where
  pub consistent : IsConsistent r
  pub stored : ring_bytes r.cells r.state.head (r.state.tail - r.state.head) ≡ frames payloads
  pub accepted : All IsPayload payloads

pub is_consistent_lem : (r : Ring) → IsConsistent r → is_consistent r ≡ true
unfolding is_consistent
is_consistent_lem r v = ground arith

pub IsConsistent-of : (r : Ring) → is_consistent r ≡ true → r.state.tail < 2 ^ 64 → IsConsistent r
unfolding is_consistent
IsConsistent-of r e h = ground arith

pub used_lem : (r : Ring) → IsConsistent r → used r ≡ r.state.tail - r.state.head
unfolding used
used_lem r v = rw (is_consistent_lem r v)

pub used-le-capacity : (r : Ring) → used r ≤ length r.cells
unfolding used is_consistent
used-le-capacity r = ground arith

-- `used` and `free` make up the capacity, whatever the positions.
free-add-used : (r : Ring) → free r + used r ≡ length r.cells
unfolding free
free-add-used r = omega (arith, used-le-capacity r)

pub length-stored :
    {r : Ring} {ps : List (List ℕ)} → Holds r ps → length (frames ps) ≡ r.state.tail - r.state.head
length-stored {r} v =
    ap length (sym v.stored) ∙ length-ring_bytes r.cells r.state.head (r.state.tail - r.state.head)

-- The ring after a successful push.
abbrev pub after_push : Ring → Batch → Ring
after_push r b = record {
  state = record { head = r.state.head; tail = add_u64 r.state.tail (length b.bytes) };
  cells = written r.cells r.state.tail b.bytes;
}

push_into-fits :
    (r : Ring) (b : Batch)
    → length b.bytes ≤ free r
    → push_into r b ≡ returns (after_push r b, ok tt)
unfolding push_into
push_into-fits r b h = rw (
  le→ltb (free r) (length b.bytes) h,
  copy_in_lem r r.state.tail b.bytes (omega (arith, free-add-used r)),
)

push_into-full :
    (r : Ring) (b : Batch)
    → free r < length b.bytes
    → push_into r b ≡ returns (r, err (record { needed = length b.bytes; free = free r }))
unfolding push_into
push_into-full r b h = rw (lt→ltb (free r) (length b.bytes) h)

-- The ring that the push goes into.
abbrev pub repaired : Ring → Ring
repaired r = if is_consistent r then r else reset r

push_batch-repaired : (r : Ring) (b : Batch) → push_batch r b ≡ push_into (repaired r) b
unfolding push_batch
push_batch-repaired r b = refl

pub repaired_consistent : (r : Ring) → IsConsistent r → repaired r ≡ r
repaired_consistent r v = rw (is_consistent_lem r v)

pub Holds-reset : (r : Ring) → Holds (reset r) []
Holds-reset r = record { consistent = omega arith; stored = refl; accepted = tt }

module _ {r : Ring} {b : Batch} {ps qs : List (List ℕ)} (v : Holds r ps) (w : Carries b qs)
    (room : length b.bytes ≤ free r) (counts : r.state.tail + length b.bytes < 2 ^ 64) where
  tail_lem : add_u64 r.state.tail (length b.bytes) ≡ r.state.tail + length b.bytes
  tail_lem = omega arith

  fits_lem : r.state.tail - r.state.head + length b.bytes ≤ length r.cells
  fits_lem = omega (arith, free-add-used r, used_lem r v.consistent)

  after_push-stored :
      ring_bytes
        (written r.cells r.state.tail b.bytes)
        r.state.head
        (r.state.tail - r.state.head + length b.bytes)
      ≡ frames (ps ++ qs)
  after_push-stored =
      let old_end : r.state.head + (r.state.tail - r.state.head) ≡ r.state.tail = omega arith in
      ring_bytes-split (written r.cells r.state.tail b.bytes) r.state.head
        (r.state.tail - r.state.head) (length b.bytes)
      ∙ ap₂ ◌++◌
          (ring_bytes-written_old r.cells r.state.tail b.bytes r.state.head
              (r.state.tail - r.state.head) old_end (omega (arith, fits_lem))
            ∙ v.stored)
          (ap (λ p. ring_bytes (written r.cells r.state.tail b.bytes) p (length b.bytes)) old_end
            ∙ ring_bytes-written_new r.cells r.state.tail b.bytes (omega (arith, fits_lem))
            ∙ w.encoded)
      ∙ sym (frames-append ps qs)

  after_push-Holds : Holds (after_push r b) (ps ++ qs)
  after_push-Holds = record {
    consistent = omega (arith, fits_lem, length-written r.cells r.state.tail b.bytes);
    stored =
        ap (ring_bytes (written r.cells r.state.tail b.bytes) r.state.head) (omega arith)
        ∙ after_push-stored;
    accepted = All-append IsPayload ps qs v.accepted w.sized;
  }

-- What a push does to a ring that holds `ps`, for a batch of `qs`: all of it, or nothing.
abbrev pub PushResult :
    (r : Ring) (b : Batch) (ps qs : List (List ℕ)) → Ring × Result (Unit {0}) QueueFull → Type 0
PushResult r b ps qs (r', ok u) =
    (length b.bytes ≤ free r) × (length r'.cells ≡ length r.cells) × Holds r' (ps ++ qs)
PushResult r b ps qs (r', err e) =
    (free r < length b.bytes) × (r' ≡ r) × (e ≡ record { needed = length b.bytes; free = free r })

push_into_refines :
    {r : Ring} {b : Batch} {ps qs : List (List ℕ)}
    → Holds r ps
    → Carries b qs
    → r.state.tail + length b.bytes < 2 ^ 64
    → (out : Ring × Result (Unit {0}) QueueFull) × (push_into r b ≡ returns out)
      × PushResult r b ps qs out
push_into_refines {r} {b} v w counts = elim (dec_lt (free r) (length b.bytes)) [
  | yes full ↦ (_, push_into-full r b full, (full, refl, refl))
  | no room ↦ (
    _,
    push_into-fits r b (omega arith),
    (
      omega arith,
      length-written r.cells r.state.tail b.bytes,
      after_push-Holds v w (omega arith) counts,
    ),
  )
]

-- A push on a ring that holds `ps` returns. If the batch fits in the free space, the ring then
-- holds `ps` with the payloads of the batch behind them; if not, the ring is unchanged and the
-- error says how much was needed and how much was free. The 64-bit counter must not wrap.
pub push_batch_refines :
    {r : Ring} {b : Batch} {ps qs : List (List ℕ)}
    → Holds r ps
    → Carries b qs
    → r.state.tail + length b.bytes < 2 ^ 64
    → (out : Ring × Result (Unit {0}) QueueFull) × (push_batch r b ≡ returns out)
      × PushResult r b ps qs out
push_batch_refines {r} {b} v w counts =
    let (out, e, post) = push_into_refines v w counts in
    (
      out,
      push_batch-repaired r b ∙ ap (λ x. push_into x b) (repaired_consistent r v.consistent) ∙ e,
      post,
    )

-- On a ring with inconsistent positions the old contents are discarded: a batch that fits in the
-- whole capacity is then all that the ring holds, and any other leaves it empty.
pub push_batch_repairs :
    (r : Ring) {b : Batch} {qs : List (List ℕ)}
    → is_consistent r ≡ false
    → Carries b qs
    → length b.bytes < 2 ^ 64
    → (out : Ring × Result (Unit {0}) QueueFull) × (push_batch r b ≡ returns out)
      × PushResult (reset r) b [] qs out
      × (free (reset r) ≡ length r.cells)
push_batch_repairs r {b} broken w counts =
    let (out, e, post) = push_into_refines (Holds-reset r) w (omega arith) in
    (
      out,
      push_batch-repaired r b ∙ rw broken e,
      post,
      omega (arith, free-add-used (reset r), used_lem (reset r) (omega arith)),
    )

-- Whatever the positions and the bytes of the ring are, a push returns: no index is out of range.
pub push_batch_total :
    (r : Ring) (b : Batch)
    → (out : Ring × Result (Unit {0}) QueueFull) × (push_batch r b ≡ returns out)
push_batch_total r b = elim (dec_lt (free (repaired r)) (length b.bytes)) [
  | yes full ↦ (_, push_batch-repaired r b ∙ push_into-full (repaired r) b full)
  | no room ↦ (_, push_batch-repaired r b ∙ push_into-fits (repaired r) b (omega arith))
]
