-- ===== src/Shared.antt =====
-- src/shared.rs: the queue in shared memory, which backends publish to and the worker drains.
-- The lock makes each function one step on the header, so a run of several processes is a sequence
-- of these steps. A process that has no header (or no lock) was started without the extension.
pub mod Publish
pub mod Tail
mod Tests
use pg_otel.Prelude.{
  ℕ, zero, suc, ◌+◌, ◌-◌, ◌*◌, ◌%◌, ◌^◌, Bool, true, false, Option, none, some, List, [], ◌∷◌, ltb,
  leb, ◌==◌, if◌then◌else◌, length, replicate, Result, ok, err, Outcome, returns, panics,
  unfinished,
}
use pg_otel.Prelude.Int.{ℤ, pos, negsuc}
use pg_otel.Queue.{
  Ring, ring_state_new, Batch, QueueFull, Corrupted, used, capacity, batch_is_empty, push_batch,
  should_wake,
}
use pg_otel.Queue.{drain_into}

abbrev pub no_worker : ℤ
no_worker = negsuc 0

pub record Header : Type 0 where
  pub ring : Ring
  pub worker_proc_number : ℤ
  pub dropped_spans : ℕ

-- `usize::try_from(queue_size_kb).unwrap_or(0)`.
abbrev pub kilobytes : ℤ → ℕ
kilobytes (pos n) = n
kilobytes (negsuc n) = 0

unfoldable pub shared_memory_size : (header_bytes : ℕ) → ℤ → ℕ
shared_memory_size header_bytes queue_size_kb = header_bytes + kilobytes queue_size_kb * 1024

-- What is found in shared memory stays; otherwise the header is written, over a data area that
-- `ShmemInitStruct` returned.
unfoldable pub init_shared_header : (header_bytes : ℕ) → ℤ → Option Header → Header
init_shared_header header_bytes queue_size_kb (some found) = found
init_shared_header header_bytes queue_size_kb none = record {
  ring = record {
    state = ring_state_new;
    cells = replicate (shared_memory_size header_bytes queue_size_kb - header_bytes) 0;
  };
  worker_proc_number = no_worker;
  dropped_spans = 0;
}

pub data Published : Type 0 where
  queued dropped : Published

unfoldable pub count_dropped : ℕ → Header → Header
count_dropped spans header =
    if ltb 0 spans
    then record header { dropped_spans = (header.dropped_spans + spans) % 2 ^ 64 }
    else header

abbrev pub dropped_spans_of : Option Header → ℕ
dropped_spans_of none = 0
dropped_spans_of (some header) = header.dropped_spans

-- The process whose latch is set. `procs` is the number of processes, if there are any.
abbrev pub latch_of : ℤ → Option ℕ → Option ℕ
latch_of (negsuc n) procs = none
latch_of (pos n) none = none
latch_of (pos n) (some all) = if leb all n then none else some n

unfoldable pub wake_worker : (procs : Option ℕ) → Header → Option ℕ
wake_worker procs header = latch_of header.worker_proc_number procs

-- What `publish` leaves: the header, the answer, and the latch that it set.
abbrev pub PublishOutcome : Type 0
PublishOutcome = Header × Published × Option ℕ

-- The match of `publish` on what the push returned.
abbrev pub published :
    (procs : Option ℕ) → Header → Batch → Ring × Result (Unit {0}) QueueFull → PublishOutcome
published procs header batch (ring, ok u) =
    let header' = record header { ring = ring } in
    (
      header',
      queued,
      (if should_wake (used header.ring) (used ring) (capacity ring)
          then wake_worker procs header'
          else none),
    )
published procs header batch (ring, err full) =
    (count_dropped batch.records (record header { ring = ring }), dropped, none)

abbrev pub publish_pushed :
    (procs : Option ℕ)
    → Header
    → Batch
    → Outcome (Ring × Result (Unit {0}) QueueFull)
    → Outcome PublishOutcome
publish_pushed procs header batch (returns out) = returns (published procs header batch out)
publish_pushed procs header batch panics = panics
publish_pushed procs header batch unfinished = unfinished

unfoldable pub publish :
    (procs : Option ℕ) → Header → Batch → (skipped : ℕ) → Outcome PublishOutcome
publish procs header batch skipped =
    let counted = count_dropped skipped header in
    if batch_is_empty batch
    then returns (counted, queued, none)
    else publish_pushed procs counted batch (push_batch counted.ring batch)

-- `drain_into` on the ring of the header.
abbrev pub drained_header :
    Header
    → Outcome (Ring × List ℕ × Result ℕ Corrupted)
    → Outcome (Header × List ℕ × Result ℕ Corrupted)
drained_header header (returns (ring, out, result)) =
    returns (record header { ring = ring }, out, result)
drained_header header panics = panics
drained_header header unfinished = unfinished

unfoldable pub shared_drain_into :
    Header → List ℕ → (max_bytes : ℕ) → Outcome (Header × List ℕ × Result ℕ Corrupted)
shared_drain_into header out max_bytes =
    drained_header header (drain_into header.ring out max_bytes)

abbrev pub register_worker : ℤ → Header → Header
register_worker proc_number header = record header { worker_proc_number = proc_number }

abbrev pub unregister_worker_on_exit : Header → Header
unregister_worker_on_exit header = record header { worker_proc_number = no_worker }
