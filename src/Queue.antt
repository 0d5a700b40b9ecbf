-- ===== src/Queue.antt =====
-- src/queue.rs: the batch of records, the byte ring, and the iterator over a drained byte stream.
-- A byte is a number; `usize` and `u64` values are numbers, and the additions to the 64-bit
-- counters wrap. A slice index out of range and a remainder by zero panic.
pub mod Frames
pub mod Batches
pub mod Window
pub mod Written
pub mod Copies
pub mod Push
pub mod Budget
pub mod Drain
pub mod Tail
pub mod Total
pub mod Stream
mod Tests
use pg_otel.Prelude.{
  ℕ, zero, suc, ◌+◌, ◌-◌, ◌*◌, ◌/◌, ◌%◌, ◌^◌, Bool, true, false, ◌&&◌, ◌||◌, Option, none, some,
  List, [], ◌∷◌, ◌++◌, ltb, leb, ◌==◌, if◌then◌else◌, length, take, drop, replicate, min, overwrite,
  slice, Result, ok, err, Outcome, returns, panics, unfinished, ◌>>=◌,
}
use pg_otel.Prelude.Bytes.{to_le_bytes, from_le_bytes}

abbrev pub len_prefix_bytes : ℕ
len_prefix_bytes = 4

abbrev pub max_record_bytes : ℕ
max_record_bytes = 64 * 1024

pub record RingState : Type 0 where
  pub head : ℕ
  pub tail : ℕ

abbrev pub ring_state_new : RingState
ring_state_new = record { head = 0; tail = 0 }

-- `RecordTooLarge`, `QueueFull` and `Corrupted`.
pub record RecordTooLarge : Type 0 where
  pub len : ℕ

pub record QueueFull : Type 0 where
  pub needed : ℕ
  pub free : ℕ

pub data Reason : Type 0 where
  inconsistent_positions truncated_prefix length_out_of_range : Reason

pub record Corrupted : Type 0 where
  pub reason : Reason

pub record Batch : Type 0 where
  pub bytes : List ℕ
  pub records : ℕ

abbrev pub batch_new : Batch
batch_new = record { bytes = []; records = 0 }

-- `write` is the closure that extends the byte vector. The subtraction that yields `len` stops at
-- zero, which is never reached by a closure that only appends.
unfoldable pub push_record : Batch → (List ℕ → List ℕ) → Batch × Result (Unit {0}) RecordTooLarge
push_record b write =
    let start = length b.bytes in
    let written = write (b.bytes ++ replicate len_prefix_bytes 0) in
    let len = length written - start - len_prefix_bytes in
    if ltb max_record_bytes len
    then (record b { bytes = take start written }, err (record { len = len }))
    else (
      record {
        bytes = overwrite written start (to_le_bytes 4 (len % 2 ^ 32));
        records = b.records + 1;
      },
      ok tt,
    )

abbrev pub batch_len_bytes : Batch → ℕ
batch_len_bytes b = length b.bytes

abbrev pub batch_is_empty : Batch → Bool
batch_is_empty b = b.records == 0

-- The ring: its positions, and the slice in shared memory.
pub record Ring : Type 0 where
  pub state : RingState
  pub cells : List ℕ

-- `u64` addition.
abbrev pub add_u64 : ℕ → ℕ → ℕ
add_u64 a b = (a + b) % 2 ^ 64

abbrev pub capacity : Ring → ℕ
capacity r = length r.cells

unfoldable pub is_consistent : Ring → Bool
is_consistent r =
    leb r.state.head r.state.tail && leb (r.state.tail - r.state.head) (length r.cells)

unfoldable pub used : Ring → ℕ
used r = if is_consistent r then r.state.tail - r.state.head else 0

unfoldable pub free : Ring → ℕ
free r = capacity r - used r

abbrev pub reset : Ring → Ring
reset r = record r { state = ring_state_new }

-- `a % b` on `u64`.
abbrev pub rem : ℕ → ℕ → Outcome ℕ
rem a b = if b == 0 then panics else returns (a % b)

-- `xs[i..i + n]`.
abbrev pub range : List ℕ → ℕ → ℕ → Outcome (List ℕ)
range xs i n = if ltb (length xs) (i + n) then panics else returns (slice xs i n)

-- `xs[i..i + src.len()].copy_from_slice(src)`.
abbrev pub copy_from_slice : List ℕ → ℕ → List ℕ → Outcome (List ℕ)
copy_from_slice xs i src =
    if ltb (length xs) (i + length src) then panics else returns (overwrite xs i src)

unfoldable pub copy_in : Ring → ℕ → List ℕ → Outcome Ring
copy_in r pos src =
    let copied = do
      start ← rem pos (length r.cells)
      let first = min (length src) (length r.cells - start)
      front ← copy_from_slice r.cells start (take first src)
      back ← copy_from_slice front 0 (drop first src)
      returns (record r { cells = back })
    in if length src == 0 then returns r else copied

-- The `len` bytes that fill `dst`.
unfoldable pub copy_out_slice : Ring → ℕ → ℕ → Outcome (List ℕ)
copy_out_slice r pos len =
    let copied = do
      start ← rem pos (length r.cells)
      let first = min len (length r.cells - start)
      front ← range r.cells start first
      back ← range r.cells 0 (len - first)
      returns (front ++ back)
    in if len == 0 then returns [] else copied

unfoldable pub copy_out : Ring → ℕ → ℕ → List ℕ → Outcome (List ℕ)
copy_out r pos len out = do bytes ← copy_out_slice r pos len; returns (out ++ bytes)

unfoldable pub read_len : Ring → ℕ → Outcome ℕ
read_len r pos = do prefix ← copy_out_slice r pos len_prefix_bytes; returns (from_le_bytes prefix)

-- `push_batch` behind its repair of the positions.
unfoldable pub push_into : Ring → Batch → Outcome (Ring × Result (Unit {0}) QueueFull)
push_into r batch =
    let needed = batch_len_bytes batch in
    let pushed : Outcome (Ring × Result (Unit {0}) QueueFull) = do
      copied ← copy_in r r.state.tail batch.bytes
      let tail = add_u64 r.state.tail needed
      returns (record copied { state = record copied.state { tail = tail } }, ok tt)
    in if ltb (free r) needed
      then returns (r, err (record { needed = needed; free = free r }))
      else pushed

unfoldable pub push_batch : Ring → Batch → Outcome (Ring × Result (Unit {0}) QueueFull)
push_batch r batch = push_into (if is_consistent r then r else reset r) batch

-- One round of the loop of `measure_drain` for a record of `len` bytes; `next` goes on behind it.
unfoldable pub measure_record :
    (max_bytes taken records remaining len : ℕ)
    → Outcome (Result (ℕ × ℕ) Corrupted)
    → Outcome (Result (ℕ × ℕ) Corrupted)
measure_record max_bytes taken records remaining len next =
    if ltb max_record_bytes len || ltb remaining (len_prefix_bytes + len)
    then returns (err (record { reason = length_out_of_range }))
    else if ltb 0 records && ltb max_bytes (taken + (len_prefix_bytes + len))
    then returns (ok (taken, records))
    else next

unfoldable pub measure_loop :
    (fuel : ℕ) (r : Ring) (max_bytes available taken records : ℕ)
    → Outcome (Result (ℕ × ℕ) Corrupted)
measure_loop zero r max_bytes available taken records = unfinished
measure_loop (suc fuel) r max_bytes available taken records =
    let remaining = available - taken in
    let round = do
      len ← read_len r (add_u64 r.state.head taken)
      measure_record max_bytes taken records remaining len
          (measure_loop fuel r max_bytes available (taken + (len_prefix_bytes + len)) (records + 1))
    in let checked =
        if ltb remaining len_prefix_bytes
        then returns (err (record { reason = truncated_prefix }))
        else round in
      if ltb taken available then checked else returns (ok (taken, records))

-- Each round takes the four bytes of a prefix at least, so the fuel is enough.
unfoldable pub measure_drain : Ring → ℕ → Outcome (Result (ℕ × ℕ) Corrupted)
measure_drain r max_bytes = measure_loop (suc (used r)) r max_bytes (used r) 0 0

-- The match of `drain_into` on what was measured.
unfoldable pub drain_measured :
    Ring → List ℕ → Result (ℕ × ℕ) Corrupted → Outcome (Ring × List ℕ × Result ℕ Corrupted)
drain_measured r out (ok (bytes, records)) = do
  out' ← copy_out r r.state.head bytes out
  let head = add_u64 r.state.head bytes
  returns (record r { state = record r.state { head = head } }, out', ok records)
drain_measured r out (err corrupted) =
    returns (record r { state = record r.state { head = r.state.tail } }, out, err corrupted)

unfoldable pub drain_into : Ring → List ℕ → ℕ → Outcome (Ring × List ℕ × Result ℕ Corrupted)
drain_into r out max_bytes =
    let drained = measure_drain r max_bytes >>= drain_measured r out in
    if is_consistent r
    then drained
    else returns (reset r, out, err (record { reason = inconsistent_positions }))

-- `split_record`: the payload and what follows it.
unfoldable pub split_record : List ℕ → Result (List ℕ × List ℕ) Corrupted
split_record bytes =
    let body = drop len_prefix_bytes bytes in
    let len = from_le_bytes (take len_prefix_bytes bytes) in
    if ltb (length bytes) len_prefix_bytes
    then err (record { reason = truncated_prefix })
    else if ltb max_record_bytes len || ltb (length body) len
    then err (record { reason = length_out_of_range })
    else ok (take len body, drop len body)

-- `Records::next`: the item, and the rest that the iterator keeps.
unfoldable pub next_item : Result (List ℕ × List ℕ) Corrupted → Result (List ℕ) Corrupted × List ℕ
next_item (ok (payload, rest)) = (ok payload, rest)
next_item (err e) = (err e, [])

unfoldable pub records_next : List ℕ → Option (Result (List ℕ) Corrupted) × List ℕ
records_next [] = (none, [])
records_next (b ∷ bs) = let (item, rest) = next_item (split_record (b ∷ bs)) in (some item, rest)

-- A `for` loop over `records(bytes)` sees these items.
unfoldable pub records_loop : ℕ → List ℕ → Outcome (List (Result (List ℕ) Corrupted))
records_loop zero bytes = unfinished
records_loop (suc fuel) bytes =
    let (item, rest) = records_next bytes in
    let more = records_loop fuel rest in
    elim item [ none ↦ returns [] | some i ↦ more >>= λ items. returns (i ∷ items) ]

-- A record takes four bytes at least, and the last call finds the rest empty.
unfoldable pub records : List ℕ → Outcome (List (Result (List ℕ) Corrupted))
records bytes = records_loop (suc (length bytes)) bytes

unfoldable pub should_wake : (used_before used_after capacity : ℕ) → Bool
should_wake used_before used_after capacity =
    let half = capacity / 2 in used_before == 0 || (ltb used_before half && leb half used_after)
