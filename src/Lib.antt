-- ===== src/Lib.antt =====
-- pg_otel traces the statements of a Postgres server. When a statement ends, its backend builds one
-- span for the statement and one for each node of its plan, encodes them to a batch of records and
-- pushes the batch to a byte ring in shared memory. A background worker drains the ring, decodes the
-- records and exports the spans over OpenTelemetry.
--
-- The parts, the files that model them, and the code that they model:
--   Queue      src/queue.rs: `Batch`, `Ring` and `Records`; its children hold the theorems.
--   Codec      src/codec.rs: Words (integers as bytes), Encode, Decode; Fields, RoundTrip, Prefixes
--              and Stream hold the theorems.
--   Span       src/span.rs: the records; Walk is `walk_plan`, Export the conversion to `SpanData`.
--   Sanitize   src/sanitize.rs: Statement (`current_statement`), Tokens (`scan_tokens`), Compact
--              (`select_list_compactions`), Render, Truncate, Quiet (`MessageSuppression`),
--              Export (`normalize`, `sanitize`).
--   PlanSpans  State (Postgres' structs), Children (`plan_state_children` of src/postgres.rs), Node
--              (`from_plan` of src/span.rs), Collect (`collect_plan_spans` of src/postgres.rs).
--   Trace      src/postgres.rs: `tracing_enabled`, `meets_slow_query_threshold`, `block_comments`;
--              Percent (`percent_decode`), Values (`traceparent_values`), Parent
--              (`parse_traceparent` of src/span.rs, `decide_parent`). Nested is a grammar of texts
--              with comments.
--   Statement  src/postgres.rs: `collect_spans_unguarded`; src/span.rs: `from_query`.
--   Compat     src/compat: Ticks (`ticks_to_ns`), Pg18 and Pg19 (the reads of instrumentation).
--   System     backends and the worker taking turns on the shared queue.
--   Pipeline   the encoder, the ring and the decoder together.
--   Shared     src/shared.rs: the header in shared memory, `publish` and `drain_into`.
--   Worker     src/worker.rs: `drain_queue`, `take_chunk`, `export_pending`, the report of drops; Run
--              is the main loop, the reload and the flush; Exporter is `build_exporter`.
--   Config     src/config.rs: the settings and `ExporterConfig::load`.
--   Prelude    shared names, lists over the native numbers, bytes, UTF-8, text and signed integers.
--
-- State is passed explicitly: an operation on `&mut self` returns the new value. A function of the
-- source keeps its name, and a helper that stands for a match or a loop of it says so. Code that may
-- panic or loop returns an `Outcome`: `returns`, `panics` (an index out of range, a remainder by
-- zero), or `unfinished`, when a loop runs out of the fuel that the model gives it. The fuel: the
-- loop of `measure_drain` has one round more than there are bytes in use, since a round takes four
-- bytes at least; the iterator over records has one more than there are bytes; the loop of `render`
-- has one more than there are tokens, since each round goes at least one token on. The plan walk and
-- `drain_queue` take their fuel as an argument, and their theorems give a number that is enough.
--
-- A byte is a number, a text its UTF-8 bytes, a double its bit pattern, a time its nanoseconds from
-- the Unix epoch, an `i32` or `i64` an integer. `usize` values do not wrap, since they count bytes of
-- memory; the ring's counters and the count of dropped spans wrap at 2^64, and the theorems that
-- need them not to wrap say so. Postgres' functions and structs (the scanner, `CleanQuerytext`, the
-- plan state, the end of an instrumentation cycle), the random ids and the propagator of OpenTelemetry
-- are parameters. So is the lossy conversion to UTF-8 in Sanitize, where its result does not matter;
-- Trace and Statement use that of Prelude/Lossy.
--
-- A run of several processes is a list of turns, since the lock makes each access of the queue one step.
-- In the main loop of the worker other processes add to the queue while it sleeps, so that a byte of
-- fuel for each byte of the queue is enough for an export; the time-out around a single export that
-- hangs is left out. The loop of `traceparent_values` has one round more than the comment has bytes.
--
-- Not modelled: the executor hooks and the containment of errors, the memory context of the scan, the
-- registration of settings (src/config.rs), the requests for instrumentation (src/compat), the locks
-- and most log messages.
pub mod Prelude
pub mod Queue
pub mod Span
pub mod Codec
pub mod Sanitize
pub mod Pipeline
pub mod PlanSpans
pub mod Trace
pub mod Shared
pub mod Worker
pub mod System
pub mod Statement
pub mod Compat
pub mod Config
