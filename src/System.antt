-- ===== src/System.antt =====
-- Backends and the worker on the shared queue (src/shared.rs, src/worker.rs): every order in which
-- they take their turns. The lock makes a publish and the draining of a chunk one step each.
pub mod Accounts
mod Tests
use pg_otel.Prelude.{
  ℕ, ◌+◌, Option, List, [], ◌∷◌, ◌++◌, length, Outcome, returns, panics, unfinished, ◌>>=◌,
}
use pg_otel.Prelude.Int.{ℤ}
use pg_otel.Span.{SpanRecord}
use pg_otel.Span.Export.{SpanData}
use pg_otel.Codec.Encode.{encode_batch}
use pg_otel.Codec.Stream.{kept}
use pg_otel.Shared.{
  Header, Published, queued, dropped, PublishOutcome, publish, register_worker,
  unregister_worker_on_exit,
}
use pg_otel.Worker.{take_chunk}

-- A turn: a backend publishes the spans of a statement (`publish_spans`), the worker takes a chunk
-- to hand it on to its exporter, or it registers or unregisters itself.
pub data Action : Type 0 where
  publish_spans : (procs : Option ℕ) → List SpanRecord → Action
  export_turn : Action
  register : ℤ → Action
  unregister : Action

-- The header, what the worker took to hand on, and what each backend published with the answer that
-- it got.
pub record System : Type 0 where
  pub header : Header
  pub exported : List SpanData
  pub answers : List (List SpanRecord × Published)

abbrev pub answered : System → List SpanRecord → Outcome PublishOutcome → Outcome System
answered s spans (returns (header, answer, latch)) =
    returns (record s { header = header; answers = s.answers ++ ((spans, answer) ∷ []) })
answered s spans panics = panics
answered s spans unfinished = unfinished

abbrev pub chunk_exported : System → Outcome (List SpanData × Header) → Outcome System
chunk_exported s (returns (spans, header)) =
    returns (record s { header = header; exported = s.exported ++ spans })
chunk_exported s panics = panics
chunk_exported s unfinished = unfinished

unfoldable pub act : Action → System → Outcome System
act (publish_spans procs spans) s =
    let (batch, skipped) = encode_batch spans in
    answered s spans (publish procs s.header batch skipped)
act export_turn s = chunk_exported s (take_chunk s.header)
act (register proc_number) s = returns (record s { header = register_worker proc_number s.header })
act unregister s = returns (record s { header = unregister_worker_on_exit s.header })

unfoldable pub run_actions : List Action → System → Outcome System
run_actions [] s = returns s
run_actions (a ∷ actions) s = act a s >>= run_actions actions

-- The spans that were queued, in order, and the number of all that were offered.
abbrev pub accepted : List (List SpanRecord × Published) → List SpanRecord
accepted [] = []
accepted ((spans, queued) ∷ answers) = kept spans ++ accepted answers
accepted ((spans, dropped) ∷ answers) = accepted answers

abbrev pub offered : List (List SpanRecord × Published) → ℕ
offered [] = 0
offered ((spans, answer) ∷ answers) = length spans + offered answers

-- What the actions add to the 64-bit counters at most: spans, and bytes.
abbrev pub action_spans : List Action → ℕ
action_spans [] = 0
action_spans (publish_spans procs spans ∷ actions) = length spans + action_spans actions
action_spans (export_turn ∷ actions) = action_spans actions
action_spans (register n ∷ actions) = action_spans actions
action_spans (unregister ∷ actions) = action_spans actions

abbrev pub action_bytes : List Action → ℕ
action_bytes [] = 0
action_bytes (publish_spans procs spans ∷ actions) =
    length ((encode_batch spans).0.bytes) + action_bytes actions
action_bytes (export_turn ∷ actions) = action_bytes actions
action_bytes (register n ∷ actions) = action_bytes actions
action_bytes (unregister ∷ actions) = action_bytes actions
