-- ===== src/Pipeline/Tests.antt =====
-- A span pushed to an empty ring, and drained from a ring that holds it.
use pg_otel.Prelude.{ℕ, ◌≡◌, ◌++◌, List, [], ◌∷◌, length, map, arith, Result, ok, returns}
use pg_otel.Queue.{Ring, QueueFull, push_batch, drain_into}
use pg_otel.Queue.Budget.{Takes}
use pg_otel.Span.{SpanRecord}
use pg_otel.Codec.Encode.{encode_batch}
use pg_otel.Codec.Decode.{decode_records}
use pg_otel.Codec.RoundTrip.{clamp_span}
use pg_otel.Codec.Stream.{payloads}
use pg_otel.Codec.Samples.{select_one, select_one-IsSpan}
use pg_otel.Pipeline.{HoldsSpans, Queued, push_batch-encode_batch, decode_records-drain_into}
use pg_otel.Pipeline.Samples.{
  empty_ring, full_ring, empty_ring-HoldsSpans, full_ring-HoldsSpans, batch_bytes,
}

push_batch-encode_batch_example :
    (out : Ring × Result (Unit {0}) QueueFull) × (push_batch empty_ring
        (encode_batch (select_one ∷ [])).0
      ≡ returns out)
    × Queued empty_ring (encode_batch (select_one ∷ [])).0 [] (select_one ∷ []) out
push_batch-encode_batch_example =
    push_batch-encode_batch (select_one ∷ []) empty_ring-HoldsSpans (select_one-IsSpan, tt)
      (omega (arith, batch_bytes))

decode_records-drain_into_example :
    (taken : List SpanRecord) × (left : List SpanRecord) × (r' : Ring) × (bytes : List ℕ)
    × (drain_into full_ring [] 1024 ≡ returns (r', bytes, ok (length taken)))
    × (decode_records bytes ≡ returns (map clamp_span taken, 0))
    × (select_one ∷ [] ≡ taken ++ left)
    × Takes 1024 (payloads (select_one ∷ [])) (payloads taken) (payloads left)
    × HoldsSpans r' left
decode_records-drain_into_example = decode_records-drain_into 1024 full_ring-HoldsSpans
