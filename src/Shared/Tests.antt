-- ===== src/Shared/Tests.antt =====
-- The theorems on src/shared.rs at a queue of 256 bytes.
use pg_otel.Prelude.{◌≡◌, some, [], ◌∷◌, returns, arith}
use pg_otel.Prelude.Int.{pos}
use pg_otel.Codec.Encode.{encode_batch}
use pg_otel.Codec.Samples.{select_one, select_one-IsSpan}
use pg_otel.Pipeline.Samples.{empty_ring, empty_ring-HoldsSpans, batch_bytes}
use pg_otel.Shared.{Header, PublishOutcome, publish}
use pg_otel.Shared.Publish.{Accounted, publish_accounts}

abbrev idle : Header
idle = record { ring = empty_ring; worker_proc_number = pos 3; dropped_spans = 5 }

publish_accounts_example :
    (out : PublishOutcome) × (publish
        (some 10)
        idle
        (encode_batch (select_one ∷ [])).0
        (encode_batch (select_one ∷ [])).1
      ≡ returns out)
    × Accounted idle [] (select_one ∷ []) out
publish_accounts_example =
    publish_accounts (some 10) idle (select_one ∷ []) empty_ring-HoldsSpans (select_one-IsSpan, tt)
      (omega arith) (omega (arith, batch_bytes))
