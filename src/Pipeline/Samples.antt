-- ===== src/Pipeline/Samples.antt =====
-- Rings that the tests use.
use pg_otel.Prelude.{◌≡◌, refl, [], ◌∷◌, replicate, length, arith}
use pg_otel.Prelude.Bytes.{to_le_bytes}
use pg_otel.Queue.{Ring}
use pg_otel.Queue.Frames.{frames}
use pg_otel.Codec.Encode.{
  encode_span, encode_loop, encode_batch, encode_attributes, encode_query, kind_of, put_bool,
  put_i64, put_u64, put_time, put_str, put_opt_str,
}
use pg_otel.Queue.{push_record}
use pg_otel.Codec.Fields.{bool_bytes, i64_bytes, u64_bytes, time_bytes, str_bytes, opt_str_bytes}
use pg_otel.Codec.RoundTrip.{span_bytes, attributes_bytes, query_bytes}
use pg_otel.Codec.Stream.{payloads}
use pg_otel.Codec.Samples.{select_one, select_one-IsSpan}
use pg_otel.Pipeline.{HoldsSpans}

abbrev pub empty_ring : Ring
empty_ring = record { state = record { head = 0; tail = 0 }; cells = replicate 256 0 }

abbrev pub full_ring : Ring
full_ring = record {
  state = record { head = 0; tail = 97 };
  cells = frames (payloads (select_one ∷ []));
}

pub empty_ring-HoldsSpans : HoldsSpans empty_ring []
empty_ring-HoldsSpans = record {
  queued = record { consistent = omega arith; stored = refl; accepted = tt };
  valid = tt;
}

pub full_ring-HoldsSpans : HoldsSpans full_ring (select_one ∷ [])
unfolding to_le_bytes span_bytes attributes_bytes query_bytes kind_of bool_bytes i64_bytes u64_bytes
    time_bytes str_bytes opt_str_bytes
full_ring-HoldsSpans = record {
  queued = record { consistent = omega arith; stored = refl; accepted = (omega arith, tt) };
  valid = (select_one-IsSpan, tt);
}

pub batch_bytes : length ((encode_batch (select_one ∷ [])).0.bytes) ≡ 97
unfolding encode_batch encode_loop push_record encode_span encode_attributes encode_query kind_of
    put_bool put_i64 put_u64 put_time put_str put_opt_str to_le_bytes
batch_bytes = refl
