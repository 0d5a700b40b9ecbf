-- ===== src/Codec/Tests.antt =====
-- The theorems on src/codec.rs at the spans of a statement and of a plan node.
use pg_otel.Prelude.{◌++◌, ◌≡◌, refl, [], ◌∷◌, map, drop, ok, err, returns}
use pg_otel.Codec.Encode.{
  encode_span, encode_batch, put_bool, put_i64, put_u64, put_time, put_str, put_opt_str,
  encode_query, encode_attributes, kind_of,
}
use pg_otel.Codec.Decode.{DecodeError, decode_span, decode_records, trailing_bytes}
use pg_otel.Codec.RoundTrip.{clamp_span, decode_span-encode_span, decode_span_trailing}
use pg_otel.Codec.Prefixes.{decode_span_truncated}
use pg_otel.Codec.Samples.{select_one, select_one-IsSpan}
use pg_otel.Codec.Stream.{kept, decode_records-encode_batch}

decode_span-encode_span_example :
    decode_span (encode_span select_one []) ≡ ok (clamp_span select_one)
decode_span-encode_span_example = decode_span-encode_span select_one select_one-IsSpan

decode_span_trailing_example :
    decode_span (encode_span select_one [] ++ (0 ∷ [])) ≡ err trailing_bytes
decode_span_trailing_example = decode_span_trailing select_one 0 [] select_one-IsSpan

first_byte : encode_span select_one [] ≡ (2 ∷ []) ++ (1 ∷ drop 2 (encode_span select_one []))
unfolding encode_span encode_attributes encode_query kind_of put_bool put_i64 put_u64 put_time
    put_str put_opt_str
first_byte = refl

decode_span_truncated_example : (e : DecodeError) × (decode_span (2 ∷ []) ≡ err e)
decode_span_truncated_example =
    decode_span_truncated select_one (2 ∷ []) 1 (drop 2 (encode_span select_one []))
      select_one-IsSpan first_byte

decode_records-encode_batch_example :
    decode_records ((encode_batch (select_one ∷ select_one ∷ [])).0.bytes)
    ≡ returns (map clamp_span (kept (select_one ∷ select_one ∷ [])), 0)
decode_records-encode_batch_example =
    decode_records-encode_batch (select_one ∷ select_one ∷ [])
      (select_one-IsSpan, (select_one-IsSpan, tt))
