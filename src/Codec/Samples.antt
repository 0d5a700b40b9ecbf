-- ===== src/Codec/Samples.antt =====
-- A span that the tests use.
use pg_otel.Prelude.{refl, [], ◌∷◌, true, some, replicate, arith}
use pg_otel.Prelude.Int.{pos, negsuc}
use pg_otel.Span.{SpanRecord, query}
use pg_otel.Prelude.Utf8.{is_utf8, utf8_rest, lead_byte}
use pg_otel.Codec.RoundTrip.{IsSpan}

-- A statement that began a nanosecond before the epoch.
abbrev pub select_one : SpanRecord
select_one = record {
  trace_id = replicate 16 7;
  span_id = replicate 8 5;
  parent_id = replicate 8 0;
  name = 83 ∷ 69 ∷ [];
  start_time = negsuc 0;
  end_time = pos 1000;
  attributes = query (record {
    parent_is_remote = true;
    operation = 83 ∷ [];
    query_text = some (195 ∷ 164 ∷ []);
    query_id = negsuc 4;
    exec_total_time_ns = pos 1000;
    plan_spans_omitted = 3;
  });
}

pub select_one-IsSpan : IsSpan select_one
unfolding is_utf8 utf8_rest lead_byte
select_one-IsSpan = record {
  trace_id_fits = refl;
  span_id_fits = refl;
  parent_id_fits = refl;
  name_fits = (refl, omega arith);
  attributes_fit = record {
    operation_fits = (refl, omega arith);
    query_text_fits = (refl, omega arith);
    query_id_fits = omega arith;
    exec_total_time_ns_fits = omega arith;
    plan_spans_omitted_fits = omega arith;
  };
}
