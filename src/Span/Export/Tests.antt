-- ===== src/Span/Export/Tests.antt =====
-- The export of src/span.rs at the span of a statement.
use pg_otel.Span.Export.{export_span}
use pg_otel.Span.Export.Keys.{Distinct, export_span-Distinct}
use pg_otel.Codec.Samples.{select_one}

export_span-Distinct_example : Distinct ((export_span select_one).attributes)
export_span-Distinct_example = export_span-Distinct select_one
