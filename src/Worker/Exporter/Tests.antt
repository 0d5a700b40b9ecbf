-- ===== src/Worker/Exporter/Tests.antt =====
-- The theorems on `build_exporter`, and the settings that README.md gives as an example.
use pg_otel.Prelude.{◌≡◌, refl, Option, none, some, [], ◌∷◌, ◌↔◌}
use pg_otel.Prelude.Int.{pos}
use pg_otel.Prelude.Utf8.{is_utf8, utf8_rest, lead_byte}
use pg_otel.Prelude.Text.{bytes_eq}
use pg_otel.Span.{Bytes, Str}
use pg_otel.Config.{Settings, into_string, load, otlp_service_name_default}
use pg_otel.Worker.Exporter.{Builder, grpc, transport_of, builder_for, build_exporter}
use pg_otel.Worker.Exporter.Built.{BuiltFrom, build_exporter_iff}

-- The file "c" holds a certificate; there is no other.
abbrev read_file : Str → Option Bytes
read_file [] = none
read_file (c ∷ path) = some (45 ∷ [])

abbrev parse_header : Str → Option Str
parse_header value = some value

-- What the library is given, and the name of the service.
abbrev build : Builder → Option (Builder × Str)
build b = some (b, [])

abbrev set_resource : Str → Builder × Str → Builder × Str
set_resource name (b, old) = (b, name)

abbrev settings : Option Bytes → Settings
settings ca = record {
  otlp_endpoint = some (104 ∷ []);
  otlp_timeout_ms = pos 5000;
  otlp_protocol = some (71 ∷ 114 ∷ 112 ∷ 99 ∷ []);
  otlp_authorization = none;
  otlp_ca_certificate = ca;
  otlp_service_name = none;
  otlp_traceparent = none;
}

abbrev expected : Builder × Str
expected = (
  record {
    transport = grpc;
    endpoint = 104 ∷ [];
    timeout_ms = 5000;
    certificate = some (45 ∷ []);
    authorization = none;
  },
  otlp_service_name_default,
)

certificate_used :
    build_exporter read_file parse_header build set_resource (settings (some (99 ∷ [])))
    ≡ some expected
unfolding build_exporter load into_string is_utf8 utf8_rest lead_byte transport_of builder_for
    bytes_eq
certificate_used = refl

-- A path that is empty is a file that cannot be read.
empty_certificate :
    build_exporter read_file parse_header build set_resource (settings (some [])) ≡ none
unfolding build_exporter load into_string is_utf8 utf8_rest lead_byte transport_of builder_for
    bytes_eq
empty_certificate = refl

build_exporter_iff_example :
    (build_exporter read_file parse_header build set_resource (settings (some (99 ∷ [])))
      ≡ some expected)
    ↔ BuiltFrom read_file parse_header build set_resource (settings (some (99 ∷ []))) expected
build_exporter_iff_example =
    build_exporter_iff read_file parse_header build set_resource (settings (some (99 ∷ [])))
      expected
