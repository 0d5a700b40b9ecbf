-- ===== src/Worker/Exporter.antt =====
-- `build_exporter` of src/worker.rs. The file system, the parser of header values and the exporter's
-- library are parameters.
pub mod Built
pub mod Named
pub mod Tests
use pg_otel.Prelude.{ℕ, ◌||◌, Option, none, some, List, [], ◌∷◌, if◌then◌else◌, map}
use pg_otel.Prelude.Text.{bytes_eq, to_ascii_lowercase}
use pg_otel.Span.{Bytes, Str}
use pg_otel.Config.{Settings, ExporterConfig, load}

pub data Transport : Type 0 where
  grpc http : Transport

abbrev pub grpc_name : Str
grpc_name = 103 ∷ 114 ∷ 112 ∷ 99 ∷ []

-- "grpc-tonic".
abbrev pub tonic_name : Str
tonic_name = 103 ∷ 114 ∷ 112 ∷ 99 ∷ 45 ∷ 116 ∷ 111 ∷ 110 ∷ 105 ∷ 99 ∷ []

abbrev pub http_name : Str
http_name = 104 ∷ 116 ∷ 116 ∷ 112 ∷ []

-- "http/protobuf".
abbrev pub protobuf_name : Str
protobuf_name = 104 ∷ 116 ∷ 116 ∷ 112 ∷ 47 ∷ 112 ∷ 114 ∷ 111 ∷ 116 ∷ 111 ∷ 98 ∷ 117 ∷ 102 ∷ []

-- "http-binary".
abbrev pub binary_name : Str
binary_name = 104 ∷ 116 ∷ 116 ∷ 112 ∷ 45 ∷ 98 ∷ 105 ∷ 110 ∷ 97 ∷ 114 ∷ 121 ∷ []

-- The match on the protocol in lower case.
unfoldable pub transport_of : Str → Option Transport
transport_of protocol =
    let name = map to_ascii_lowercase protocol in
    if bytes_eq name grpc_name || bytes_eq name tonic_name
    then some grpc
    else if bytes_eq name http_name || (bytes_eq name protobuf_name || bytes_eq name binary_name)
    then some http
    else none

-- What the builder of the exporter is given.
pub record Builder : Type 0 where
  pub transport : Transport
  pub endpoint : Str
  pub timeout_ms : ℕ
  pub certificate : Option Bytes
  pub authorization : Option Str

abbrev pub new_builder : ExporterConfig → Transport → Builder
new_builder config transport = record {
  transport = transport;
  endpoint = config.endpoint;
  timeout_ms = config.timeout_ms;
  certificate = none;
  authorization = none;
}

abbrev pub with_certificate : Builder → Option Bytes → Option Builder
with_certificate b none = none
with_certificate b (some pem) = some (record b { certificate = some pem })

abbrev pub with_metadata : Option Builder → Option Str → Option Builder
with_metadata none value = none
with_metadata (some b) none = none
with_metadata (some b) (some value) = some (record b { authorization = some value })

module _ (read : Str → Option Bytes) (parse : Str → Option Str) where
  -- `with_tls_config`, if the file can be read.
  abbrev pub certified : Builder → Option Str → Option Builder
  certified b none = some b
  certified b (some path) = with_certificate b (read path)

  -- `with_metadata`, if the value can be a header's.
  abbrev pub authorized : Option Builder → Option Str → Option Builder
  authorized b none = b
  authorized b (some authorization) = with_metadata b (parse authorization)

  unfoldable pub builder_for : ExporterConfig → Option Transport → Option Builder
  builder_for config none = none
  builder_for config (some grpc) =
      authorized (certified (new_builder config grpc) config.ca_certificate) config.authorization
  builder_for config (some http) =
      some (record (new_builder config http) { authorization = config.authorization })

  module _ {E : Type 0} (build : Builder → Option E) (set_resource : Str → E → E) where
    abbrev pub with_resource : ExporterConfig → Option E → Option E
    with_resource config none = none
    with_resource config (some exporter) = some (set_resource config.service_name exporter)

    abbrev pub build_with : ExporterConfig → Option Builder → Option E
    build_with config none = none
    build_with config (some b) = with_resource config (build b)

    abbrev pub build_loaded : Option ExporterConfig → Option E
    build_loaded none = none
    build_loaded (some config) =
        build_with config (builder_for config (transport_of config.protocol))

    unfoldable pub build_exporter : Settings → Option E
    build_exporter s = build_loaded (load s)
