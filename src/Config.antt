-- ===== src/Config.antt =====
-- The settings of src/config.rs and `ExporterConfig::load`. A setting of Postgres is the bytes of a
-- C string, or none where it is not set; the log lines about unusable settings are left out.
pub mod Loaded
use pg_otel.Prelude.{ℕ, ◌-◌, ◌^◌, Option, none, some, [], ◌∷◌, if◌then◌else◌}
use pg_otel.Prelude.Int.{ℤ, pos, negsuc}
use pg_otel.Prelude.Utf8.{is_utf8}
use pg_otel.Span.{Bytes, Str}

pub record Settings : Type 0 where
  pub otlp_endpoint : Option Bytes
  pub otlp_timeout_ms : ℤ
  pub otlp_protocol : Option Bytes
  pub otlp_authorization : Option Bytes
  pub otlp_ca_certificate : Option Bytes
  pub otlp_service_name : Option Bytes
  pub otlp_traceparent : Option Bytes

-- `CString::into_string`.
unfoldable pub into_string : Bytes → Option Str
into_string bytes = if is_utf8 bytes then some bytes else none

-- A setting that is not set or no UTF-8 is none.
abbrev pub string_of : Option Bytes → Option Str
string_of none = none
string_of (some bytes) = into_string bytes

abbrev pub get_otlp_endpoint : Settings → Option Str
get_otlp_endpoint s = string_of s.otlp_endpoint

abbrev pub get_otlp_protocol : Settings → Option Str
get_otlp_protocol s = string_of s.otlp_protocol

abbrev pub get_otlp_authorization : Settings → Option Str
get_otlp_authorization s = string_of s.otlp_authorization

abbrev pub get_otlp_ca_certificate : Settings → Option Str
get_otlp_ca_certificate s = string_of s.otlp_ca_certificate

abbrev pub get_otlp_traceparent : Settings → Option Str
get_otlp_traceparent s = string_of s.otlp_traceparent

-- "postgresql".
abbrev pub otlp_service_name_default : Str
otlp_service_name_default = 112 ∷ 111 ∷ 115 ∷ 116 ∷ 103 ∷ 114 ∷ 101 ∷ 115 ∷ 113 ∷ 108 ∷ []

abbrev pub name_or_default : Option Str → Str
name_or_default none = otlp_service_name_default
name_or_default (some name) = name

abbrev pub get_otlp_service_name : Settings → Str
get_otlp_service_name s = name_or_default (string_of s.otlp_service_name)

pub record ExporterConfig : Type 0 where
  pub endpoint : Str
  pub protocol : Str
  pub timeout_ms : ℕ
  pub authorization : Option Str
  pub ca_certificate : Option Str
  pub service_name : Str

-- `as u32` of an `i32`.
abbrev pub as_u32 : ℤ → ℕ
as_u32 (pos n) = n
as_u32 (negsuc n) = 2 ^ 32 - 1 - n

abbrev pub load_with : Settings → Option Str → Option Str → Option ExporterConfig
load_with s none protocol = none
load_with s (some endpoint) none = none
load_with s (some endpoint) (some protocol) = some (record {
  endpoint = endpoint;
  protocol = protocol;
  timeout_ms = as_u32 s.otlp_timeout_ms;
  authorization = get_otlp_authorization s;
  ca_certificate = get_otlp_ca_certificate s;
  service_name = get_otlp_service_name s;
})

unfoldable pub load : Settings → Option ExporterConfig
load s = load_with s (get_otlp_endpoint s) (get_otlp_protocol s)
