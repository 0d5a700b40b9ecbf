-- ===== src/Worker/Exporter/Built.antt =====
-- When `build_exporter` of src/worker.rs gives an exporter, and with what it is built.
use pg_otel.Prelude.{◌≡◌, refl, sym, ap, ◌∙◌, Option, none, some, ◌↔◌, arith}
use pg_otel.Span.{Bytes, Str}
use pg_otel.Config.{Settings, ExporterConfig, load}
use pg_otel.Config.Loaded.{IsConfig, load-IsConfig}
use pg_otel.Worker.Exporter.Named.{IsNamed, transport_of_iff}
use pg_otel.Worker.Exporter.{
  Transport, grpc, http, transport_of, Builder, new_builder, with_certificate, with_metadata,
  certified, authorized, builder_for, with_resource, build_with, build_loaded, build_exporter,
}

abbrev pub built : ExporterConfig → Transport → Option Bytes → Option Str → Builder
built config transport certificate header = record {
  transport = transport;
  endpoint = config.endpoint;
  timeout_ms = config.timeout_ms;
  certificate = certificate;
  authorization = header;
}

with_certificate_lem :
    (start b : Builder) (x : Option Bytes)
    → with_certificate start x ≡ some b
    → (pem : Bytes) × (x ≡ some pem) × (b ≡ record start { certificate = some pem })
with_certificate_lem start b none e = cc
with_certificate_lem start b (some pem) e = (pem, refl, ground arith)

with_metadata_lem :
    (start b : Builder) (y : Option Str)
    → with_metadata (some start) y ≡ some b
    → (value : Str) × (y ≡ some value) × (b ≡ record start { authorization = some value })
with_metadata_lem start b none e = cc
with_metadata_lem start b (some value) e = (value, refl, ground arith)

with_both_lem :
    (start b : Builder) (x : Option Bytes) (y : Option Str)
    → with_metadata (with_certificate start x) y ≡ some b
    → (pem : Bytes) × (value : Str) × (x ≡ some pem)
      × (y ≡ some value)
      × (b ≡ record start { certificate = some pem; authorization = some value })
with_both_lem start b none y e = cc
with_both_lem start b (some pem) none e = cc
with_both_lem start b (some pem) (some value) e = (pem, value, refl, refl, ground arith)

module _ (read : Str → Option Bytes) (parse : Str → Option Str) where
  -- The certificate that stands in the configured file, if there is one.
  abbrev pub HasCertificate : Option Str → Option Bytes → Type 0
  HasCertificate none certificate = certificate ≡ none
  HasCertificate (some path) certificate =
      (pem : Bytes) × (read path ≡ some pem) × (certificate ≡ some pem)

  -- The header that the configured value stands for, if there is one.
  abbrev pub HasHeader : Option Str → Option Str → Type 0
  HasHeader none header = header ≡ none
  HasHeader (some authorization) header =
      (value : Str) × (parse authorization ≡ some value) × (header ≡ some value)

  -- Over gRPC the certificate and the header are used; over HTTP only the header, as it is set.
  abbrev pub IsSecured : ExporterConfig → Transport → Option Bytes → Option Str → Type 0
  IsSecured config grpc certificate header =
      HasCertificate config.ca_certificate certificate × HasHeader config.authorization header
  IsSecured config http certificate header = (certificate ≡ none) × (header ≡ config.authorization)

  grpc_builder_lem :
      (config : ExporterConfig) (b : Builder) (ca authorization : Option Str)
      → authorized read parse (certified read parse (new_builder config grpc) ca) authorization
        ≡ some b
      → (certificate : Option Bytes) × (header : Option Str) × HasCertificate ca certificate
        × HasHeader authorization header
        × (b ≡ built config grpc certificate header)
  grpc_builder_lem config b none none e = (none, none, refl, refl, ground arith)
  grpc_builder_lem config b none (some a) e =
      let (value, p, q) = with_metadata_lem (new_builder config grpc) b (parse a) e in
      (none, some value, refl, (value, p, refl), q)
  grpc_builder_lem config b (some path) none e =
      let (pem, p, q) = with_certificate_lem (new_builder config grpc) b (read path) e in
      (some pem, none, (pem, p, refl), refl, q)
  grpc_builder_lem config b (some path) (some a) e =
      let (pem, value, p, q, r) =
        with_both_lem (new_builder config grpc) b (read path) (parse a) e in
      (some pem, some value, (pem, p, refl), (value, q, refl), r)

  builder_for_lem :
      (config : ExporterConfig) (t : Option Transport) (b : Builder)
      → builder_for read parse config t ≡ some b
      → (transport : Transport) × (certificate : Option Bytes) × (header : Option Str) × (t
          ≡ some transport)
        × IsSecured config transport certificate header
        × (b ≡ built config transport certificate header)
  unfolding builder_for
  builder_for_lem config none b e = cc
  builder_for_lem config (some grpc) b e =
      let (certificate, header, c, h, q) =
        grpc_builder_lem config b config.ca_certificate config.authorization e in
      (grpc, certificate, header, refl, (c, h), q)
  builder_for_lem config (some http) b e =
      (http, none, config.authorization, refl, (refl, refl), ground arith)

  grpc_builder-built :
      (config : ExporterConfig) (ca authorization header : Option Str) (certificate : Option Bytes)
      → HasCertificate ca certificate
      → HasHeader authorization header
      → authorized read parse (certified read parse (new_builder config grpc) ca) authorization
        ≡ some (built config grpc certificate header)
  grpc_builder-built config none none header certificate c h = rw (c, h) refl
  grpc_builder-built config none (some a) header certificate c (value, p, h) = rw (c, p, h) refl
  grpc_builder-built config (some path) none header certificate (pem, p, c) h = rw (p, c, h) refl
  grpc_builder-built config (some path) (some a) header certificate (pem, p, c) (value, q, h) =
      rw (p, c, q, h) refl

  builder_for-built :
      (config : ExporterConfig) (transport : Transport) (certificate : Option Bytes)
      (header : Option Str)
      → IsSecured config transport certificate header
      → builder_for read parse config (some transport)
        ≡ some (built config transport certificate header)
  unfolding builder_for
  builder_for-built config grpc certificate header s =
      grpc_builder-built config config.ca_certificate config.authorization header certificate s.0
        s.1
  builder_for-built config http certificate header s = rw (s.0, s.1) refl

  module _ {E : Type 0} (build : Builder → Option E) (set_resource : Str → E → E) where
    -- A configuration, and an exporter built with all that it asks for.
    pub record BuiltFrom (s : Settings) (e : E) : Type 0 where
      pub config : ExporterConfig
      pub configured : IsConfig s config
      pub transport : Transport
      pub named : IsNamed config.protocol transport
      pub certificate : Option Bytes
      pub header : Option Str
      pub secured : IsSecured config transport certificate header
      pub exporter : E
      pub done : build (built config transport certificate header) ≡ some exporter
      pub resource : e ≡ set_resource config.service_name exporter

    with_resource_lem :
        (config : ExporterConfig) (x : Option E) (e : E)
        → with_resource read parse build set_resource config x ≡ some e
        → (exporter : E) × (x ≡ some exporter) × (e ≡ set_resource config.service_name exporter)
    with_resource_lem config none e h = cc
    with_resource_lem config (some exporter) e h = (exporter, refl, ground arith)

    build_with-BuiltFrom :
        (s : Settings) (config : ExporterConfig) (x : Option Builder) (e : E)
        → load s ≡ some config
        → builder_for read parse config (transport_of config.protocol) ≡ x
        → build_with read parse build set_resource config x ≡ some e
        → BuiltFrom s e
    build_with-BuiltFrom s config none e l f h = cc
    build_with-BuiltFrom s config (some b) e l f h =
        let (transport, certificate, header, n, k, q) =
          builder_for_lem config (transport_of config.protocol) b f in
        let (exporter, d, r) = with_resource_lem config (build b) e h in
        record {
          config = config;
          configured = (load-IsConfig s config).0 l;
          transport = transport;
          named = (transport_of_iff config.protocol transport).0 n;
          certificate = certificate;
          header = header;
          secured = k;
          exporter = exporter;
          done = ap build (sym q) ∙ d;
          resource = r;
        }

    build_loaded-BuiltFrom :
        (s : Settings) (x : Option ExporterConfig) (e : E)
        → load s ≡ x
        → build_loaded read parse build set_resource x ≡ some e
        → BuiltFrom s e
    build_loaded-BuiltFrom s none e l h = cc
    build_loaded-BuiltFrom s (some config) e l h =
        build_with-BuiltFrom s config (builder_for read parse config (transport_of config.protocol))
          e l refl h

    -- There is an exporter exactly if the endpoint and the protocol are set to UTF-8, the protocol, in
    -- any case, is grpc, grpc-tonic, http, http/protobuf or http-binary, and, over gRPC, a configured
    -- certificate can be read and a configured authorization is a header's value, and if then the
    -- library builds it. It is built with the endpoint, the time limit and just these, over HTTP with
    -- the authorization alone, and carries the name of the service, or `postgresql` without one.
    pub build_exporter_iff :
        (s : Settings) (e : E)
        → (build_exporter read parse build set_resource s ≡ some e) ↔ BuiltFrom s e
    unfolding build_exporter
    build_exporter_iff s e = (
      build_loaded-BuiltFrom s (load s) e refl,
      λ b.
          rw
            (
              (load-IsConfig s b.config).1 b.configured,
              (transport_of_iff b.config.protocol b.transport).1 b.named,
              builder_for-built b.config b.transport b.certificate b.header b.secured,
              b.done,
              b.resource,
            )
            refl,
    )
