-- ===== src/Provider.antt =====
-- otel/src/trace/tracer_provider.rs: the choice of a tracer provider from the environment, and the
-- providers of a process by process id and configuration. What the SDK and the system do is a
-- parameter: what the crates build, with the environment that they may read, and whether a thread
-- can be started.
pub mod Registry
pub mod Hashed
pub mod Cached
mod Examples
use otel_php_rust.Prelude.{
  ℕ, Bool, true, false, ◌&&◌, ◌||◌, Option, none, some, [], ◌>>=◌, if◌then◌else◌, map,
}
use otel_php_rust.Prelude.Bytes.{Bytes, codes, bytes_eq}
use otel_php_rust.Prelude.Results.{Result, ok, err}
use otel_php_rust.Batch.Config.{
  EnvVar, present, not_present, not_unicode, Env, BatchProcessorConfig, ConfigError, from_env,
}
use otel_php_rust.SensitiveData.{to_ascii_lowercase}
use otel_php_rust.Attributes.Config.{Locals, SpanLimits, trace_span_limits}
use otel_php_rust.Transport.{EnvOf}
use otel_php_rust.Transport.Client.{ExporterCrates, build_over_http, build_over_grpc}
use otel_php_rust.Transport.Headers.{HeaderCrate}
use otel_php_rust.Transport.Settings.{
  Protocol, grpc, http_protobuf, UrlCrate, PemFiles, TransportSettings, settings_from_env,
}

pub data Exporter {ℓ} (X : Type ℓ) : Type ℓ where
  console_exporter memory_exporter : Exporter X
  otlp_exporter : X → Exporter X

pub data Processing {ℓ} (X : Type ℓ) : Type ℓ where
  simple : Exporter X → Processing X
  bounded : Exporter X → BatchProcessorConfig → Processing X

-- The shared no-op provider, one that never samples, and one that exports.
pub data TracerProvider {ℓ} (X : Type ℓ) : Type ℓ where
  noop : TracerProvider X
  always_off : SpanLimits → TracerProvider X
  exporting : SpanLimits → Processing X → TracerProvider X

pub record ProviderEntry {ℓ} (X : Type ℓ) : Type ℓ where
  pub provider : TracerProvider X
  pub entry_shutdown_timeout : ℕ

-- The crates, the files and the system.
pub record Outside {ℓ} (X : Type ℓ) (U K : Type 0) : Type ℓ where
  pub http : HeaderCrate
  pub urls : UrlCrate U
  pub files : PemFiles
  pub crates : ExporterCrates X K
  pub starts_thread : Bool

-- `env::var(name).unwrap_or_else(|_| default)`.
abbrev pub var_or : EnvVar → Bytes → Bytes
var_or (present value) default = value
var_or not_present default = default
var_or not_unicode default = default

abbrev pub by_name : EnvOf → Env
by_name env name = env (codes name)

abbrev pub is_simple : EnvVar → Bool
is_simple v = bytes_eq (var_or v []) (codes "simple")

module _ {ℓ} {X : Type ℓ} where
  abbrev pub no_op_entry : ProviderEntry X
  no_op_entry = record { provider = noop; entry_shutdown_timeout = 0 }

  module _ {U K : Type 0} (outside : Outside X U K) where
    unfoldable pub build_otlp_exporter : EnvOf → TransportSettings → ℕ → Option X
    build_otlp_exporter env settings timeout = elim (settings.protocol) [
      | http_protobuf ↦ build_over_http outside.crates env settings timeout
      | grpc ↦ build_over_grpc outside.crates env settings timeout
    ]

    -- `none` is the error, which the code logs.
    unfoldable pub add_exporter :
        Exporter X → Bool → Option BatchProcessorConfig → Option (Processing X)
    add_exporter exporter use_simple_exporter batch_config =
        if use_simple_exporter then some (simple exporter) else (do
          config ← batch_config
          if outside.starts_thread then some (bounded exporter config) else none)

    unfoldable pub protocol_of : EnvOf → Option Protocol
    protocol_of env =
        let generic = var_or (env (codes "OTEL_EXPORTER_OTLP_PROTOCOL")) (codes "grpc") in
        let chosen =
          map to_ascii_lowercase
            (var_or (env (codes "OTEL_EXPORTER_OTLP_TRACES_PROTOCOL")) generic) in
        if bytes_eq chosen (codes "grpc")
        then some grpc
        else if bytes_eq chosen (codes "http/protobuf")
        then some http_protobuf
        else none

    abbrev pub ok_or_none {κ} : {E : Type 0} {A : Type κ} → Result E A → Option A
    ok_or_none (ok a) = some a
    ok_or_none (err e) = none

    -- The branch of the network exporters.
    unfoldable pub network_processing : EnvOf → Option BatchProcessorConfig → Option (Processing X)
    network_processing env batch_config = do
      config ← batch_config
      protocol ← protocol_of env
      settings ← ok_or_none (settings_from_env outside.files outside.urls outside.http env protocol)
      exporter ← build_otlp_exporter env settings config.export_timeout
      add_exporter (otlp_exporter exporter) false batch_config

    unfoldable pub processing_of :
        EnvOf → Bytes → Bool → Option BatchProcessorConfig → Option (Processing X)
    processing_of env exporter_name use_simple_exporter batch_config =
        if bytes_eq exporter_name (codes "console")
        then add_exporter console_exporter use_simple_exporter batch_config
        else if bytes_eq exporter_name (codes "memory")
        then add_exporter memory_exporter use_simple_exporter batch_config
        else network_processing env batch_config

    abbrev pub entry_of :
        SpanLimits → Option BatchProcessorConfig → Option (Processing X) → ProviderEntry X
    entry_of limits batch_config none = no_op_entry
    entry_of limits none (some processing) = record {
      provider = exporting limits processing;
      entry_shutdown_timeout = 0;
    }
    entry_of limits (some config) (some processing) = record {
      provider = exporting limits processing;
      entry_shutdown_timeout = config.shutdown_timeout;
    }

    -- The entry for a batch configuration that was read; an error gives the no-op provider.
    abbrev pub batch_entry :
        SpanLimits → EnvOf → Bytes → Result ConfigError BatchProcessorConfig → ProviderEntry X
    batch_entry limits env exporter_name (err _) = no_op_entry
    batch_entry limits env exporter_name (ok config) =
        entry_of limits (some config) (processing_of env exporter_name false (some config))

    -- What `init_once` inserts for a key that has no provider.
    unfoldable pub new_entry : EnvOf → Locals → ProviderEntry X
    new_entry env locals =
        let exporter_name = var_or (env (codes "OTEL_TRACES_EXPORTER")) (codes "otlp") in
        let limits = (trace_span_limits (by_name env) locals).0 in
        let use_simple_exporter =
          is_simple (env (codes "OTEL_SPAN_PROCESSOR"))
          && (bytes_eq exporter_name (codes "memory")
              || bytes_eq exporter_name (codes "console")) in
        if bytes_eq exporter_name (codes "none")
        then record { provider = always_off limits; entry_shutdown_timeout = 0 }
        else if use_simple_exporter
        then entry_of limits none (processing_of env exporter_name true none)
        else batch_entry limits env exporter_name (from_env (by_name env))
