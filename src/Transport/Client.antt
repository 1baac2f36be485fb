-- ===== src/Transport/Client.antt =====
-- What otel/src/trace/otlp_transport.rs hands to the crates that build the client and the exporter:
-- `build_http_client`, `grpc_tls_config` and `grpc_metadata`. The crates are parameters, and may read
-- the environment.
use otel_php_rust.Prelude.{
  ℕ, Bool, true, false, Option, none, some, List, [], ◌∷◌, ◌++◌, ◌>>=◌, if◌then◌else◌, any,
}
use otel_php_rust.Prelude.Bytes.{Bytes, bytes_eq}
use otel_php_rust.Prelude.Maps.{Map, insert}
use otel_php_rust.Batch.Config.{not_present}
use otel_php_rust.Transport.{EnvOf}
use otel_php_rust.Transport.Masking.{masked_names}
use otel_php_rust.Transport.Settings.{
  ClientIdentity, TlsMaterial, TransportSettings, Compression, no_compression, gzip,
}

-- What the builder of reqwest is told. A bundle of roots takes the place of the built-in ones.
pub record ClientConfig : Type 0 where
  pub client_timeout : ℕ
  pub root_bundle : Option Bytes
  pub identity_pem : Option Bytes

pub record HttpTransport (K : Type 0) : Type 0 where
  pub client : K
  pub transport_headers : List (Bytes × Bytes)
  pub partial_success_logged : Bool

-- `ClientTlsConfig` of tonic; without a bundle it has the webpki roots.
pub record ClientTlsConfig : Type 0 where
  pub ca_certificate : Option Bytes
  pub identity : Option ClientIdentity

pub record HttpConfig (K : Type 0) : Type 0 where
  pub transport : HttpTransport K
  pub http_timeout : ℕ
  pub http_gzip : Bool

pub record GrpcConfig : Type 0 where
  pub grpc_endpoint : Bytes
  pub grpc_timeout : ℕ
  pub metadata : Map Bytes Bytes
  pub tls_config : Option ClientTlsConfig
  pub grpc_gzip : Bool

-- The crates reqwest, opentelemetry-otlp and tonic, and whether the runtime of tokio starts.
pub record ExporterCrates {ℓ} (X : Type ℓ) (K : Type 0) : Type ℓ where
  pub build_client : EnvOf → ClientConfig → Option K
  pub build_http : EnvOf → HttpConfig K → Option X
  pub build_grpc : EnvOf → GrpcConfig → Option X
  pub starts_runtime : Bool

abbrev pub is_gzip : Compression → Bool
is_gzip gzip = true
is_gzip no_compression = false

-- The certificate, a line's end, and the key.
unfoldable pub joined_pem : ClientIdentity → Bytes
joined_pem identity = identity.certificate_pem ++ b'\n' ∷ identity.key_pem

abbrev pub joined_identity : Option ClientIdentity → Option Bytes
joined_identity none = none
joined_identity (some identity) = some (joined_pem identity)

unfoldable pub client_config : Option TlsMaterial → ℕ → ClientConfig
client_config none timeout = record {
  client_timeout = timeout;
  root_bundle = none;
  identity_pem = none;
}
client_config (some tls) timeout = record {
  client_timeout = timeout;
  root_bundle = tls.ca_pem;
  identity_pem = joined_identity tls.client_identity;
}

unfoldable pub grpc_tls_config : TlsMaterial → ClientTlsConfig
grpc_tls_config tls = record { ca_certificate = tls.ca_pem; identity = tls.client_identity }

abbrev pub grpc_tls : Option TlsMaterial → Option ClientTlsConfig
grpc_tls none = none
grpc_tls (some tls) = some (grpc_tls_config tls)

unfoldable pub insert_headers : List (Bytes × Bytes) → Map Bytes Bytes → Map Bytes Bytes
insert_headers [] map = map
insert_headers ((name, value) ∷ rest) map = insert_headers rest (insert bytes_eq name value map)

unfoldable pub grpc_metadata : List (Bytes × Bytes) → Map Bytes Bytes
grpc_metadata headers = insert_headers headers []

-- The environment inside of `with_exporter_env_masked`.
abbrev pub masked_env : EnvOf → EnvOf
masked_env env name = if any (λ n. bytes_eq n name) masked_names then not_present else env name

module _ {ℓ} {X : Type ℓ} {K : Type 0} (crates : ExporterCrates X K) where
  unfoldable pub build_http_client : EnvOf → TransportSettings → ℕ → Option (HttpTransport K)
  build_http_client env settings timeout = do
    built ← crates.build_client env (client_config settings.tls timeout)
    some (record {
      client = built;
      transport_headers = settings.headers;
      partial_success_logged = false;
    })

  -- The two branches of `build_otlp_exporter`.
  unfoldable pub build_over_http : EnvOf → TransportSettings → ℕ → Option X
  build_over_http env settings timeout = do
    transport ← build_http_client env settings timeout
    crates.build_http (masked_env env) (record {
      transport = transport;
      http_timeout = timeout;
      http_gzip = is_gzip settings.compression;
    })

  unfoldable pub build_over_grpc : EnvOf → TransportSettings → ℕ → Option X
  build_over_grpc env settings timeout =
      if crates.starts_runtime
      then crates.build_grpc (masked_env env) (record {
        grpc_endpoint = settings.endpoint;
        grpc_timeout = timeout;
        metadata = grpc_metadata settings.headers;
        tls_config = grpc_tls settings.tls;
        grpc_gzip = is_gzip settings.compression;
      })
      else none
