-- ===== src/Provider/Hashed.antt =====
-- A new provider depends on no variable but those of the hash and those that the crates read.
use otel_php_rust.Prelude.{List, ◌≡◌, if◌then◌else◌, any, All}
use otel_php_rust.Prelude.Bytes.{Bytes, bytes_eq}
use otel_php_rust.Batch.Config.{not_present}
use otel_php_rust.Transport.{EnvOf}
use otel_php_rust.Transport.Client.{
  ExporterCrates, ClientConfig, HttpConfig, GrpcConfig, masked_env,
}
use otel_php_rust.Provider.{Outside}

-- The environment with no variable but the named ones.
abbrev pub restrict : List Bytes → EnvOf → EnvOf
restrict names env name = if any (bytes_eq name) names then env name else not_present

-- The crates read no variable but the named ones while they build a client or an exporter.
pub record ReadsOnly {ℓ} {X : Type ℓ} {K : Type 0} (names : List Bytes)
    (crates : ExporterCrates X K) : Type ℓ where
  pub client_reads :
      (env env' : EnvOf) (c : ClientConfig)
      → All (λ name. env name ≡ env' name) names
      → crates.build_client env c ≡ crates.build_client env' c
  pub http_reads :
      (env env' : EnvOf) (c : HttpConfig K)
      → All (λ name. env name ≡ env' name) names
      → crates.build_http env c ≡ crates.build_http env' c
  pub grpc_reads :
      (env env' : EnvOf) (c : GrpcConfig)
      → All (λ name. env name ≡ env' name) names
      → crates.build_grpc env c ≡ crates.build_grpc env' c

module _ {ℓ} {X : Type ℓ} {U K : Type 0} (outside : Outside X U K) where
  -- The crates in a fixed environment.
  abbrev fixed : EnvOf → Outside X U K
  fixed env = record outside {
    crates = record {
      build_client = λ _ c. outside.crates.build_client env c;
      build_http = λ _ c. outside.crates.build_http (masked_env env) c;
      build_grpc = λ _ c. outside.crates.build_grpc (masked_env env) c;
      starts_runtime = outside.crates.starts_runtime;
    };
  }
