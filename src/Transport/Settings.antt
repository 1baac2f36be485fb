-- ===== src/Transport/Settings.antt =====
-- `TransportSettings::from_env` of otel/src/trace/otlp_transport.rs with the endpoint, the TLS
-- material and the compression.
use otel_php_rust.Prelude.{
  ℕ, Bool, true, false, not, ◌&&◌, ◌||◌, Option, none, some, List, [], ◌∷◌, ◌++◌, ◌==◌,
  if◌then◌else◌, is_empty, all, any, map,
}
use otel_php_rust.Prelude.Bytes.{Bytes, codes, bytes_eq, is_ascii_digit, trim_start, trim_end}
use otel_php_rust.Prelude.Results.{Result, ok, err, ◌>>=◌}
use otel_php_rust.Batch.Classify.{contains}
use otel_php_rust.SensitiveData.{eq_ignore_ascii_case, to_ascii_lowercase}
use otel_php_rust.Transport.{EnvOf, trace_or_generic}
use otel_php_rust.Transport.Headers.{HeaderCrate, resolve_headers}

pub data Protocol : Type 0 where
  grpc http_protobuf : Protocol

pub data Compression : Type 0 where
  no_compression gzip : Compression

pub data PemKind : Type 0 where
  certificate private_key : PemKind

pub record ClientIdentity : Type 0 where
  pub certificate_pem : Bytes
  pub key_pem : Bytes

pub record TlsMaterial : Type 0 where
  pub ca_pem : Option Bytes
  pub client_identity : Option ClientIdentity

-- The diagnostics of the code, with the texts that they quote.
pub data TransportError : Type 0 where
  invalid_endpoint : Bytes → TransportError
  invalid_default : TransportError
  cannot_read : Bytes → Bytes → TransportError
  no_pem : Bytes → Bytes → PemKind → TransportError
  client_key_required client_certificate_required : TransportError
  unsupported_compression : Bytes → Bytes → TransportError

-- What the program uses of the crate url.
pub record UrlCrate (U : Type 0) : Type 0 where
  pub parse : Bytes → Option U
  pub scheme : U → Bytes
  pub host_str : U → Option Bytes
  pub username : U → Bytes
  pub password : U → Option Bytes

-- The file system and the PEM readers of rustls.
pub record PemFiles : Type 0 where
  pub read : Bytes → Option Bytes
  pub has_certificates : Bytes → Bool
  pub has_private_key : Bytes → Bool

pub record Endpoint (U : Type 0) : Type 0 where
  pub raw : Bytes
  pub url : U

pub record TransportSettings : Type 0 where
  pub protocol : Protocol
  pub endpoint : Bytes
  pub tls : Option TlsMaterial
  pub headers : List (Bytes × Bytes)
  pub compression : Compression

abbrev pub is_some {ℓ} : {A : Type ℓ} → Option A → Bool
is_some none = false
is_some (some _) = true

abbrev pub is_grpc : Protocol → Bool
is_grpc grpc = true
is_grpc http_protobuf = false

abbrev pub default_endpoint : Protocol → Bytes
default_endpoint grpc = codes "http://localhost:4317"
default_endpoint http_protobuf = codes "http://localhost:4318"

-- `rsplit_once(sep)`.
unfoldable pub rsplit_once : ℕ → Bytes → Option (Bytes × Bytes)
rsplit_once sep [] = none
rsplit_once sep (c ∷ cs) = elim (rsplit_once sep cs) [
  | some (front, behind) ↦ some (c ∷ front, behind)
  | none ↦ if c == sep then some ([], cs) else none
]

unfoldable pub is_authority : Bytes → Bool
is_authority value = elim (rsplit_once b':' value) [
  | none ↦ false
  | some (named, port) ↦
      let host = trim_end (λ c. c == b']') (trim_start (λ c. c == b'[') named) in
      not (is_empty host)
      && not (any (λ c. c == b'/') host)
      && not (is_empty port)
      && all is_ascii_digit port
]

abbrev pub is_insecure : Option (Bytes × Bytes) → Bool
is_insecure none = false
is_insecure (some (_, value)) = eq_ignore_ascii_case value (codes "true")

-- The endpoint as it is parsed: a gRPC authority gets its scheme.
unfoldable pub endpoint_text : EnvOf → Protocol → Bytes → Bytes → Result TransportError Bytes
endpoint_text env protocol name configured =
    if is_grpc protocol && not (contains configured (codes "://"))
    then (if not (is_authority configured)
        then err (invalid_endpoint name)
        else ok (
            (if is_insecure (trace_or_generic env (codes "INSECURE"))
              then codes "http"
              else codes "https")
            ++ codes "://"
            ++ configured))
    else ok configured

unfoldable pub resolve_compression : EnvOf → Result TransportError Compression
resolve_compression env = elim (trace_or_generic env (codes "COMPRESSION")) [
  | none ↦ ok no_compression
  | some (name, value) ↦
      let lower = map to_ascii_lowercase value in
      if bytes_eq lower (codes "gzip")
      then ok gzip
      else if bytes_eq lower (codes "none")
      then ok no_compression
      else err (unsupported_compression lower name)
]

module _ (files : PemFiles) where
  abbrev pub is_pem : PemKind → Bytes → Bool
  is_pem certificate bytes = files.has_certificates bytes
  is_pem private_key bytes = files.has_private_key bytes

  unfoldable pub read_file : Bytes → Bytes → PemKind → Result TransportError (Option Bytes)
  read_file name path kind = elim (files.read path) [
    | none ↦ err (cannot_read name path)
    | some bytes ↦ if is_pem kind bytes then ok (some bytes) else err (no_pem name path kind)
  ]

  unfoldable pub read_pem : EnvOf → Bytes → PemKind → Result TransportError (Option Bytes)
  read_pem env suffix kind = elim (trace_or_generic env suffix) [
    | none ↦ ok none
    | some (name, path) ↦ read_file name path kind
  ]

  unfoldable pub identity_of :
      Option Bytes → Option Bytes → Result TransportError (Option ClientIdentity)
  identity_of (some cert) (some key) = ok (some (record { certificate_pem = cert; key_pem = key }))
  identity_of none none = ok none
  identity_of (some cert) none = err client_key_required
  identity_of none (some key) = err client_certificate_required

  -- What is read for an `https` endpoint.
  unfoldable pub tls_material : EnvOf → Result TransportError TlsMaterial
  tls_material env = do
    ca ← read_pem env (codes "CERTIFICATE") certificate
    cert ← read_pem env (codes "CLIENT_CERTIFICATE") certificate
    key ← read_pem env (codes "CLIENT_KEY") private_key
    identity ← identity_of cert key
    ok (record { ca_pem = ca; client_identity = identity })

  module _ {U : Type 0} (urls : UrlCrate U) where
    -- The guard on the parsed URL.
    unfoldable pub is_acceptable : U → Bool
    is_acceptable url =
        (bytes_eq (urls.scheme url) (codes "http") || bytes_eq (urls.scheme url) (codes "https"))
        && is_some (urls.host_str url)
        && is_empty (urls.username url)
        && not (is_some (urls.password url))

    unfoldable pub parse_endpoint : Bytes → Bytes → Result TransportError (Endpoint U)
    parse_endpoint name raw = elim (urls.parse raw) [
      | none ↦ err (invalid_endpoint name)
      | some url ↦
          if is_acceptable url
          then ok (record { raw = raw; url = url })
          else err (invalid_endpoint name)
    ]

    abbrev pub parse_default : Bytes → Result TransportError (Endpoint U)
    parse_default raw = elim (urls.parse raw) [
      | none ↦ err invalid_default
      | some url ↦ ok (record { raw = raw; url = url })
    ]

    unfoldable pub resolve_endpoint : EnvOf → Protocol → Result TransportError (Endpoint U)
    resolve_endpoint env protocol = elim (trace_or_generic env (codes "ENDPOINT")) [
      | none ↦ parse_default (default_endpoint protocol)
      | some (name, configured) ↦ do
        raw ← endpoint_text env protocol name configured
        parse_endpoint name raw
    ]

    unfoldable pub resolve_tls : EnvOf → Endpoint U → Result TransportError (Option TlsMaterial)
    resolve_tls env endpoint =
        if not (bytes_eq (urls.scheme endpoint.url) (codes "https"))
        then ok none
        else (do material ← tls_material env; ok (some material))

    unfoldable pub settings_from_env :
        HeaderCrate → EnvOf → Protocol → Result TransportError TransportSettings
    settings_from_env http env protocol = do
      endpoint ← resolve_endpoint env protocol
      tls ← resolve_tls env endpoint
      compression ← resolve_compression env
      ok (record {
        protocol = protocol;
        endpoint = endpoint.raw;
        tls = tls;
        headers = resolve_headers http env;
        compression = compression;
      })
