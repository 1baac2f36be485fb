-- ===== src/Transport/Examples.antt =====
-- Tests of the exporter's settings, and the theorems at examples. The crates are stood in for by
-- simple functions.
use otel_php_rust.Prelude.{
  true, not, Option, none, some, List, [], ◌∷◌, ◌≡◌, refl, if◌then◌else◌, all,
}
use otel_php_rust.Prelude.Bytes.{
  Bytes, codes, bytes_eq, split, split_once, trim_start, trim_end, within,
}
use otel_php_rust.Prelude.Results.{ok}
use otel_php_rust.Prelude.Maps.{find, erase, insert}
use otel_php_rust.Request.Environment.{set_vars}
use otel_php_rust.Batch.Config.{present, not_present}
use otel_php_rust.Batch.Classify.{strip_prefix, find_behind, trim_space}
use otel_php_rust.SensitiveData.{eq_ignore_ascii_case}
use otel_php_rust.Attributes.Config.{trim, trim_end_space}
use otel_php_rust.Baggage.Parser.{hex_value}
use otel_php_rust.Request.Values.{Environ}
use otel_php_rust.Transport.{EnvOf, trace_or_generic}
use otel_php_rust.Transport.Headers.{
  HeaderCrate, from_hex, percent_decode, parse_header_value, parse_header_name, parse_header_entry,
  set_header, add_entries, resolve_headers,
}
use otel_php_rust.Transport.Settings.{
  grpc, gzip, TransportSettings, UrlCrate, PemFiles, rsplit_once, is_authority, endpoint_text,
  resolve_compression, read_file, read_pem, identity_of, tls_material, is_acceptable,
  parse_endpoint, resolve_endpoint, resolve_tls, settings_from_env,
}
use otel_php_rust.Transport.Sound.{IsSound, settings_from_env-IsSound}
use otel_php_rust.Transport.Repeated.{
  DistinctKeys, last_value, readable, resolve_headers-last_value,
}
use otel_php_rust.Transport.Masking.{
  masked_names, saved_vars, remove_vars, with_exporter_env_masked, is_named, masked,
  with_exporter_env_masked-environ,
}

-- A text is a URL if it starts with https.
abbrev urls : UrlCrate Bytes
urls = record {
  parse = λ raw. some raw;
  scheme = λ url. elim (strip_prefix (codes "https://") url) [
    | none ↦ codes "http"
    | some _ ↦ codes "https"
  ];
  host_str = λ url. some (codes "collector");
  username = λ url. [];
  password = λ url. none;
}

-- Every file holds its own name, and is PEM.
abbrev files : PemFiles
files = record {
  read = λ path. some path;
  has_certificates = λ _. true;
  has_private_key = λ _. true;
}

abbrev http : HeaderCrate
http = record {
  name_from_str = λ name. some name;
  value_from_bytes = λ value. all (λ c. not (bytes_eq (c ∷ []) (codes "\n"))) value;
  is_visible = λ value. all (within 32 126) value;
}

abbrev env_of : List (Bytes × Bytes) → EnvOf
env_of [] name = not_present
env_of ((k, v) ∷ rest) name = if bytes_eq k name then present v else env_of rest name

abbrev env : EnvOf
env = env_of (
    (codes "OTEL_EXPORTER_OTLP_ENDPOINT", codes " collector:4317 ")
    ∷ (codes "OTEL_EXPORTER_OTLP_CLIENT_KEY", codes "key.pem")
    ∷ (codes "OTEL_EXPORTER_OTLP_TRACES_CLIENT_CERTIFICATE", codes "cert.pem")
    ∷ (codes "OTEL_EXPORTER_OTLP_HEADERS", codes "a=1, bad ,b=%2Cx,a=2,c=%zz")
    ∷ (codes "OTEL_EXPORTER_OTLP_COMPRESSION", codes "GZIP")
    ∷ [])

abbrev settings : TransportSettings
settings = record {
  protocol = grpc;
  endpoint = codes "https://collector:4317";
  tls = some (record {
    ca_pem = none;
    client_identity =
        some (record { certificate_pem = codes "cert.pem"; key_pem = codes "key.pem" });
  });
  headers = (codes "a", codes "2") ∷ (codes "b", codes ",x") ∷ [];
  compression = gzip;
}

settings_from_env-settings : settings_from_env files urls http env grpc ≡ ok settings
unfolding settings_from_env resolve_endpoint trace_or_generic trim trim_end_space trim_space
    endpoint_text find_behind strip_prefix is_authority rsplit_once trim_start trim_end
    eq_ignore_ascii_case parse_endpoint is_acceptable resolve_tls tls_material read_pem read_file
    identity_of resolve_compression resolve_headers add_entries set_header parse_header_entry
    parse_header_name parse_header_value percent_decode from_hex hex_value split split_once
settings_from_env-settings = refl

settings_from_env-IsSound_example : IsSound files env urls settings
settings_from_env-IsSound_example =
    settings_from_env-IsSound files env urls http grpc settings settings_from_env-settings

-- A plus sign passes for a hexadecimal digit.
percent_decode-plus : percent_decode (codes "%+9") ≡ some (9 ∷ [])
unfolding percent_decode from_hex hex_value
percent_decode-plus = refl

trace_or_generic-headers :
    trace_or_generic env (codes "HEADERS")
    ≡ some (codes "OTEL_EXPORTER_OTLP_HEADERS", codes "a=1, bad ,b=%2Cx,a=2,c=%zz")
unfolding trace_or_generic trim trim_end_space trim_space
trace_or_generic-headers = refl

resolve_headers-last_value_example :
    DistinctKeys (resolve_headers http env)
    × ((key : Bytes)
        → find bytes_eq key (resolve_headers http env)
          ≡ last_value key (readable http (split b',' (codes "a=1, bad ,b=%2Cx,a=2,c=%zz"))))
resolve_headers-last_value_example =
    resolve_headers-last_value http env (codes "OTEL_EXPORTER_OTLP_HEADERS")
      (codes "a=1, bad ,b=%2Cx,a=2,c=%zz") trace_or_generic-headers

abbrev environ : Environ
environ = (codes "OTEL_EXPORTER_OTLP_HEADERS", codes "a=1") ∷ (codes "PATH", codes "/bin") ∷ []

-- A builder that reads one variable.
abbrev build : Environ → Option Bytes × Environ
build e = (find bytes_eq (codes "OTEL_EXPORTER_OTLP_HEADERS") e, e)

with_exporter_env_masked-environ_example :
    let (built, after) = with_exporter_env_masked build environ in
    (built ≡ (build (masked build environ)).0)
    × ((name : Bytes)
        → find bytes_eq name (masked build environ)
          ≡ (if is_named masked_names name then none else find bytes_eq name environ))
    × ((name : Bytes) → find bytes_eq name after ≡ find bytes_eq name environ)
with_exporter_env_masked-environ_example =
    with_exporter_env_masked-environ build environ (λ e name. refl)

with_exporter_env_masked-build : with_exporter_env_masked build environ ≡ (none, environ)
unfolding with_exporter_env_masked saved_vars remove_vars find erase set_vars insert
with_exporter_env_masked-build = refl
