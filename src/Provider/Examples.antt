-- ===== src/Provider/Examples.antt =====
-- Tests of the choice of a provider, and the theorems at examples. The crates and files are those of
-- the transport's examples; a client is its proxy, an exporter its endpoint, and the digest joins names and values.
use otel_php_rust.Prelude.{
  Bool, true, false, none, some, List, [], ◌∷◌, ◌++◌, ◌≡◌, refl, if◌then◌else◌, ◌==◌,
}
use otel_php_rust.Prelude.Bytes.{Bytes, codes, bytes_eq}
use otel_php_rust.Prelude.Maps.{find}
use otel_php_rust.Batch.Config.{
  present, not_present, from_env, retry_from_env, parse_usize, parse_u64, parse_u64_range,
  parse_first_u64,
}
use otel_php_rust.Attributes.Config.{Locals, trace_span_limits}
use otel_php_rust.Transport.{EnvOf, trace_or_generic}
use otel_php_rust.Transport.Client.{build_over_grpc}
use otel_php_rust.Transport.Settings.{
  settings_from_env, resolve_endpoint, resolve_tls, tls_material, read_pem, resolve_compression,
  identity_of,
}
use otel_php_rust.Provider.{
  TracerProvider, noop, Outside, var_or, build_otlp_exporter, add_exporter, no_op_entry, new_entry,
  processing_of, network_processing, protocol_of,
}
use otel_php_rust.Provider.Registry.{
  hashed_names, hashed_values, Providers, key_eq, begin_provider_request, shutdown_providers,
  get_tracer_provider,
}
use otel_php_rust.Provider.Cached.{get_tracer_provider-again, find-shutdown_providers}

abbrev outside : Outside Bytes Bytes Bytes
outside = record {
  http = record {
    name_from_str = λ name. some name;
    value_from_bytes = λ value. true;
    is_visible = λ value. true;
  };
  urls = record {
    parse = λ raw. some raw;
    scheme = λ url. codes "http";
    host_str = λ url. some (codes "collector");
    username = λ url. [];
    password = λ url. none;
  };
  files = record {
    read = λ path. none;
    has_certificates = λ _. false;
    has_private_key = λ _. false;
  };
  crates = record {
    build_client = λ env c. some (var_or (env (codes "HTTPS_PROXY")) []);
    build_http = λ env c. some (var_or (env (codes "OTEL_EXPORTER_OTLP_ENDPOINT")) []);
    build_grpc = λ env c. some c.grpc_endpoint;
    starts_runtime = true;
  };
  starts_thread = true;
}

abbrev fresh : Locals
fresh = record { attribute_keys = []; attribute_limits_cache = none }

abbrev unset : EnvOf
unset name = not_present

-- The generic protocol is there, but empty.
abbrev empty_protocol : EnvOf
empty_protocol name =
    if bytes_eq name (codes "OTEL_EXPORTER_OTLP_PROTOCOL") then present [] else not_present

-- Both environments have the same hash, whatever the digest.
hashed_values-empty_protocol :
    hashed_values hashed_names empty_protocol ≡ hashed_values hashed_names unset
unfolding hashed_values
hashed_values-empty_protocol = refl

-- An empty protocol gives the no-op provider, an absent one the gRPC exporter.
new_entry-empty_protocol : new_entry outside empty_protocol fresh ≡ no_op_entry
unfolding new_entry trace_span_limits processing_of network_processing protocol_of from_env
    retry_from_env parse_usize parse_u64 parse_u64_range parse_first_u64
new_entry-empty_protocol = refl

abbrev is_noop : TracerProvider Bytes → Bool
is_noop noop = true
is_noop _ = false

new_entry-unset : is_noop (new_entry outside unset fresh).provider ≡ false
unfolding new_entry trace_span_limits processing_of network_processing protocol_of from_env
    retry_from_env parse_usize parse_u64 parse_u64_range parse_first_u64 add_exporter
    build_otlp_exporter build_over_grpc settings_from_env resolve_endpoint resolve_tls tls_material
    read_pem resolve_compression trace_or_generic identity_of
new_entry-unset = refl

-- What the crates of `outside` read.
abbrev read_names : List Bytes
read_names = codes "HTTPS_PROXY" ∷ codes "OTEL_EXPORTER_OTLP_ENDPOINT" ∷ []

-- A variable of the log records, which is not hashed.
abbrev log_limited : EnvOf
log_limited name =
    if bytes_eq name (codes "OTEL_LOGRECORD_ATTRIBUTE_COUNT_LIMIT")
    then present (codes "5")
    else not_present

abbrev join : List (Bytes × Bytes) → Bytes
join [] = []
join ((name, value) ∷ rest) = name ++ (value ++ join rest)

abbrev no_providers : Providers Bytes
no_providers = record { tracer_providers = []; request_config_hash = none }

get_tracer_provider-again_example :
    let (provider, s') =
      get_tracer_provider join outside false 7 unset fresh
        (begin_provider_request join unset no_providers) in
    get_tracer_provider join outside false 7 log_limited fresh s' ≡ (provider, s')
get_tracer_provider-again_example =
    get_tracer_provider-again join outside 7 unset unset log_limited fresh fresh no_providers

-- The providers of two processes.
abbrev two_providers : Providers Bytes
two_providers = record {
  tracer_providers = ((7, codes "a"), no_op_entry) ∷ ((8, codes "a"), no_op_entry) ∷ [];
  request_config_hash = none;
}

find-shutdown_providers_example :
    find key_eq (8, codes "a") (shutdown_providers 7 two_providers).tracer_providers
    ≡ (if 8 == 7 then none else find key_eq (8, codes "a") two_providers.tracer_providers)
find-shutdown_providers_example = find-shutdown_providers 7 8 (codes "a") two_providers
