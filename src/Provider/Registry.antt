-- ===== src/Provider/Registry.antt =====
-- The providers of otel/src/trace/tracer_provider.rs: the key of a request, the entries of a process
-- and their shutdown. `digest` is the hash of names and values that the standard library computes.
use otel_php_rust.Prelude.{
  ℕ, Bool, ◌&&◌, Option, none, some, List, [], ◌∷◌, ◌==◌, if◌then◌else◌, get_or,
}
use otel_php_rust.Prelude.Bytes.{Bytes, codes, bytes_eq}
use otel_php_rust.Prelude.Maps.{Map, find, insert}
use otel_php_rust.Attributes.Config.{Locals}
use otel_php_rust.Transport.{EnvOf}
use otel_php_rust.Provider.{TracerProvider, noop, ProviderEntry, Outside, var_or, new_entry}

-- The variables that `compute_config_hash` reads.
abbrev pub hashed_names : List Bytes
hashed_names =
    codes "OTEL_SERVICE_NAME"
    ∷ codes "OTEL_RESOURCE_ATTRIBUTES"
    ∷ codes "OTEL_TRACES_EXPORTER"
    ∷ codes "OTEL_TRACES_SAMPLER"
    ∷ codes "OTEL_TRACES_SAMPLER_ARG"
    ∷ codes "OTEL_EXPORTER_OTLP_ENDPOINT"
    ∷ codes "OTEL_EXPORTER_OTLP_TRACES_ENDPOINT"
    ∷ codes "OTEL_EXPORTER_OTLP_PROTOCOL"
    ∷ codes "OTEL_EXPORTER_OTLP_TRACES_PROTOCOL"
    ∷ codes "OTEL_EXPORTER_OTLP_HEADERS"
    ∷ codes "OTEL_EXPORTER_OTLP_TRACES_HEADERS"
    ∷ codes "OTEL_EXPORTER_OTLP_COMPRESSION"
    ∷ codes "OTEL_EXPORTER_OTLP_TRACES_COMPRESSION"
    ∷ codes "OTEL_EXPORTER_OTLP_TIMEOUT"
    ∷ codes "OTEL_EXPORTER_OTLP_TRACES_TIMEOUT"
    ∷ codes "OTEL_EXPORTER_OTLP_CERTIFICATE"
    ∷ codes "OTEL_EXPORTER_OTLP_TRACES_CERTIFICATE"
    ∷ codes "OTEL_EXPORTER_OTLP_CLIENT_KEY"
    ∷ codes "OTEL_EXPORTER_OTLP_TRACES_CLIENT_KEY"
    ∷ codes "OTEL_EXPORTER_OTLP_CLIENT_CERTIFICATE"
    ∷ codes "OTEL_EXPORTER_OTLP_TRACES_CLIENT_CERTIFICATE"
    ∷ codes "OTEL_EXPORTER_OTLP_INSECURE"
    ∷ codes "OTEL_EXPORTER_OTLP_TRACES_INSECURE"
    ∷ codes "OTEL_SPAN_PROCESSOR"
    ∷ codes "OTEL_ATTRIBUTE_COUNT_LIMIT"
    ∷ codes "OTEL_ATTRIBUTE_VALUE_LENGTH_LIMIT"
    ∷ codes "OTEL_SPAN_ATTRIBUTE_COUNT_LIMIT"
    ∷ codes "OTEL_SPAN_ATTRIBUTE_VALUE_LENGTH_LIMIT"
    ∷ codes "OTEL_EVENT_ATTRIBUTE_COUNT_LIMIT"
    ∷ codes "OTEL_LINK_ATTRIBUTE_COUNT_LIMIT"
    ∷ codes "OTEL_SPAN_EVENT_COUNT_LIMIT"
    ∷ codes "OTEL_SPAN_LINK_COUNT_LIMIT"
    ∷ codes "OTEL_PHP_ATTRIBUTE_KEY_LENGTH_LIMIT"
    ∷ codes "OTEL_PHP_ATTRIBUTE_ARRAY_LENGTH_LIMIT"
    ∷ codes "OTEL_BSP_MAX_QUEUE_SIZE"
    ∷ codes "OTEL_BSP_MAX_EXPORT_BATCH_SIZE"
    ∷ codes "OTEL_BSP_SCHEDULE_DELAY"
    ∷ codes "OTEL_BSP_MAX_CONCURRENT_EXPORTS"
    ∷ codes "OTEL_PHP_SHUTDOWN_TIMEOUT"
    ∷ codes "OTEL_PHP_EXPORT_RETRY_MAX_ATTEMPTS"
    ∷ codes "OTEL_PHP_EXPORT_RETRY_MAX_ELAPSED"
    ∷ codes "OTEL_PHP_EXPORT_RETRY_INITIAL_BACKOFF"
    ∷ []

-- The hasher is fed each name and value, where an absent value is empty.
unfoldable pub hashed_values : List Bytes → EnvOf → List (Bytes × Bytes)
hashed_values [] env = []
hashed_values (name ∷ names) env = (name, var_or (env name) []) ∷ hashed_values names env

-- A process id and a configuration's hash.
abbrev pub ProviderKey : Type 0
ProviderKey = ℕ × Bytes

abbrev pub key_eq : ProviderKey → ProviderKey → Bool
key_eq (pid, hash) (pid', hash') = pid == pid' && bytes_eq hash hash'

-- `TRACER_PROVIDERS` and the thread's `REQUEST_CONFIG_HASH`.
pub record Providers {ℓ} (X : Type ℓ) : Type ℓ where
  pub tracer_providers : Map ProviderKey (ProviderEntry X)
  pub request_config_hash : Option Bytes

module _ {ℓ} {X : Type ℓ} where
  unfoldable pub remove_pid :
      ℕ → Map ProviderKey (ProviderEntry X) → Map ProviderKey (ProviderEntry X)
  remove_pid pid [] = []
  remove_pid pid (((k, hash), entry) ∷ rest) =
      let others = remove_pid pid rest in if k == pid then others else ((k, hash), entry) ∷ others

  -- `shutdown`, without the call of each removed provider's own shutdown.
  unfoldable pub shutdown_providers : ℕ → Providers X → Providers X
  shutdown_providers pid s = record s { tracer_providers = remove_pid pid s.tracer_providers }

module _ (digest : List (Bytes × Bytes) → Bytes) where
  unfoldable pub compute_config_hash : EnvOf → Bytes
  compute_config_hash env = digest (hashed_values hashed_names env)

  module _ {ℓ} {X : Type ℓ} where
    unfoldable pub begin_provider_request : EnvOf → Providers X → Providers X
    begin_provider_request env s = record s { request_config_hash = some (compute_config_hash env) }

    unfoldable pub end_provider_request : Providers X → Providers X
    end_provider_request s = record s { request_config_hash = none }

    unfoldable pub get_tracer_provider_key : ℕ → EnvOf → Providers X → ProviderKey
    get_tracer_provider_key pid env s =
        (pid, get_or s.request_config_hash (compute_config_hash env))

    module _ {U K : Type 0} (outside : Outside X U K) where
      unfoldable pub init_once : ℕ → EnvOf → Locals → Providers X → Providers X
      init_once pid env locals s =
          let key = get_tracer_provider_key pid env s in
          elim (find key_eq key s.tracer_providers) [
            | some _ ↦ s
            | none ↦ record s {
              tracer_providers =
                  insert key_eq key (new_entry outside env locals) s.tracer_providers;
            }
          ]

      -- The provider that was looked up, or the no-op one.
      abbrev pub provider_or_noop : Option (ProviderEntry X) → TracerProvider X
      provider_or_noop none = noop
      provider_or_noop (some entry) = entry.provider

      -- `disabled` is that of the module or of the request.
      unfoldable pub get_tracer_provider :
          Bool → ℕ → EnvOf → Locals → Providers X → TracerProvider X × Providers X
      get_tracer_provider disabled pid env locals s =
          let key = get_tracer_provider_key pid env s in
          let s' = init_once pid env locals s in
          if disabled then (noop, s) else elim (find key_eq key s.tracer_providers) [
            | some entry ↦ (entry.provider, s)
            | none ↦ (provider_or_noop (find key_eq key s'.tracer_providers), s')
          ]
