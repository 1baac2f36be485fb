-- ===== src/Attributes/Config.antt =====
-- The attribute limits of otel/src/util.rs: `configured_limit`, `AttributeLimitConfig`, the cache of
-- the thread with the functions that fill and drop it, and `trace_span_limits`. The warning about an
-- invalid value is left out.
use Prim.Native.String.{String}
use otel_php_rust.Prelude.{
  ℕ, ◌%◌, ◌^◌, Option, none, some, List, [], ◌∷◌, leb, if◌then◌else◌, is_empty,
}
use otel_php_rust.Prelude.Bytes.{Bytes}
use otel_php_rust.Batch.Config.{
  EnvVar, present, not_present, not_unicode, Env, parse_unsigned, u64_mod,
}
use otel_php_rust.Batch.Classify.{trim_space}
use otel_php_rust.Attributes.{AttributeLimits, Str, usize_max}

pub data AttributeDestination : Type 0 where
  span event link log metric scope : AttributeDestination

pub record AttributeLimitConfig : Type 0 where
  pub span_limits : AttributeLimits
  pub event_limits : AttributeLimits
  pub link_limits : AttributeLimits
  pub log_limits : AttributeLimits
  pub metric_limits : AttributeLimits
  pub scope_limits : AttributeLimits
  pub max_events_per_span : ℕ
  pub max_links_per_span : ℕ

abbrev pub max_configured_limit : ℕ
max_configured_limit = 1_000_000

-- `str::trim_end`: white space starts at no byte inside of a char.
unfoldable pub trim_end_space : Bytes → Bytes
trim_end_space [] = []
trim_end_space (c ∷ cs) =
    let rest = trim_end_space cs in if is_empty (trim_space (c ∷ cs)) then [] else c ∷ rest

-- `str::trim`.
unfoldable pub trim : Bytes → Bytes
trim s = trim_end_space (trim_space s)

abbrev pub accepted_limit : Option ℕ → ℕ → ℕ
accepted_limit none fallback = fallback
accepted_limit (some value) fallback = if leb value max_configured_limit then value else fallback

unfoldable pub limit_of : EnvVar → ℕ → ℕ
limit_of (present value) fallback =
    if is_empty (trim value)
    then fallback
    else accepted_limit (parse_unsigned u64_mod (trim value)) fallback
limit_of not_present fallback = fallback
limit_of not_unicode fallback = fallback

unfoldable pub configured_limit : Env → String → ℕ → ℕ
configured_limit env name fallback = limit_of (env name) fallback

abbrev pub unlimited : AttributeLimits
unlimited = record {
  count = usize_max;
  key_length = usize_max;
  value_length = usize_max;
  array_length = usize_max;
}

-- The closure `limits`.
unfoldable pub limits_from : Env → ℕ → ℕ → ℕ → String → ℕ → AttributeLimits
limits_from env general_count key_length array_length count_name value_length = record {
  count = configured_limit env count_name general_count;
  key_length = key_length;
  value_length = value_length;
  array_length = array_length;
}

unfoldable pub limits_from_env : Env → AttributeLimitConfig
limits_from_env env =
    let general_count = configured_limit env "OTEL_ATTRIBUTE_COUNT_LIMIT" 128 in
    let general_value = configured_limit env "OTEL_ATTRIBUTE_VALUE_LENGTH_LIMIT" usize_max in
    let key_length = configured_limit env "OTEL_PHP_ATTRIBUTE_KEY_LENGTH_LIMIT" 256 in
    let array_length = configured_limit env "OTEL_PHP_ATTRIBUTE_ARRAY_LENGTH_LIMIT" 128 in
    let span_value = configured_limit env "OTEL_SPAN_ATTRIBUTE_VALUE_LENGTH_LIMIT" general_value in
    let log_value =
      configured_limit env "OTEL_LOGRECORD_ATTRIBUTE_VALUE_LENGTH_LIMIT" general_value in
    let limits = limits_from env general_count key_length array_length in
    record {
      span_limits = limits "OTEL_SPAN_ATTRIBUTE_COUNT_LIMIT" span_value;
      event_limits = limits "OTEL_EVENT_ATTRIBUTE_COUNT_LIMIT" span_value;
      link_limits = limits "OTEL_LINK_ATTRIBUTE_COUNT_LIMIT" span_value;
      log_limits = limits "OTEL_LOGRECORD_ATTRIBUTE_COUNT_LIMIT" log_value;
      metric_limits = unlimited;
      scope_limits = record {
        count = general_count;
        key_length = key_length;
        value_length = general_value;
        array_length = array_length;
      };
      max_events_per_span = configured_limit env "OTEL_SPAN_EVENT_COUNT_LIMIT" 128;
      max_links_per_span = configured_limit env "OTEL_SPAN_LINK_COUNT_LIMIT" 128;
    }

unfoldable pub for_destination : AttributeLimitConfig → AttributeDestination → AttributeLimits
for_destination config span = config.span_limits
for_destination config event = config.event_limits
for_destination config link = config.link_limits
for_destination config log = config.log_limits
for_destination config metric = config.metric_limits
for_destination config scope = config.scope_limits

-- The thread's state: the interned keys and the cached limits.
pub record Locals : Type 0 where
  pub attribute_keys : List Str
  pub attribute_limits_cache : Option AttributeLimitConfig

unfoldable pub attribute_limit_config : Env → Locals → AttributeLimitConfig × Locals
attribute_limit_config env locals = elim (locals.attribute_limits_cache) [
  | some config ↦ (config, locals)
  | none ↦
      let config = limits_from_env env in
      (config, record locals { attribute_limits_cache = some config })
]

unfoldable pub attribute_limits : Env → Locals → AttributeDestination → AttributeLimits × Locals
attribute_limits env locals destination =
    let (config, locals') = attribute_limit_config env locals in
    (for_destination config destination, locals')

unfoldable pub begin_request_attribute_limits : Env → Locals → Locals
begin_request_attribute_limits env locals = record locals {
  attribute_limits_cache = some (limits_from_env env);
}

unfoldable pub end_request_attribute_limits : Locals → Locals
end_request_attribute_limits locals = record locals { attribute_limits_cache = none }

pub record SpanLimits : Type 0 where
  pub events_per_span : ℕ
  pub attributes_per_span : ℕ
  pub links_per_span : ℕ
  pub attributes_per_event : ℕ
  pub attributes_per_link : ℕ

-- `value as u32`.
abbrev pub as_u32 : ℕ → ℕ
as_u32 value = value % 2 ^ 32

unfoldable pub trace_span_limits : Env → Locals → SpanLimits × Locals
trace_span_limits env locals =
    let (config, locals') = attribute_limit_config env locals in
    (
      record {
        events_per_span = as_u32 config.max_events_per_span;
        attributes_per_span = as_u32 config.span_limits.count;
        links_per_span = as_u32 config.max_links_per_span;
        attributes_per_event = as_u32 config.event_limits.count;
        attributes_per_link = as_u32 config.link_limits.count;
      },
      locals',
    )
