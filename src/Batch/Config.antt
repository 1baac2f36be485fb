-- ===== src/Batch/Config.antt =====
-- The configuration of the batch processor: `RetryPolicy::from_env`, `BatchProcessorConfig::from_env`
-- and the parsers of environment variables in otel/src/trace/batch_processor.rs. A `usize` has 64
-- bits, and a duration is a number of nanoseconds.
use Prim.Native.String.{String}
use otel_php_rust.Prelude.{
  ℕ, ◌+◌, ◌-◌, ◌*◌, ◌^◌, Bool, not, ◌&&◌, Option, none, some, List, [], ◌∷◌, leb, ltb, ◌==◌,
  if◌then◌else◌, is_empty,
}
use otel_php_rust.Prelude.Bytes.{Bytes, is_ascii_digit}
use otel_php_rust.Prelude.Results.{Result, ok, err, ◌>>=◌, ◌>>◌}

-- What `env::var` returns.
pub data EnvVar : Type 0 where
  present : Bytes → EnvVar
  not_present not_unicode : EnvVar

abbrev pub Env : Type 0
Env = String → EnvVar

-- The error texts: "{name} must be an integer between {min} and {max}", "{name} must be valid UTF-8",
-- and the one of the check of the batch size against the queue size.
pub data ConfigError : Type 0 where
  out_of_range : String → ℕ → ℕ → ConfigError
  not_utf8 : String → ConfigError
  batch_exceeds_queue : ConfigError

abbrev pub u64_mod : ℕ
u64_mod = 2 ^ 64

abbrev pub from_millis : ℕ → ℕ
from_millis ms = ms * 1_000_000

-- The digits of a number below `bound`, read from the left.
unfoldable pub parse_digits : ℕ → ℕ → Bytes → Option ℕ
parse_digits bound acc [] = some acc
parse_digits bound acc (c ∷ cs) =
    let acc' = acc * 10 + (c - b'0') in
    let rest = parse_digits bound acc' cs in
    if is_ascii_digit c && ltb acc' bound then rest else none

-- `str::parse` for an unsigned type of `bound` values: one `+` is allowed, and digits are wanted.
unfoldable pub parse_unsigned : ℕ → Bytes → Option ℕ
unfolding parse_digits
parse_unsigned bound [] = none
parse_unsigned bound (c ∷ cs) =
    if c == b'+'
    then (if is_empty cs then none else parse_digits bound 0 cs)
    else parse_digits bound 0 (c ∷ cs)

-- `.filter(|value| *value >= minimum && *value <= maximum).ok_or_else(...)`.
abbrev pub in_range : String → ℕ → ℕ → Option ℕ → Result ConfigError ℕ
in_range name minimum maximum none = err (out_of_range name minimum maximum)
in_range name minimum maximum (some value) =
    if leb minimum value && leb value maximum
    then ok value
    else err (out_of_range name minimum maximum)

abbrev pub parse_var : EnvVar → String → ℕ → ℕ → ℕ → Result ConfigError ℕ
parse_var (present value) name default minimum maximum =
    in_range name minimum maximum (parse_unsigned u64_mod value)
parse_var not_present name default minimum maximum = ok default
parse_var not_unicode name default minimum maximum = err (not_utf8 name)

unfoldable pub parse_u64_range : Env → String → ℕ → ℕ → ℕ → Result ConfigError ℕ
unfolding parse_unsigned
parse_u64_range env name default minimum maximum = parse_var (env name) name default minimum maximum

unfoldable pub parse_u64 : Env → String → ℕ → ℕ → Result ConfigError ℕ
unfolding parse_u64_range
parse_u64 env name default maximum = parse_u64_range env name default 1 maximum

unfoldable pub parse_usize : Env → String → ℕ → ℕ → Result ConfigError ℕ
unfolding parse_unsigned
parse_usize env name default maximum = parse_var (env name) name default 1 maximum

unfoldable pub parse_first_u64 : Env → List String → ℕ → ℕ → Result ConfigError ℕ
unfolding parse_unsigned
parse_first_u64 env [] default maximum = ok default
parse_first_u64 env (name ∷ names) default maximum =
    let rest = parse_first_u64 env names default maximum in
    elim (env name) [
      | present value ↦ in_range name 1 maximum (parse_unsigned u64_mod value)
      | not_present ↦ rest
      | not_unicode ↦ err (not_utf8 name)
    ]

pub record RetryPolicy : Type 0 where
  pub max_attempts : ℕ
  pub max_elapsed : ℕ
  pub initial_backoff : ℕ

unfoldable pub retries_enabled : RetryPolicy → Bool
retries_enabled policy = ltb 1 policy.max_attempts && not (policy.max_elapsed == 0)

unfoldable pub retry_from_env : Env → Result ConfigError RetryPolicy
unfolding parse_usize parse_u64_range parse_u64
retry_from_env env = do
  max_attempts ← parse_usize env "OTEL_PHP_EXPORT_RETRY_MAX_ATTEMPTS" 3 10
  max_elapsed_ms ← parse_u64_range env "OTEL_PHP_EXPORT_RETRY_MAX_ELAPSED" 5_000 0 30_000
  initial_backoff_ms ← parse_u64 env "OTEL_PHP_EXPORT_RETRY_INITIAL_BACKOFF" 100 5_000
  ok (record {
    max_attempts = max_attempts;
    max_elapsed = from_millis max_elapsed_ms;
    initial_backoff = from_millis initial_backoff_ms;
  })

pub record BatchProcessorConfig : Type 0 where
  pub max_queue_size : ℕ
  pub max_export_batch_size : ℕ
  pub max_concurrent_exports : ℕ
  pub scheduled_delay : ℕ
  pub export_timeout : ℕ
  pub shutdown_timeout : ℕ
  pub retry : RetryPolicy

-- `if max_export_batch_size > max_queue_size { return Err(...) }`.
abbrev pub check_batch : ℕ → ℕ → Result ConfigError (Unit {0})
check_batch batch queue = if ltb queue batch then err batch_exceeds_queue else ok tt

unfoldable pub from_env : Env → Result ConfigError BatchProcessorConfig
from_env env = do
  max_queue_size ← parse_usize env "OTEL_BSP_MAX_QUEUE_SIZE" 2_048 65_536
  max_export_batch_size ← parse_usize env "OTEL_BSP_MAX_EXPORT_BATCH_SIZE" 512 4_096
  check_batch max_export_batch_size max_queue_size
  max_concurrent_exports ← parse_usize env "OTEL_BSP_MAX_CONCURRENT_EXPORTS" 1 8
  scheduled_delay_ms ← parse_u64 env "OTEL_BSP_SCHEDULE_DELAY" 1_000 60_000
  export_timeout_ms ←
      parse_first_u64 env ("OTEL_EXPORTER_OTLP_TRACES_TIMEOUT" ∷ "OTEL_EXPORTER_OTLP_TIMEOUT" ∷ [])
        3_000 30_000
  shutdown_timeout_ms ← parse_u64 env "OTEL_PHP_SHUTDOWN_TIMEOUT" 500 2_000
  retry ← retry_from_env env
  ok (record {
    max_queue_size = max_queue_size;
    max_export_batch_size = max_export_batch_size;
    max_concurrent_exports = max_concurrent_exports;
    scheduled_delay = from_millis scheduled_delay_ms;
    export_timeout = from_millis export_timeout_ms;
    shutdown_timeout = from_millis shutdown_timeout_ms;
    retry = retry;
  })
