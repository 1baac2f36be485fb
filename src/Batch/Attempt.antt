-- ===== src/Batch/Attempt.antt =====
-- What an export attempt of otel/src/trace/batch_processor.rs reads from outside (the exporter, the
-- clock, the random number, the flags that another thread raises), the wait between attempts
-- (`wait_backoff`, `jittered`) and the record of a failure that is not retried.
use otel_php_rust.Prelude.{
  ℕ, zero, suc, ◌+◌, ◌-◌, ◌*◌, ◌/◌, ◌%◌, Bool, true, false, Option, none, some, List, map, ◌==◌,
  if◌then◌else◌, length, sum,
}
use otel_php_rust.Prelude.Bytes.{Bytes}
use otel_php_rust.Prelude.Results.{Result}
use otel_php_rust.Batch.Classify.{OTelSdkError}
use otel_php_rust.Batch.Config.{from_millis}
use otel_php_rust.Batch.Metrics.{BatchMetricsInner, fetch_add}

-- `RETRY_BACKOFF_CAP`.
abbrev pub backoff_cap : ℕ
backoff_cap = from_millis 5_000

-- `RETRY_BACKOFF_SLICE`.
abbrev pub backoff_slice : ℕ
backoff_slice = from_millis 10

-- What one round of the loop of `wait_backoff` reads: the flags, and the time since its start.
pub record Poll : Type 0 where
  pub abort : Bool
  pub flush : Bool
  pub now : ℕ

-- What one attempt of `export_round` reads. The exporter's answer depends on the batch and on its
-- place; `elapsed_before` and `elapsed_after` are the readings of `started.elapsed()` before the
-- export and after it; `polls` are those of the wait that follows, by its delay.
pub record Attempt {ℓ} (A : Type ℓ) : Type ℓ where
  pub exports : ℕ → List A → Result OTelSdkError (Unit {0})
  pub elapsed_before : ℕ
  pub aborted : Bool
  pub elapsed_after : ℕ
  pub random : ℕ
  pub polls : ℕ → ℕ → Poll

-- The attempts by their number, the first being 1.
abbrev pub World {ℓ} : Type ℓ → Type ℓ
World A = ℕ → Attempt A

abbrev pub span_count {ℓ} : {A : Type ℓ} → List (List A) → ℕ
span_count batches = sum (map length batches)

-- `jittered` with the random number that it draws.
unfoldable pub jittered : ℕ → ℕ → ℕ
jittered backoff random = backoff * (80 + random % 41) / 100

-- `wait_backoff`; `none` is a wait that does not end within the fuel.
unfoldable pub wait_backoff : ℕ → ℕ → ℕ → (ℕ → Poll) → Option Bool
wait_backoff zero delay k polls = none
wait_backoff (suc fuel) delay k polls =
    let rest = wait_backoff fuel delay (k + 1) polls in
    if (polls k).abort
    then some true
    else if (polls k).flush
    then some false
    else if delay - (polls k).now == 0
    then some false
    else rest

-- `record_terminal_failure`: the counters and `first_error`.
unfoldable pub record_terminal_failure :
    BatchMetricsInner → ℕ → Bytes → Option Bytes → BatchMetricsInner × Option Bytes
record_terminal_failure m batch_size error first_error = (
  record m {
    export_failures = fetch_add m.export_failures 1;
    dropped_export_failure = fetch_add m.dropped_export_failure batch_size;
    export_failure_log_emitted = true;
  },
  elim first_error [ none ↦ some error | some e ↦ some e ],
)
