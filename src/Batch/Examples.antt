-- ===== src/Batch/Examples.antt =====
-- Tests of the batch processor on concrete states, and its theorems at such states.
use otel_php_rust.Prelude.{
  min, ◌-◌, ℕ, ◌+◌, ◌*◌, ◌/◌, ◌%◌, ◌≤◌, ◌≡◌, ◌⊎◌, refl, true, false, Option, some, List, [], ◌∷◌,
  arith, length, ◌==◌, if◌then◌else◌,
}
use otel_php_rust.Prelude.Bytes.{Bytes, codes}
use otel_php_rust.Prelude.Results.{Result, ok, err}
use otel_php_rust.Batch.Config.{
  present, not_present, Env, from_millis, parse_u64_range, parse_u64, parse_usize, parse_first_u64,
  retry_from_env, BatchProcessorConfig, from_env,
}
use otel_php_rust.Batch.Bounds.{InRange, from_env-InRange}
use otel_php_rust.Batch.Classify.{
  OTelSdkError, already_shutdown, timeout, internal_failure, retryable, terminal,
  classify_export_error, is_retryable_code, is_unknown_code, is_transport_failure, grpc_message,
}
use otel_php_rust.Batch.GrpcStatus.{classify_export_error-grpc}
use otel_php_rust.Batch.Metrics.{BatchMetricsInner, usize_mod, fetch_add, fresh_metrics, Shared}
use otel_php_rust.Batch.Processor.{
  Processor, new, set_metrics, on_end, shutdown_send, shutdown_abort, shutdown_count,
}
use otel_php_rust.Batch.Attempt.{Poll, Attempt, span_count, backoff_slice, wait_backoff}
use otel_php_rust.Batch.Round.{start_attempt, export_round}
use otel_php_rust.Batch.Tallying.{Counted}
use otel_php_rust.Batch.Settling.{IsCalm, Elapses, Settles, export_round-Settles}
use otel_php_rust.Batch.Worker.{Outside, export_available}
use otel_php_rust.Batch.Drained.{KeepsRequests, Drains}
use otel_php_rust.Batch.Draining.{IsCalmOutside, export_available-Drains, export_available-empties}
use otel_php_rust.Batch.Accounting.{IsAccounted}
use otel_php_rust.Batch.Steps.{ends, shuts_down, Reachable, created, step, Reachable-IsAccounted}
use otel_php_rust.Batch.Waiting.{Ends, Sleeps, wait_backoff-Ends}
use otel_php_rust.Batch.Shutdown.{stay, shutdown_count-race, shutdown_send-final}

abbrev unset : Env
unset name = not_present

abbrev ten : ℕ
ten = 10

abbrev queue_of_ten : Env
queue_of_ten name = present (codes "10")

abbrev default_config : BatchProcessorConfig
default_config = record {
  max_queue_size = 2_048;
  max_export_batch_size = 512;
  max_concurrent_exports = 1;
  scheduled_delay = from_millis 1_000;
  export_timeout = from_millis 3_000;
  shutdown_timeout = from_millis 500;
  retry = record {
    max_attempts = 3;
    max_elapsed = from_millis 5_000;
    initial_backoff = from_millis 100;
  };
}

-- Every variable unset gives the defaults.
from_env-unset : from_env unset ≡ ok default_config
unfolding from_env parse_usize parse_u64 parse_u64_range parse_first_u64 retry_from_env
from_env-unset = refl

from_env-InRange_example : InRange default_config
from_env-InRange_example = from_env-InRange unset default_config from_env-unset

classify_export_error-grpc_example :
    classify_export_error (
      internal_failure
        (grpc_message (codes "The service is currently unavailable") (codes ", detail")))
    ≡ (if is_retryable_code (codes "The service is currently unavailable")
        then retryable
        else if is_unknown_code (codes "The service is currently unavailable")
        then (if is_transport_failure
              (grpc_message (codes "The service is currently unavailable") (codes ", detail"))
            then retryable
            else terminal)
        else terminal)
classify_export_error-grpc_example =
    classify_export_error-grpc b'T' (codes "he service is currently unavailable") (codes ", detail")
      refl

abbrev show_error : OTelSdkError → Bytes
show_error already_shutdown = codes "AlreadyShutdown"
show_error (timeout limit) = codes "Timeout"
show_error (internal_failure message) = message

-- The exporter accepts the first batch and refuses the others for good.
abbrev answer : ℕ → List ℕ → Result OTelSdkError (Unit {0})
answer index batch = if index == 0 then ok tt else err (internal_failure (codes "refused"))

abbrev poll_at : ℕ → Poll
poll_at k = record { abort = false; flush = false; now = k * backoff_slice }

-- The first round of a wait reads its start, every other one the end of the delay.
abbrev wait_time : ℕ → ℕ → ℕ
wait_time delay k = if k == 0 then 0 else delay

abbrev waiting_polls : ℕ → ℕ → Poll
waiting_polls delay k = record { abort = false; flush = false; now = wait_time delay k }

wait_time-step :
    (delay k : ℕ) → wait_time delay k + min (delay - wait_time delay k) backoff_slice ≤ delay
wait_time-step delay k = ground arith

wait_time-later : (delay k : ℕ) → wait_time delay (k + 1) ≡ delay
wait_time-later delay k = ground arith

waiting_polls-Sleeps : (delay : ℕ) → Sleeps delay (waiting_polls delay)
waiting_polls-Sleeps delay = record {
  sleep = λ k. rw (wait_time-later delay k) (wait_time-step delay k);
}

abbrev calm_attempt : Attempt ℕ
calm_attempt = record {
  exports = answer;
  elapsed_before = 0;
  aborted = false;
  elapsed_after = 1;
  random = 7;
  polls = waiting_polls;
}

abbrev aborted_attempt : Attempt ℕ
aborted_attempt = record calm_attempt { aborted = true }

abbrev calm_outside : Outside ℕ
calm_outside = record { abort = λ n. false; world = λ n k. calm_attempt }

abbrev three_spans : Shared ℕ
three_spans = record {
  queue = 1 ∷ 2 ∷ 3 ∷ [];
  metrics = record fresh_metrics { sampled_ended = 3; queued = 3; queue_depth = 3 };
}

quiet_world-IsCalm : IsCalm {A = ℕ} (λ n. calm_attempt)
quiet_world-IsCalm = record { runs = λ n. refl; waits = λ n delay k. refl }

quiet_world-Elapses : Elapses {A = ℕ} (λ n. calm_attempt)
quiet_world-Elapses = record { sleeps = λ n delay. waiting_polls-Sleeps delay }

calm_outside-IsCalmOutside : IsCalmOutside calm_outside
calm_outside-IsCalmOutside = record { loops = λ n. refl; rounds = λ n. quiet_world-IsCalm }

export_round-Settles_example :
    (r : BatchMetricsInner × Option Bytes) × (export_round show_error default_config.retry
        (λ n. calm_attempt)
        ((1 ∷ 2 ∷ []) ∷ (3 ∷ []) ∷ [])
        fresh_metrics
      ≡ some r)
    × Settles fresh_metrics r.0 (span_count ((ten ∷ 2 ∷ []) ∷ (3 ∷ []) ∷ []))
export_round-Settles_example =
    export_round-Settles show_error default_config.retry (λ n. calm_attempt)
      ((1 ∷ 2 ∷ []) ∷ (3 ∷ []) ∷ []) fresh_metrics quiet_world-IsCalm quiet_world-Elapses

export_available-Drains_example :
    (taken : List ℕ) × (r : Shared ℕ × Result OTelSdkError (Unit {0})) × (export_available
        show_error default_config calm_outside three_spans
      ≡ some r)
    × Drains three_spans taken r.0
    × ((3 ≤ length taken) ⊎ (r.0.queue ≡ []))
export_available-Drains_example =
    export_available-Drains show_error default_config calm_outside three_spans
      calm_outside-IsCalmOutside (λ n. quiet_world-Elapses) (omega arith) (omega arith)

export_available-empties_example :
    (r : Shared ℕ × Result OTelSdkError (Unit {0})) × (export_available show_error default_config
        calm_outside three_spans
      ≡ some r)
    × (r.0.queue ≡ [])
    × Counted three_spans.metrics r.0.metrics (length three_spans.queue)
    × (r.0.metrics.queue_depth ≡ 0)
    × KeepsRequests three_spans.metrics r.0.metrics
export_available-empties_example =
    export_available-empties show_error default_config calm_outside three_spans
      calm_outside-IsCalmOutside (λ n. quiet_world-Elapses) (omega arith) (omega arith) refl
      (omega arith)

abbrev fresh : Processor ℕ ℕ
fresh = new default_config

abbrev after_two : Processor ℕ ℕ
after_two = (shutdown_send (on_end (on_end fresh 1) 2)).0

after_two-Reachable : Reachable show_error default_config after_two
after_two-Reachable = step (step (step created (ends 1)) (ends 2)) shuts_down

Reachable-IsAccounted_example : IsAccounted after_two.config after_two.shared
Reachable-IsAccounted_example =
    Reachable-IsAccounted show_error (from_env-InRange unset default_config from_env-unset)
      after_two-Reachable

poll_at-Sleeps : Sleeps (from_millis 25) poll_at
poll_at-Sleeps = record { sleep = λ k. omega arith }

wait_backoff-Ends_example :
    (j : ℕ) × (wait_backoff (from_millis 25 / backoff_slice + 2) (from_millis 25) 0 poll_at
      ≡ some (poll_at j).abort)
    × Ends (from_millis 25) poll_at j
wait_backoff-Ends_example = wait_backoff-Ends (from_millis 25) poll_at poll_at-Sleeps

abbrev one_batch : List (List ℕ)
one_batch = (1 ∷ 2 ∷ []) ∷ []

shutdown_count-race_example :
    let started = set_metrics fresh (start_attempt show_error 1 one_batch fresh.metrics) in
    let read_first = shutdown_count (shutdown_abort started) in
    (r : BatchMetricsInner × Option Bytes) × (export_round show_error default_config.retry
        (λ n. aborted_attempt)
        one_batch
        fresh.metrics
      ≡ some r)
    × (let read_last = shutdown_count (set_metrics (shutdown_abort started) r.0) in
        ((read_last.metrics.dropped_shutdown + span_count one_batch) % usize_mod
          ≡ read_first.metrics.dropped_shutdown % usize_mod)
        × (r.0.exported ≡ fresh.metrics.exported)
        × (r.0.dropped_export_failure ≡ fresh.metrics.dropped_export_failure))
shutdown_count-race_example =
    shutdown_count-race show_error fresh default_config.retry (λ n. aborted_attempt) one_batch refl

shutdown_send-final_example :
    (shutdown_send after_two ≡ (after_two, err already_shutdown))
    × ((on_end after_two 3).queue ≡ after_two.queue)
    × ((on_end after_two 3).metrics.dropped_shutdown
        ≡ fetch_add after_two.metrics.dropped_shutdown 1)
shutdown_send-final_example = shutdown_send-final show_error (on_end (on_end fresh 1) 2) 3 stay
