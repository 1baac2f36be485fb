-- ===== src/Batch/Round.antt =====
-- `export_round` of otel/src/trace/batch_processor.rs: one set of batches, exported and re-exported
-- until each has succeeded, failed for good or run out of attempts or time.
use otel_php_rust.Prelude.{
  ℕ, zero, suc, ◌+◌, ◌-◌, ◌*◌, ◌/◌, min, Bool, true, false, ◌&&◌, Option, none, some, List, [], ◌∷◌,
  ◌++◌, map, ltb, ◌==◌, if◌then◌else◌, length, is_empty,
}
use otel_php_rust.Prelude.Bytes.{Bytes}
use otel_php_rust.Prelude.Results.{Result, ok, err}
use otel_php_rust.Batch.Classify.{
  OTelSdkError, ExportErrorKind, retryable, terminal, classify_export_error,
}
use otel_php_rust.Batch.Config.{RetryPolicy, retries_enabled}
use otel_php_rust.Batch.Metrics.{BatchMetricsInner, fetch_add}
use otel_php_rust.Batch.Attempt.{
  Attempt, World, span_count, jittered, wait_backoff, record_terminal_failure, backoff_cap,
  backoff_slice,
}

-- The variables of `export_round` that its inner loop changes.
pub record Tally {ℓ} (A : Type ℓ) : Type ℓ where
  pub counters : BatchMetricsInner
  pub first_error : Option Bytes
  pub retry : List (List A × Bytes)

-- `== ExportErrorKind::Retryable`.
abbrev pub is_retryable : ExportErrorKind → Bool
is_retryable retryable = true
is_retryable terminal = false

abbrev pub idle : BatchMetricsInner → BatchMetricsInner
idle m = record m { in_flight = 0 }

module _ {ℓ} {A : Type ℓ} (show : OTelSdkError → Bytes) where
  -- The body of the loop over the results.
  unfoldable pub account_result :
      Bool → ℕ → List A → Result OTelSdkError (Unit {0}) → Tally A → Tally A
  unfolding record_terminal_failure
  account_result may_retry attempt batch (ok _) t =
      let m = t.counters in
      let m' = record m { exported = fetch_add m.exported (length batch) } in
      record t {
        counters =
            if ltb 1 attempt
            then record m' { export_retry_recovered = fetch_add m'.export_retry_recovered 1 }
            else m';
      }
  account_result may_retry attempt batch (err error) t =
      let (m, first) =
        record_terminal_failure t.counters (length batch) (show error) t.first_error in
      if may_retry && is_retryable (classify_export_error error)
      then record t { retry = t.retry ++ (batch, show error) ∷ [] }
      else record t { counters = m; first_error = first }

  unfoldable pub account_results : Bool → ℕ → Attempt A → ℕ → List (List A) → Tally A → Tally A
  unfolding account_result
  account_results may_retry attempt a index [] t = t
  account_results may_retry attempt a index (batch ∷ rest) t =
      account_results may_retry attempt a (index + 1) rest
        (account_result may_retry attempt batch (a.exports index batch) t)

  -- `for (batch, error) in retry { record_terminal_failure(...) }`.
  unfoldable pub give_up :
      List (List A × Bytes) → BatchMetricsInner → Option Bytes → BatchMetricsInner × Option Bytes
  unfolding record_terminal_failure
  give_up [] m first_error = (m, first_error)
  give_up ((batch, error) ∷ rest) m first_error =
      let (m', first) = record_terminal_failure m (length batch) error first_error in
      give_up rest m' first

  -- `may_retry_again`.
  unfoldable pub may_retry_again : RetryPolicy → ℕ → Attempt A → Bool
  unfolding retries_enabled
  may_retry_again policy attempt a =
      retries_enabled policy
      && ltb attempt policy.max_attempts
      && ltb a.elapsed_before policy.max_elapsed

  -- The counters as an attempt starts.
  unfoldable pub start_attempt : ℕ → List (List A) → BatchMetricsInner → BatchMetricsInner
  start_attempt attempt pending m =
      let retried =
        if ltb 1 attempt then fetch_add m.export_retries (length pending) else m.export_retries in
      record m { export_retries = retried; in_flight = span_count pending }

  -- An attempt up to the end of the loop over its results.
  unfoldable pub run_attempt :
      RetryPolicy → ℕ → Attempt A → List (List A) → BatchMetricsInner → Option Bytes → Tally A
  unfolding may_retry_again start_attempt account_results
  run_attempt policy attempt a pending m first_error =
      account_results (may_retry_again policy attempt a) attempt a 0 pending (record {
        counters = start_attempt attempt pending m;
        first_error = first_error;
        retry = [];
      })

  -- The loop of `export_round`; `none` is a loop, or a wait in it, that does not end within the
  -- fuel. The error is the first terminal one.
  unfoldable pub round_loop :
      ℕ
      → RetryPolicy
      → World A
      → List (List A)
      → ℕ
      → ℕ
      → BatchMetricsInner
      → Option Bytes
      → Option (BatchMetricsInner × Option Bytes)
  round_loop zero policy w pending attempts backoff m first_error = none
  round_loop (suc fuel) policy w pending attempts backoff m first_error =
      let attempt = attempts + 1 in
      let a = w attempt in
      let t = run_attempt policy attempt a pending m first_error in
      let remaining = policy.max_elapsed - a.elapsed_after in
      let (given_up, last_error) = give_up t.retry t.counters t.first_error in
      let delay = min (min (jittered backoff a.random) backoff_cap) remaining in
      let again = map (λ r. r.0) t.retry in
      let waiting = record t.counters { in_flight = span_count again } in
      let next =
        round_loop fuel policy w again attempt (min (backoff * 2) backoff_cap) waiting
          t.first_error in
      if a.aborted
      then some (idle (start_attempt attempt pending m), first_error)
      else if is_empty t.retry
      then some (idle t.counters, t.first_error)
      else if remaining == 0
      then some (idle given_up, last_error)
      else elim (wait_backoff (delay / backoff_slice + 2) delay 0 (a.polls delay)) [
        | none ↦ none
        | some stops ↦ if stops then some (idle waiting, t.first_error) else next
      ]

  -- `export_round`, with fuel for every attempt that the policy allows.
  unfoldable pub export_round :
      RetryPolicy
      → World A
      → List (List A)
      → BatchMetricsInner
      → Option (BatchMetricsInner × Option Bytes)
  export_round policy w pending m =
      round_loop (policy.max_attempts + 1) policy w pending 0 policy.initial_backoff m none
