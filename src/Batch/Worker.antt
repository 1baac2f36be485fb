-- ===== src/Batch/Worker.antt =====
-- `export_available` in otel/src/trace/batch_processor.rs.
use otel_php_rust.Prelude.{
  ℕ, zero, suc, ◌+◌, Bool, not, ◌&&◌, Option, none, some, [], ltb, if◌then◌else◌, is_empty,
}
use otel_php_rust.Prelude.Bytes.{Bytes}
use otel_php_rust.Prelude.Results.{Result, ok, err}
use otel_php_rust.Batch.Classify.{OTelSdkError, internal_failure}
use otel_php_rust.Batch.Config.{BatchProcessorConfig}
use otel_php_rust.Batch.Metrics.{BatchMetricsInner, Shared}
use otel_php_rust.Batch.Attempt.{World, span_count}
use otel_php_rust.Batch.Take.{take_batches}
use otel_php_rust.Batch.Round.{export_round}

-- What `export_available` reads from outside: the abort flag before each round of its loop, and what
-- the export of that round reads.
pub record Outside {ℓ} (A : Type ℓ) : Type ℓ where
  pub abort : ℕ → Bool
  pub world : ℕ → World A

-- `first_error.get_or_insert(error)`.
abbrev pub first_of : Option Bytes → Option Bytes → Option Bytes
first_of none e = e
first_of (some e) _ = some e

-- `first_error` as the result of `export_available`.
abbrev pub to_result : Option Bytes → Result OTelSdkError (Unit {0})
to_result none = ok tt
to_result (some error) = err (internal_failure error)

module _ {ℓ} {A : Type ℓ} (show : OTelSdkError → Bytes) where
  -- The loop of `export_available`; `none` is a loop that does not end within the fuel.
  unfoldable pub available_loop :
      ℕ
      → BatchProcessorConfig
      → Outside A
      → ℕ
      → ℕ
      → ℕ
      → Shared A
      → Option Bytes
      → Option (Shared A × Option Bytes)
  available_loop zero config o target processed round s first_error = none
  available_loop (suc fuel) config o target processed round s first_error =
      let (batches, s') = take_batches config config.max_concurrent_exports s [] in
      let exported = export_round show config.retry (o.world round) batches s'.metrics in
      let next = λ (r : BatchMetricsInner × Option Bytes).
        available_loop fuel config o target (processed + span_count batches) (round + 1)
          (record { queue = s'.queue; metrics = r.0 }) (first_of first_error r.1) in
      if not (ltb processed target && not (o.abort round))
      then some (s, first_error)
      else if is_empty batches
      then some (s', first_error)
      else elim exported [ none ↦ none | some r ↦ next r ]

  unfoldable pub export_available :
      BatchProcessorConfig
      → Outside A
      → Shared A
      → Option (Shared A × Result OTelSdkError (Unit {0}))
  export_available config o s =
      let target = s.metrics.queue_depth in
      elim (available_loop (target + 1) config o target 0 0 s none) [
        | none ↦ none
        | some (s', e) ↦ some (s', to_result e)
      ]
