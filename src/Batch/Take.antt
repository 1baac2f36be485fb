-- ===== src/Batch/Take.antt =====
-- `take_batch` of otel/src/trace/batch_processor.rs, the inner loop of `export_available` that calls
-- it, and `discard_remaining`.
use otel_php_rust.Prelude.{ℕ, zero, suc, List, [], ◌∷◌, ◌++◌, if◌then◌else◌, is_empty}
use otel_php_rust.Batch.Config.{BatchProcessorConfig}
use otel_php_rust.Batch.Metrics.{fetch_sub, Shared}

module _ {ℓ} {A : Type ℓ} where
  -- The loop of `take_batch`, with the room left in the batch.
  unfoldable pub take_spans : ℕ → Shared A → List A → List A × Shared A
  take_spans zero s batch = (batch, s)
  take_spans (suc room) s batch = elim s.queue [
    | [] ↦ (batch, s)
    | span ∷ rest ↦
        take_spans room
          (record {
            queue = rest;
            metrics = record s.metrics { queue_depth = fetch_sub s.metrics.queue_depth 1 };
          })
          (batch ++ span ∷ [])
  ]

  unfoldable pub take_batch : BatchProcessorConfig → Shared A → List A × Shared A
  unfolding take_spans
  take_batch config s = take_spans config.max_export_batch_size s []

  -- The inner loop of `export_available`, with the room left for batches.
  unfoldable pub take_batches :
      BatchProcessorConfig → ℕ → Shared A → List (List A) → List (List A) × Shared A
  unfolding take_batch
  take_batches config zero s batches = (batches, s)
  take_batches config (suc room) s batches =
      let (batch, s') = take_batch config s in
      let more = take_batches config room s' (batches ++ batch ∷ []) in
      if is_empty batch then (batches, s') else more

  unfoldable pub discard_remaining : Shared A → Shared A
  discard_remaining s = record { queue = []; metrics = record s.metrics { queue_depth = 0 } }
