-- ===== src/Batch/Accounting.antt =====
-- The accounts of the batch processor, which relate its counters to the span channel, and `on_end`.
use otel_php_rust.Prelude.{
  ℕ, ◌+◌, ◌%◌, ◌≤◌, ◌<◌, ◌≡◌, refl, [], ◌∷◌, ◌++◌, min, arith, leb, length, Bool-cases, if-either,
  inl, inr, length-append,
}
use otel_php_rust.Batch.Config.{BatchProcessorConfig}
use otel_php_rust.Batch.Bounds.{InRange}
use otel_php_rust.Batch.Metrics.{usize_mod, fetch_add, update_high_watermark, Shared}
use otel_php_rust.Batch.Processor.{
  Processor, Sent, sent, full, disconnected, try_send, set_metrics, notify_export, send_span,
  on_end,
}

module _ {ℓ} {A : Type ℓ} where
  pub record IsAccounted (config : BatchProcessorConfig) (s : Shared A) : Type 0 where
    pub in_range : InRange config
    -- Every ended span was queued or dropped at the door.
    pub entered :
        s.metrics.sampled_ended % usize_mod
        ≡ (s.metrics.queued + s.metrics.dropped_queue_full + s.metrics.dropped_shutdown) % usize_mod
    -- Every queued span waits, was exported, or was dropped for an export failure.
    pub settled :
        s.metrics.queued % usize_mod
        ≡ (length s.queue + s.metrics.exported + s.metrics.dropped_export_failure) % usize_mod
    pub depth : s.metrics.queue_depth ≡ length s.queue
    pub bounded : length s.queue ≤ config.max_queue_size
    pub watermark : s.metrics.queue_high_watermark ≤ config.max_queue_size

module _ {ℓ κ} {A : Type ℓ} {R : Type κ} where
  abbrev pub Accounted : Processor A R → Type 0
  Accounted p = IsAccounted p.config p.shared

  notify_export-shared : (p : Processor A R) → (notify_export p).shared ≡ p.shared
  unfolding notify_export
  notify_export-shared p = ground arith

  notify_export-config : (p : Processor A R) → (notify_export p).config ≡ p.config
  unfolding notify_export
  notify_export-config p = ground arith

  -- A span counted as ended, with its place in the queue counted, and not yet sent.
  record IsEntering (p : Processor A R) (depth : ℕ) : Type 0 where
    in_range : InRange p.config
    entered :
        p.metrics.sampled_ended % usize_mod
        ≡ (p.metrics.queued + p.metrics.dropped_queue_full + p.metrics.dropped_shutdown + 1)
          % usize_mod
    settled :
        p.metrics.queued % usize_mod
        ≡ (length p.queue + p.metrics.exported + p.metrics.dropped_export_failure) % usize_mod
    depth_is : depth ≡ length p.queue + 1
    depth_stored : p.metrics.queue_depth ≡ depth
    bounded : length p.queue ≤ p.config.max_queue_size
    watermark : p.metrics.queue_high_watermark ≤ p.config.max_queue_size

  send_span-sent :
      (p : Processor A R) (span : A) (depth : ℕ)
      → IsEntering p depth
      → length p.queue < p.config.max_queue_size
      → Accounted (send_span p span depth sent)
  unfolding send_span
  send_span-sent p span depth v room =
      let m =
        update_high_watermark (record p.metrics { queued = fetch_add p.metrics.queued 1 })
          (min depth p.config.max_queue_size) in
      let p' : Processor A R = record p {
        shared = record { queue = p.queue ++ span ∷ []; metrics = m };
      } in
      let v' : Accounted p' = ground (arith, length-append p.queue (span ∷ [])) in
      elim (Bool-cases (leb p.config.max_export_batch_size depth)) [
        | inl full_batch ↦ rw (full_batch, notify_export-shared p', notify_export-config p') v'
        | inr less ↦ rw less v'
      ]

  send_span-full :
      (p : Processor A R) (span : A) (depth : ℕ)
      → IsEntering p depth
      → Accounted (send_span p span depth full)
  unfolding send_span
  send_span-full p span depth v = ground arith

  send_span-disconnected :
      (p : Processor A R) (span : A) (depth : ℕ)
      → IsEntering p depth
      → Accounted (send_span p span depth disconnected)
  unfolding send_span
  send_span-disconnected p span depth v = ground arith

  send_span-IsAccounted :
      (p : Processor A R) (span : A) (depth : ℕ) (outcome : Sent)
      → IsEntering p depth
      → try_send p.worker_alive p.config.max_queue_size p.queue ≡ outcome
      → Accounted (send_span p span depth outcome)
  send_span-IsAccounted p span depth sent v h = send_span-sent p span depth v (ground arith)
  send_span-IsAccounted p span depth full v h = send_span-full p span depth v
  send_span-IsAccounted p span depth disconnected v h = send_span-disconnected p span depth v

  -- `on_end` keeps the accounts, whether the span is queued, or dropped as the channel is full, the
  -- worker is gone or the shutdown has begun.
  pub on_end-IsAccounted : (p : Processor A R) (span : A) → Accounted p → Accounted (on_end p span)
  unfolding on_end
  on_end-IsAccounted p span v =
      let depth = fetch_add p.metrics.queue_depth 1 in
      let m = record p.metrics {
        sampled_ended = fetch_add p.metrics.sampled_ended 1;
        queue_depth = depth;
      } in
      let p' = set_metrics p m in
      let entering : IsEntering p' depth = ground arith in
      if-either Accounted p.shutdown_started (ground arith)
        (send_span-IsAccounted p' span depth _ entering refl)
