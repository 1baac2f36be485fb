-- ===== src/Batch/Processor.antt =====
-- The request side of `BoundedBatchSpanProcessor` in otel/src/trace/batch_processor.rs. A span is a
-- value of a type `A`, a resource one of `R`. A call that waits for the worker is two operations,
-- up to the wait and after it, with the worker's answer as an argument of the second.
use otel_php_rust.Prelude.{
  ℕ, min, Bool, true, false, not, List, [], ◌∷◌, ◌++◌, leb, ltb, if◌then◌else◌, length,
}
use otel_php_rust.Prelude.Bytes.{codes}
use otel_php_rust.Prelude.Results.{Result, ok, err}
use otel_php_rust.Batch.Classify.{OTelSdkError, already_shutdown, timeout, internal_failure}
use otel_php_rust.Batch.Config.{BatchProcessorConfig}
use otel_php_rust.Batch.Metrics.{
  BatchMetricsInner, fetch_add, fetch_sub, update_high_watermark, fresh_metrics, Shared,
}

pub data ControlMessage {κ} (R : Type κ) : Type κ where
  export force_flush shutdown : ControlMessage R
  set_resource : R → ControlMessage R

pub record Processor {ℓ κ} (A : Type ℓ) (R : Type κ) : Type (ℓ ⊔ κ) where
  pub config : BatchProcessorConfig
  pub shared : Shared A
  pub open shared use *
  -- The control channel, of capacity 8.
  pub control : List (ControlMessage R)
  -- Whether the worker still holds the receivers.
  pub worker_alive : Bool
  pub export_pending : Bool
  pub abort_export : Bool
  pub flush_requested : Bool
  pub shutdown_started : Bool

-- What `try_send` returns.
pub data Sent : Type 0 where
  sent full disconnected : Sent

abbrev pub try_send {ℓ} : {A : Type ℓ} → Bool → ℕ → List A → Sent
try_send alive capacity channel =
    if not alive then disconnected else if ltb (length channel) capacity then sent else full

-- What the worker's answer to a waiting call is; a `recv_timeout` may also run out.
pub data Reply : Type 0 where
  replied : Result OTelSdkError (Unit {0}) → Reply
  timed_out stopped : Reply

module _ {ℓ κ} {A : Type ℓ} {R : Type κ} where
  -- `new`, with the worker running.
  unfoldable pub new : BatchProcessorConfig → Processor A R
  new config = record {
    config = config;
    shared = record { queue = []; metrics = fresh_metrics };
    control = [];
    worker_alive = true;
    export_pending = false;
    abort_export = false;
    flush_requested = false;
    shutdown_started = false;
  }

  abbrev pub set_metrics : Processor A R → BatchMetricsInner → Processor A R
  set_metrics p m = record p { shared = record { queue = p.queue; metrics = m } }

  unfoldable pub notify_export : Processor A R → Processor A R
  notify_export p = if p.export_pending then p else elim (try_send p.worker_alive 8 p.control) [
    | sent ↦ record p { export_pending = true; control = p.control ++ export ∷ [] }
    | full ↦ record p { export_pending = false }
    | disconnected ↦ record p { export_pending = false }
  ]

  unfoldable pub on_start : Processor A R → Processor A R
  on_start p =
      set_metrics p (record p.metrics { sampled_started = fetch_add p.metrics.sampled_started 1 })

  -- `on_end` from `try_send` on; the counters have the span and its place in the queue counted.
  unfoldable pub send_span : Processor A R → A → ℕ → Sent → Processor A R
  send_span p span depth sent =
      let m =
        update_high_watermark (record p.metrics { queued = fetch_add p.metrics.queued 1 })
          (min depth p.config.max_queue_size) in
      let p' = record p { shared = record { queue = p.queue ++ span ∷ []; metrics = m } } in
      if leb p.config.max_export_batch_size depth then notify_export p' else p'
  send_span p span depth full = set_metrics p (record p.metrics {
    queue_depth = fetch_sub p.metrics.queue_depth 1;
    dropped_queue_full = fetch_add p.metrics.dropped_queue_full 1;
    queue_full_log_emitted = true;
  })
  send_span p span depth disconnected = set_metrics p (record p.metrics {
    queue_depth = fetch_sub p.metrics.queue_depth 1;
    dropped_shutdown = fetch_add p.metrics.dropped_shutdown 1;
  })

  unfoldable pub on_end : Processor A R → A → Processor A R
  on_end p span =
      let m = record p.metrics { sampled_ended = fetch_add p.metrics.sampled_ended 1 } in
      if p.shutdown_started
      then set_metrics p (record m { dropped_shutdown = fetch_add m.dropped_shutdown 1 })
      else let depth = fetch_add m.queue_depth 1 in
        send_span (set_metrics p (record m { queue_depth = depth })) span depth
          (try_send p.worker_alive p.config.max_queue_size p.queue)

  -- The `try_send` of `wait_for_control`.
  unfoldable pub send_control :
      Processor A R → ControlMessage R → Processor A R × Result OTelSdkError (Unit {0})
  send_control p message = elim (try_send p.worker_alive 8 p.control) [
    | sent ↦ (record p { control = p.control ++ message ∷ [] }, ok tt)
    | full ↦ (p, err (internal_failure (codes "trace exporter control queue is full")))
    | disconnected ↦ (p, err already_shutdown)
  ]

  -- `force_flush` up to the wait.
  unfoldable pub force_flush_send : Processor A R → Processor A R × Result OTelSdkError (Unit {0})
  unfolding send_control
  force_flush_send p = send_control (record p { flush_requested = true }) force_flush

  -- `shutdown_with_timeout` up to the wait.
  unfoldable pub shutdown_send : Processor A R → Processor A R × Result OTelSdkError (Unit {0})
  unfolding send_control
  shutdown_send p =
      if p.shutdown_started
      then (p, err already_shutdown)
      else send_control (record p { shutdown_started = true; flush_requested = true }) shutdown

  -- `self.signals.abort_export.store(true, ...)`.
  unfoldable pub shutdown_abort : Processor A R → Processor A R
  shutdown_abort p = record p { abort_export = true }

  -- The count of what is left, after the flag is set.
  unfoldable pub shutdown_count : Processor A R → Processor A R
  shutdown_count p =
      let m = p.metrics in
      let remaining = fetch_add m.queue_depth m.in_flight in
      set_metrics p (record m { dropped_shutdown = fetch_add m.dropped_shutdown remaining })

  -- `shutdown_with_timeout` behind the wait; the flag says whether `join` succeeds.
  unfoldable pub shutdown_finish :
      Processor A R
      → Result OTelSdkError (Unit {0})
      → Bool
      → Processor A R × Result OTelSdkError (Unit {0})
  unfolding shutdown_abort shutdown_count
  shutdown_finish p (err (timeout d)) joined = (shutdown_count (shutdown_abort p), err (timeout d))
  shutdown_finish p (ok u) joined =
      (p, if joined then ok u else err (internal_failure (codes "trace exporter worker panicked")))
  shutdown_finish p (err e) joined = (p, err e)

  unfoldable pub set_resource_send : Processor A R → R → Processor A R
  unfolding send_control
  set_resource_send p resource = (send_control p (set_resource resource)).0

-- What `recv_timeout` makes of the answer in `wait_for_control`.
unfoldable pub await_reply : ℕ → Reply → Result OTelSdkError (Unit {0})
await_reply limit (replied result) = result
await_reply limit timed_out = err (timeout limit)
await_reply limit stopped = err (internal_failure (codes "trace exporter worker stopped"))

-- `timeout.min(self.config.shutdown_timeout)`.
unfoldable pub effective_timeout : ℕ → BatchProcessorConfig → ℕ
effective_timeout limit config = min limit config.shutdown_timeout
