-- ===== src/Batch/Metrics.antt =====
-- `BatchMetricsInner` of otel/src/trace/batch_processor.rs and the two channels' shared side: the
-- counters are `AtomicUsize`, which wrap around at 2^64.
use otel_php_rust.Prelude.{ℕ, ◌+◌, ◌-◌, ◌%◌, ◌^◌, max, Bool, false, List}

abbrev pub usize_mod : ℕ
usize_mod = 2 ^ 64

abbrev pub fetch_add : ℕ → ℕ → ℕ
fetch_add a n = (a + n) % usize_mod

-- For `n` up to 2^64.
abbrev pub fetch_sub : ℕ → ℕ → ℕ
fetch_sub a n = (a + usize_mod - n) % usize_mod

pub record BatchMetricsInner : Type 0 where
  pub sampled_started : ℕ
  pub sampled_ended : ℕ
  pub queued : ℕ
  pub exported : ℕ
  pub dropped_queue_full : ℕ
  pub dropped_export_failure : ℕ
  pub dropped_shutdown : ℕ
  pub export_failures : ℕ
  pub export_retries : ℕ
  pub export_retry_recovered : ℕ
  pub queue_depth : ℕ
  pub queue_high_watermark : ℕ
  pub in_flight : ℕ
  pub queue_full_log_emitted : Bool
  pub export_failure_log_emitted : Bool

-- `BatchMetrics::default()`.
abbrev pub fresh_metrics : BatchMetricsInner
fresh_metrics = record {
  sampled_started = 0;
  sampled_ended = 0;
  queued = 0;
  exported = 0;
  dropped_queue_full = 0;
  dropped_export_failure = 0;
  dropped_shutdown = 0;
  export_failures = 0;
  export_retries = 0;
  export_retry_recovered = 0;
  queue_depth = 0;
  queue_high_watermark = 0;
  in_flight = 0;
  queue_full_log_emitted = false;
  export_failure_log_emitted = false;
}

-- `update_high_watermark`: `fetch_max`.
abbrev pub update_high_watermark : BatchMetricsInner → ℕ → BatchMetricsInner
update_high_watermark m depth = record m { queue_high_watermark = max m.queue_high_watermark depth }

-- The span channel's content, oldest first, and the counters: what both threads touch.
pub record Shared {ℓ} (A : Type ℓ) : Type ℓ where
  pub queue : List A
  pub metrics : BatchMetricsInner
