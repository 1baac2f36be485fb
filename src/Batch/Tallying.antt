-- ===== src/Batch/Tallying.antt =====
-- How the loop over an attempt's results, and the record of the batches that are given up, count
-- spans in `export_round` of otel/src/trace/batch_processor.rs.
use otel_php_rust.Prelude.{
  ℕ, ◌+◌, ◌%◌, ◌≡◌, refl, ◌∙◌, Bool, false, Option, List, [], ◌∷◌, ◌++◌, map, arith, length,
}
use otel_php_rust.Prelude.Bytes.{Bytes}
use otel_php_rust.Prelude.Results.{Result, ok, err}
use otel_php_rust.Batch.Classify.{OTelSdkError}
use otel_php_rust.Batch.Metrics.{BatchMetricsInner, usize_mod}
use otel_php_rust.Batch.Attempt.{Attempt, span_count, record_terminal_failure}
use otel_php_rust.Batch.Round.{Tally, account_result, account_results, give_up}

-- The counters that only the request side and `take_batch` write are left alone.
pub record Leaves (m m' : BatchMetricsInner) : Type 0 where
  pub sampled_started : m'.sampled_started ≡ m.sampled_started
  pub sampled_ended : m'.sampled_ended ≡ m.sampled_ended
  pub queued : m'.queued ≡ m.queued
  pub dropped_queue_full : m'.dropped_queue_full ≡ m.dropped_queue_full
  pub dropped_shutdown : m'.dropped_shutdown ≡ m.dropped_shutdown
  pub queue_depth : m'.queue_depth ≡ m.queue_depth
  pub queue_high_watermark : m'.queue_high_watermark ≡ m.queue_high_watermark

-- `n` more spans are counted as exported or dropped, modulo 2^64.
abbrev pub Counted : BatchMetricsInner → BatchMetricsInner → ℕ → Type 0
Counted m m' n =
    (m'.exported + m'.dropped_export_failure) % usize_mod
    ≡ (m.exported + m.dropped_export_failure + n) % usize_mod

abbrev pub retry_count {ℓ} : {A : Type ℓ} → List (List A × Bytes) → ℕ
retry_count retry = span_count (map (λ r. r.0) retry)

module _ {ℓ} {A : Type ℓ} where
  pub retry_count-append :
      (xs ys : List (List A × Bytes)) → retry_count (xs ++ ys) ≡ retry_count xs + retry_count ys
  retry_count-append [] ys = omega arith
  retry_count-append (x ∷ xs) ys = omega (arith, retry_count-append xs ys)

  -- Spans in the tally: those counted, and those to be tried again.
  pub record Tallies (t t' : Tally A) (n : ℕ) : Type 0 where
    pub leaves : Leaves t.counters t'.counters
    pub counted :
        (t'.counters.exported + t'.counters.dropped_export_failure + retry_count t'.retry)
          % usize_mod
        ≡ (t.counters.exported + t.counters.dropped_export_failure + retry_count t.retry + n)
          % usize_mod

  module _ (show : OTelSdkError → Bytes) (may_retry : Bool) (attempt : ℕ) where
    pub account_result-Tallies :
        (batch : List A) (r : Result OTelSdkError (Unit {0})) (t : Tally A)
        → Tallies t (account_result show may_retry attempt batch r t) (length batch)
    unfolding account_result
    account_result-Tallies batch (ok u) t = ground arith
    account_result-Tallies batch (err e) t =
        ground (arith, retry_count-append t.retry ((batch, show e) ∷ []))

    pub account_results-Tallies :
        (a : Attempt A) (pending : List (List A)) (index : ℕ) (t : Tally A)
        → Tallies t (account_results show may_retry attempt a index pending t) (span_count pending)
    unfolding account_results
    account_results-Tallies a [] index t = ground arith
    account_results-Tallies a (batch ∷ rest) index t =
        let first = account_result-Tallies batch (a.exports index batch) t in
        let others =
          account_results-Tallies a rest (index + 1)
            (account_result show may_retry attempt batch (a.exports index batch) t) in
        record {
          leaves = ground (arith, first.leaves, others.leaves);
          counted = omega (arith, first.counted, others.counted);
        }

    -- Nothing is put aside for a further attempt unless one is allowed.
    pub account_result-retry :
        may_retry ≡ false
        → (batch : List A) (r : Result OTelSdkError (Unit {0})) (t : Tally A)
        → (account_result show may_retry attempt batch r t).retry ≡ t.retry
    unfolding account_result
    account_result-retry h batch (ok u) t = refl
    account_result-retry h batch (err e) t = rw h refl

    pub account_results-retry :
        may_retry ≡ false
        → (a : Attempt A) (pending : List (List A)) (index : ℕ) (t : Tally A)
        → (account_results show may_retry attempt a index pending t).retry ≡ t.retry
    unfolding account_results
    account_results-retry h a [] index t = refl
    account_results-retry h a (batch ∷ rest) index t =
        account_results-retry h a rest (index + 1) _
        ∙ account_result-retry h batch (a.exports index batch) t

  module _ (show : OTelSdkError → Bytes) where
    pub give_up-Counted :
        (retry : List (List A × Bytes)) (m : BatchMetricsInner) (e : Option Bytes)
        → Leaves m (give_up show retry m e).0
          × Counted m (give_up show retry m e).0 (retry_count retry)
    unfolding give_up record_terminal_failure
    give_up-Counted [] m e = ground arith
    give_up-Counted ((batch, error) ∷ rest) m e =
        let r = record_terminal_failure m (length batch) error e in
        let h = give_up-Counted rest r.0 r.1 in (ground (arith, h.0), omega (arith, h.1))
