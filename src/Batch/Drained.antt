-- ===== src/Batch/Drained.antt =====
-- Spans that have left the channel and are counted, over the rounds of `export_available` of
-- otel/src/trace/batch_processor.rs.
use otel_php_rust.Prelude.{
  ◌+◌, ◌%◌, max, ◌<◌, ◌≡◌, refl, sym, ap, ◌∙◌, true, List, [], ◌∷◌, ◌++◌, arith, length, is_empty,
  append_assoc, length-append,
}
use otel_php_rust.Batch.Metrics.{BatchMetricsInner, usize_mod, Shared}
use otel_php_rust.Batch.Attempt.{span_count}
use otel_php_rust.Batch.Taking.{concat, TakesAll}
use otel_php_rust.Batch.Tallying.{Counted}
use otel_php_rust.Batch.Settling.{Settles}

-- The counters of the request side are left as they are.
pub record KeepsRequests (m m' : BatchMetricsInner) : Type 0 where
  pub sampled_started : m'.sampled_started ≡ m.sampled_started
  pub sampled_ended : m'.sampled_ended ≡ m.sampled_ended
  pub queued : m'.queued ≡ m.queued
  pub dropped_queue_full : m'.dropped_queue_full ≡ m.dropped_queue_full
  pub dropped_shutdown : m'.dropped_shutdown ≡ m.dropped_shutdown
  pub queue_high_watermark : m'.queue_high_watermark ≡ m.queue_high_watermark

module _ {ℓ} {A : Type ℓ} where
  -- The spans `taken` have left the channel, oldest first, and each is counted once.
  pub record Drains (s : Shared A) (taken : List A) (s' : Shared A) : Type ℓ where
    pub order : s.queue ≡ taken ++ s'.queue
    pub counted : Counted s.metrics s'.metrics (length taken)
    pub depth :
        (s'.metrics.queue_depth + length taken) % usize_mod ≡ s.metrics.queue_depth % usize_mod
    pub fits : s'.metrics.queue_depth < max (s.metrics.queue_depth + 1) usize_mod
    pub keeps : KeepsRequests s.metrics s'.metrics

  pub length-concat : (batches : List (List A)) → length (concat batches) ≡ span_count batches
  length-concat [] = refl
  length-concat (b ∷ rest) = omega (arith, length-append b (concat rest), length-concat rest)

  pub nil_of_length : (xs : List A) → length xs ≡ 0 → xs ≡ []
  nil_of_length [] h = refl
  nil_of_length (x ∷ xs) h = absurd (omega arith)

  pub Drains-nothing : (s : Shared A) → Drains s [] s
  Drains-nothing s = record {
    order = refl;
    counted = omega arith;
    depth = omega arith;
    fits = omega arith;
    keeps = omega arith;
  }

  -- One round: batches are taken, then exported.
  pub Drains-round :
      {s t : Shared A} {batches : List (List A)} {m : BatchMetricsInner}
      → TakesAll s batches t
      → Settles t.metrics m (span_count batches)
      → Drains s (concat batches) (record { queue = t.queue; metrics = m })
  Drains-round {s} {t} {batches} {m} a h = record {
    order = a.order;
    counted = ground (arith, a.same, h.counted, length-concat batches);
    depth = ground (arith, a.depth, h.leaves, length-concat batches);
    fits = ground (arith, a.fits, h.leaves);
    keeps = ground (arith, a.same, h.leaves);
  }

  pub Drains-none :
      {s t : Shared A} {batches : List (List A)}
      → TakesAll s batches t
      → is_empty batches ≡ true
      → Drains s [] t
  Drains-none {s} {t} {batches = []} a e = record {
    order = a.order;
    counted = ground (arith, a.same);
    depth = ground (arith, a.depth);
    fits = a.fits;
    keeps = ground (arith, a.same);
  }
  Drains-none {s} {t} {batches = b ∷ rest} a e = absurd (cc e)

  pub Drains-trans :
      {s t u : Shared A} {xs ys : List A} → Drains s xs t → Drains t ys u → Drains s (xs ++ ys) u
  Drains-trans {s} {t} {u} {xs} {ys} a b = record {
    order = a.order ∙ ap (◌++◌ xs) b.order ∙ sym (append_assoc xs ys u.queue);
    counted = omega (arith, a.counted, b.counted, length-append xs ys);
    depth = omega (arith, a.depth, b.depth, length-append xs ys);
    fits = omega (arith, a.fits, b.fits);
    keeps = ground (arith, a.keeps, b.keeps);
  }
