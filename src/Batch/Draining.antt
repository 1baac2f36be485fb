-- ===== src/Batch/Draining.antt =====
-- What `export_available` does to the span channel and the counters when no shutdown aborts it.
use otel_php_rust.Prelude.{
  ℕ, zero, suc, ◌+◌, ◌≤◌, ◌<◌, ◌≡◌, refl, ap, ◌∙◌, false, Option, none, some, List, [], ◌++◌, arith,
  ltb, ltb→lt, length, Bool-cases, inl, inr, ◌⊎◌, Option-cases, IfSome, IfSome-eq, IfSome-mono,
  length-append,
}
use otel_php_rust.Prelude.Bytes.{Bytes}
use otel_php_rust.Prelude.Results.{Result}
use otel_php_rust.Batch.Classify.{OTelSdkError}
use otel_php_rust.Batch.Config.{BatchProcessorConfig}
use otel_php_rust.Batch.Metrics.{BatchMetricsInner, usize_mod, Shared}
use otel_php_rust.Batch.Attempt.{span_count}
use otel_php_rust.Batch.Take.{take_batches}
use otel_php_rust.Batch.Round.{export_round}
use otel_php_rust.Batch.Taking.{concat, take_batches-TakesAll, take_batches-progress}
use otel_php_rust.Batch.Tallying.{Counted}
use otel_php_rust.Batch.Settling.{
  IsCalm, Elapses, Settles, export_round-counts, export_round-Settles,
}
use otel_php_rust.Batch.Drained.{
  KeepsRequests, Drains, length-concat, nil_of_length, Drains-nothing, Drains-round, Drains-none,
  Drains-trans,
}
use otel_php_rust.Batch.Worker.{Outside, first_of, to_result, available_loop, export_available}

-- No shutdown aborts the export.
pub record IsCalmOutside {ℓ} {A : Type ℓ} (o : Outside A) : Type 0 where
  pub loops : (n : ℕ) → o.abort n ≡ false
  pub rounds : (n : ℕ) → IsCalm (o.world n)

module _ {ℓ} {A : Type ℓ} where
  -- `target` spans have been taken, or the channel is empty.
  abbrev Reaches : ℕ → ℕ → List A → Shared A → Type ℓ
  Reaches target processed taken s = (target ≤ processed + length taken) ⊎ (s.queue ≡ [])

  module _ (show : OTelSdkError → Bytes) (config : BatchProcessorConfig) (o : Outside A)
      (calm : IsCalmOutside o) (some_batch : 0 < config.max_export_batch_size)
      (some_room : 0 < config.max_concurrent_exports) (target : ℕ) where
    Reaches-later :
        (processed : ℕ) (batches : List (List A)) (taken : List A) (s : Shared A)
        → Reaches target (processed + span_count batches) taken s
        → Reaches target processed (concat batches ++ taken) s
    Reaches-later processed batches taken s (inl le) =
        inl (omega (arith, le, length-append (concat batches) taken, length-concat batches))
    Reaches-later processed batches taken s (inr q) = inr q

    -- What the loop leaves behind, if it ends.
    abbrev Drained : ℕ → Shared A → Shared A × Option Bytes → Type ℓ
    Drained processed s r =
        (taken : List A) × Drains s taken r.0 × Reaches target processed taken r.0

    available_loop-Drains :
        (fuel processed round : ℕ) (s : Shared A) (e : Option Bytes)
        → IfSome
            (Drained processed s)
            (available_loop show fuel config o target processed round s e)
    unfolding available_loop
    available_loop-Drains zero processed round s e = tt
    available_loop-Drains (suc fuel) processed round s e =
        let room = config.max_concurrent_exports in
        let t = (take_batches config room s []).1 in
        let batches = (take_batches config room s []).0 in
        let a = take_batches-TakesAll config room s in
        let exported = export_round show config.retry (o.world round) batches t.metrics in
        rw (calm.loops round) (elim (Bool-cases (ltb processed target)) [
          | inr done ↦ rw done ([], Drains-nothing s, inl (ground arith))
          | inl below ↦ rw below (elim (take_batches-progress config room s some_room some_batch) [
            | inl (none_left, q) ↦ rw none_left ([], Drains-none a none_left, inr q)
            | inr (more, n) ↦ rw more (elim (Option-cases exported) [
              | inl stuck ↦ rw stuck tt
              | inr (r, runs) ↦
                  let h =
                    IfSome-eq
                      (λ (r : BatchMetricsInner × Option Bytes).
                        Settles t.metrics r.0 (span_count batches))
                      exported
                      (export_round-counts show config.retry (o.world round) batches t.metrics
                        (calm.rounds round))
                      runs in
                  let next : Shared A = record { queue = t.queue; metrics = r.0 } in
                  rw runs (
                    IfSome-mono (Drained (processed + span_count batches) next)
                      (Drained processed s) _
                      (λ q (taken, d, ends). (
                        concat batches ++ taken,
                        Drains-trans (Drains-round a h) d,
                        Reaches-later processed batches taken q.0 ends,
                      ))
                      (available_loop-Drains fuel (processed + span_count batches) (round + 1) next
                        (first_of e r.1)))
            ])
          ])
        ])

    module _ (elapses : (n : ℕ) → Elapses (o.world n)) where
      available_loop-ends :
          (fuel processed round : ℕ) (s : Shared A) (e : Option Bytes)
          → 0 < fuel
          → target < processed + fuel
          → (r : Shared A × Option Bytes) × (available_loop show fuel config o target processed
                round s e
              ≡ some r)
      unfolding available_loop
      available_loop-ends zero processed round s e pos lt = absurd (omega arith)
      available_loop-ends (suc fuel) processed round s e pos lt =
          let room = config.max_concurrent_exports in
          let t = (take_batches config room s []).1 in
          let batches = (take_batches config room s []).0 in
          rw (calm.loops round) (elim (Bool-cases (ltb processed target)) [
            | inr done ↦ rw done (_, refl)
            | inl below ↦
                rw below (elim (take_batches-progress config room s some_room some_batch) [
                  | inl (none_left, q) ↦ rw none_left (_, refl)
                  | inr (more, n) ↦
                      let (r, runs, h) =
                        export_round-Settles show config.retry (o.world round) batches t.metrics
                          (calm.rounds round) (elapses round) in
                      rw (more, runs)
                        (available_loop-ends fuel (processed + span_count batches) (round + 1)
                          (record { queue = t.queue; metrics = r.0 }) (first_of e r.1)
                          (omega (arith, ltb→lt processed target below))
                          (omega (arith, ltb→lt processed target below)))
                ])
          ])

  module _ (show : OTelSdkError → Bytes) (config : BatchProcessorConfig) (o : Outside A)
      (s : Shared A) where
    abbrev pub DrainsAll : Shared A × Result OTelSdkError (Unit {0}) → Type ℓ
    DrainsAll r =
        (taken : List A) × Drains s taken r.0
        × ((s.metrics.queue_depth ≤ length taken) ⊎ (r.0.queue ≡ []))

    export_available-drained :
        IsCalmOutside o
        → 0 < config.max_export_batch_size
        → 0 < config.max_concurrent_exports
        → IfSome DrainsAll (export_available show config o s)
    unfolding export_available
    export_available-drained calm some_batch some_room =
        let target = s.metrics.queue_depth in
        let loop = available_loop show (target + 1) config o target 0 0 s none in
        let h =
          available_loop-Drains show config o calm some_batch some_room target (target + 1) 0 0 s
            none in
        elim (Option-cases loop) [
          | inl stuck ↦ rw (stuck, IfSome, export_available) tt
          | inr (r, runs) ↦
              let (taken, d, ends) = IfSome-eq _ loop h runs in
              rw (runs, IfSome, export_available)
                (taken, d, elim ends [ inl le ↦ inl (omega arith) | inr q ↦ inr q ])
        ]

    -- Unless a shutdown aborts it, and where each round of a wait takes at least the time that it
    -- sleeps, `export_available` ends and takes the oldest spans from the channel, at least as
    -- many as the depth says at its start, or all; each is counted once, as exported or as dropped
    -- for an export failure, and the depth goes down by their number.
    pub export_available-Drains :
        IsCalmOutside o
        → ((n : ℕ) → Elapses (o.world n))
        → 0 < config.max_export_batch_size
        → 0 < config.max_concurrent_exports
        → (taken : List A) × (r : Shared A × Result OTelSdkError (Unit {0})) × (export_available
              show config o s
            ≡ some r)
          × Drains s taken r.0
          × ((s.metrics.queue_depth ≤ length taken) ⊎ (r.0.queue ≡ []))
    unfolding export_available
    export_available-Drains calm elapses some_batch some_room =
        let target = s.metrics.queue_depth in
        let (r, runs) =
          available_loop-ends show config o calm some_batch some_room target elapses (target + 1) 0
            0 s none (omega arith) (omega arith) in
        let whole : export_available show config o s ≡ some (r.0, to_result r.1) =
          rw (runs, export_available) refl in
        let (taken, d, ends) =
          IfSome-eq DrainsAll (export_available show config o s)
            (export_available-drained calm some_batch some_room) whole in
        (taken, (r.0, to_result r.1), whole, d, ends)

    -- Nothing is left in the channel, and every span that was waiting is counted.
    abbrev pub Empties : Shared A → Type ℓ
    Empties t =
        (t.queue ≡ [])
        × Counted s.metrics t.metrics (length s.queue)
        × (t.metrics.queue_depth ≡ 0)
        × KeepsRequests s.metrics t.metrics

    module _ (exact : s.metrics.queue_depth ≡ length s.queue)
        (fits : length s.queue < usize_mod) where
      Empties-DrainsAll :
          (r : Shared A × Result OTelSdkError (Unit {0})) → DrainsAll r → Empties r.0
      Empties-DrainsAll r (taken, d, ends) =
          let lengths : length s.queue ≡ length taken + length r.0.queue =
            ap length d.order ∙ length-append taken r.0.queue in
          let empty : r.0.queue ≡ [] = elim ends [
            | inl le ↦ nil_of_length r.0.queue (omega arith)
            | inr q ↦ q
          ] in
          let all : length s.queue ≡ length taken = omega (arith, lengths, ap length empty) in
          (empty, rw all d.counted, omega (arith, d.depth, d.fits, all, exact), d.keeps)

      -- What an export leaves, if it ends.
      pub export_available-leaves :
          IsCalmOutside o
          → 0 < config.max_export_batch_size
          → 0 < config.max_concurrent_exports
          → IfSome (λ r. Empties r.0) (export_available show config o s)
      export_available-leaves calm some_batch some_room =
          IfSome-mono DrainsAll (λ (r : Shared A × Result OTelSdkError (Unit {0})). Empties r.0)
            (export_available show config o s) Empties-DrainsAll
            (export_available-drained calm some_batch some_room)

    -- Where the depth is that of the channel and below 2^64, no shutdown aborts the export, and
    -- each round of a wait takes at least the time that it sleeps, the export ends and nothing is
    -- left in the channel: a flush exports or drops every span that was waiting, each counted
    -- once, and the depth is 0.
    pub export_available-empties :
        IsCalmOutside o
        → ((n : ℕ) → Elapses (o.world n))
        → 0 < config.max_export_batch_size
        → 0 < config.max_concurrent_exports
        → s.metrics.queue_depth ≡ length s.queue
        → length s.queue < usize_mod
        → (r : Shared A × Result OTelSdkError (Unit {0})) × (export_available show config o s
            ≡ some r)
          × (r.0.queue ≡ [])
          × Counted s.metrics r.0.metrics (length s.queue)
          × (r.0.metrics.queue_depth ≡ 0)
          × KeepsRequests s.metrics r.0.metrics
    export_available-empties calm elapses some_batch some_room exact fits =
        let (taken, r, runs, d, ends) = export_available-Drains calm elapses some_batch some_room in
        let (empty, counted, depth, keeps) = Empties-DrainsAll exact fits r (taken, d, ends) in
        (r, runs, empty, counted, depth, keeps)
