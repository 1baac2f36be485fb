-- ===== src/Batch/Taking.antt =====
-- What `take_batch` does to the span channel and to its depth.
use otel_php_rust.Prelude.{
  ◌<◌, ◌⊎◌, true, false, ℕ, zero, suc, ◌+◌, ◌%◌, max, ◌≡◌, refl, sym, ap, ◌∙◌, List, [], ◌∷◌, ◌++◌,
  arith, length, take, drop, is_empty, Bool-cases, inl, inr, append-nil, append_assoc,
}
use otel_php_rust.Batch.Config.{BatchProcessorConfig}
use otel_php_rust.Batch.Metrics.{BatchMetricsInner, usize_mod, fetch_sub, Shared}
use otel_php_rust.Batch.Attempt.{span_count}
use otel_php_rust.Batch.Take.{take_spans, take_batch, take_batches}

module _ {ℓ} {A : Type ℓ} where
  take-drop : (n : ℕ) (xs : List A) → xs ≡ take n xs ++ drop n xs
  take-drop zero xs = refl
  take-drop (suc n) [] = refl
  take-drop (suc n) (x ∷ xs) = ap (◌∷◌ x) (take-drop n xs)

  -- The first `n` spans of the channel have left it, and the depth has gone down by as many.
  pub record Takes (n : ℕ) (s : Shared A) (batch : List A) (s' : Shared A) : Type ℓ where
    pub spans : batch ≡ take n s.queue
    pub left : s'.queue ≡ drop n s.queue
    pub same : s'.metrics ≡ record s.metrics { queue_depth = s'.metrics.queue_depth }
    pub depth :
        (s'.metrics.queue_depth + length batch) % usize_mod ≡ s.metrics.queue_depth % usize_mod
    pub fits : s'.metrics.queue_depth < max (s.metrics.queue_depth + 1) usize_mod

  take_spans-start :
      (room : ℕ) (queue : List A) (m : BatchMetricsInner) (batch : List A)
      → let s : Shared A = record { queue = queue; metrics = m } in
        take_spans room s batch ≡ (batch ++ (take_spans room s []).0, (take_spans room s []).1)
  unfolding take_spans
  take_spans-start zero queue m batch = rw append-nil
  take_spans-start (suc room) [] m batch = rw append-nil
  take_spans-start (suc room) (span ∷ rest) m batch =
      let m' = record m { queue_depth = fetch_sub m.queue_depth 1 } in
      rw
        (
          take_spans-start room rest m' (batch ++ span ∷ []),
          take_spans-start room rest m' (span ∷ []),
        )
        (rw append_assoc)

  take_spans-Takes :
      (room : ℕ) (queue : List A) (m : BatchMetricsInner)
      → let s : Shared A = record { queue = queue; metrics = m } in
        let r = take_spans room s [] in Takes room s r.0 r.1
  unfolding take_spans
  take_spans-Takes zero queue m = record {
    spans = refl;
    left = refl;
    same = refl;
    depth = omega arith;
    fits = omega arith;
  }
  take_spans-Takes (suc room) [] m = record {
    spans = refl;
    left = refl;
    same = refl;
    depth = omega arith;
    fits = omega arith;
  }
  take_spans-Takes (suc room) (span ∷ rest) m =
      let m' = record m { queue_depth = fetch_sub m.queue_depth 1 } in
      let t = take_spans-Takes room rest m' in
      rw (take_spans-start room rest m' (span ∷ [])) (record {
        spans = ap (◌∷◌ span) t.spans;
        left = t.left;
        same = t.same;
        depth = omega (arith, t.depth);
        fits = omega (arith, t.fits);
      })

  nil_of_is_empty : (xs : List A) → is_empty xs ≡ true → xs ≡ []
  nil_of_is_empty [] h = refl
  nil_of_is_empty (x ∷ xs) h = absurd (cc h)

  length_pos : (xs : List A) → is_empty xs ≡ false → 0 < length xs
  length_pos [] h = absurd (cc h)
  length_pos (x ∷ xs) h = omega arith

  drop_of_take : (n : ℕ) (xs : List A) → 0 < n → is_empty (take n xs) ≡ true → drop n xs ≡ []
  drop_of_take zero xs h e = absurd (omega arith)
  drop_of_take (suc n) [] h e = refl
  drop_of_take (suc n) (x ∷ xs) h e = absurd (cc e)

  Takes-order :
      {n : ℕ} {s s' : Shared A} {batch : List A} → Takes n s batch s' → s.queue ≡ batch ++ s'.queue
  Takes-order {n} {s} t = take-drop n s.queue ∙ rw (t.spans, t.left)

  abbrev pub concat : List (List A) → List A
  concat [] = []
  concat (batch ∷ rest) = batch ++ concat rest

  -- The batches hold the spans that have left the channel, oldest first, and the depth has gone down
  -- by as many; there is a batch if there was a span.
  pub record TakesAll (s : Shared A) (batches : List (List A)) (s' : Shared A) : Type ℓ where
    pub order : s.queue ≡ concat batches ++ s'.queue
    pub same : s'.metrics ≡ record s.metrics { queue_depth = s'.metrics.queue_depth }
    pub depth :
        (s'.metrics.queue_depth + span_count batches) % usize_mod
        ≡ s.metrics.queue_depth % usize_mod
    pub fits : s'.metrics.queue_depth < max (s.metrics.queue_depth + 1) usize_mod

  module _ (config : BatchProcessorConfig) where
    take_batch-Takes :
        (s : Shared A)
        → Takes config.max_export_batch_size s (take_batch config s).0 (take_batch config s).1
    unfolding take_batch
    take_batch-Takes s = take_spans-Takes config.max_export_batch_size s.queue s.metrics

    take_batches-start :
        (room : ℕ) (s : Shared A) (batches : List (List A))
        → take_batches config room s batches
          ≡ (batches ++ (take_batches config room s []).0, (take_batches config room s []).1)
    unfolding take_batches
    take_batches-start zero s batches = rw append-nil
    take_batches-start (suc room) s batches =
        let (batch, s') = take_batch config s in
        elim (Bool-cases (is_empty batch)) [
          | inl none_left ↦ rw (none_left, append-nil)
          | inr more ↦
              rw
                (
                  more,
                  take_batches-start room s' (batches ++ batch ∷ []),
                  take_batches-start room s' (batch ∷ []),
                )
                (rw append_assoc)
        ]

    pub take_batches-TakesAll :
        (room : ℕ) (s : Shared A)
        → TakesAll s (take_batches config room s []).0 (take_batches config room s []).1
    unfolding take_batches
    take_batches-TakesAll zero s = record {
      order = refl;
      same = refl;
      depth = omega arith;
      fits = omega arith;
    }
    take_batches-TakesAll (suc room) s =
        let s' = (take_batch config s).1 in
        let t = take_batch-Takes s in
        let rest = take_batches-TakesAll room s' in
        elim (Bool-cases (is_empty (take_batch config s).0)) [
          | inl none_left ↦ rw none_left (
              let e = nil_of_is_empty (take_batch config s).0 none_left in
              record {
                order = Takes-order t ∙ rw e;
                same = t.same;
                depth = omega (arith, t.depth, ap length e);
                fits = t.fits;
              })
          | inr more ↦
              rw (more, take_batches-start room s' ((take_batch config s).0 ∷ []))
                (record {
                  order =
                      Takes-order t
                      ∙ ap (◌++◌ (take_batch config s).0) rest.order
                      ∙ sym (append_assoc (take_batch config s).0 _ _);
                  same =
                      rest.same
                      ∙ ap
                          (λ (m : BatchMetricsInner). record m {
                            queue_depth = (take_batches config room s' []).1.metrics.queue_depth;
                          })
                          t.same;
                  depth = omega (arith, rest.depth, t.depth);
                  fits = omega (arith, rest.fits, t.fits);
                })
        ]

    take_batch-progress :
        (s : Shared A)
        → 0 < config.max_export_batch_size
        → is_empty (take_batch config s).0 ≡ true
        → (take_batch config s).1.queue ≡ []
    take_batch-progress s room e =
        let t = take_batch-Takes s in
        t.left ∙ drop_of_take config.max_export_batch_size s.queue room (rw (← t.spans) e)

    -- No batch is left empty, and with room for one there is one while the channel holds a span.
    pub take_batches-progress :
        (room : ℕ) (s : Shared A)
        → 0 < room
        → 0 < config.max_export_batch_size
        → let r = take_batches config room s [] in
          ((is_empty r.0 ≡ true) × (r.1.queue ≡ []))
          ⊎ ((is_empty r.0 ≡ false) × (0 < span_count r.0))
    unfolding take_batches
    take_batches-progress zero s h k = absurd (omega arith)
    take_batches-progress (suc room) s h k =
        let s' = (take_batch config s).1 in
        elim (Bool-cases (is_empty (take_batch config s).0)) [
          | inl none_left ↦ rw none_left (inl (refl, take_batch-progress s k none_left))
          | inr more ↦
              rw (more, take_batches-start room s' ((take_batch config s).0 ∷ []))
                (inr (refl, ground (arith, length_pos (take_batch config s).0 more)))
        ]
