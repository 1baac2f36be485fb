-- ===== src/Batch/Shutdown.antt =====
-- The shutdown of the batch processor: the calls behind it, and its count when its budget runs out
-- while a batch is being exported.
use otel_php_rust.Prelude.{
  ◌+◌, ◌%◌, ◌≡◌, refl, sym, ap, ◌∙◌, true, Option, none, some, List, [], ◌∷◌, arith, Bool-cases,
  inl, inr, ◌>>=◌, eq_of_some, Option-cases, ℕ, zero, suc, ◌<◌,
}
use otel_php_rust.Prelude.Bytes.{Bytes}
use otel_php_rust.Prelude.Results.{Result, err}
use otel_php_rust.Batch.Classify.{OTelSdkError, already_shutdown}
use otel_php_rust.Batch.Config.{RetryPolicy}
use otel_php_rust.Batch.Metrics.{BatchMetricsInner, usize_mod, fetch_add, Shared}
use otel_php_rust.Batch.Attempt.{World, span_count}
use otel_php_rust.Batch.Round.{idle, start_attempt, round_loop, export_round}
use otel_php_rust.Batch.Processor.{
  Processor, ControlMessage, export, force_flush, shutdown, set_resource, set_metrics,
  notify_export, on_start, on_end, send_control, force_flush_send, shutdown_send, shutdown_abort,
  shutdown_count, set_resource_send,
}
use otel_php_rust.Batch.Worker.{Outside, export_available}
use otel_php_rust.Batch.Run.{
  Received, message, timeout, disconnected, Turn, Closing, handle_message, handle_oldest,
  handle_control,
}
use otel_php_rust.Batch.Steps.{◌⇒◌, starts, ends, flushes, shuts_down, sets_resource, works}

module _ {ℓ κ} {A : Type ℓ} {R : Type κ} (show : OTelSdkError → Bytes) (p : Processor A R) where
  round_loop-aborted :
      (fuel : ℕ) (policy : RetryPolicy) (w : World A) (pending : List (List A)) (backoff : ℕ)
      (m : BatchMetricsInner)
      → (w 1).aborted ≡ true
      → 0 < fuel
      → round_loop show fuel policy w pending 0 backoff m none
        ≡ some (idle (start_attempt show 1 pending m), none)
  unfolding round_loop
  round_loop-aborted zero policy w pending backoff m stop pos = absurd (omega arith)
  round_loop-aborted (suc fuel) policy w pending backoff m stop pos = rw stop refl

  -- A round whose first attempt sees the abort flag accounts for none of its spans. If it ends
  -- before the shutdown that raised the flag reads `in_flight`, the shutdown counts fewer spans as
  -- dropped, modulo 2^64, than if it reads first: fewer by all the spans of the round.
  pub shutdown_count-race :
      (policy : RetryPolicy) (w : World A) (pending : List (List A))
      → (w 1).aborted ≡ true
      → let started = set_metrics p (start_attempt show 1 pending p.metrics) in
        let read_first = shutdown_count (shutdown_abort started) in
        (r : BatchMetricsInner × Option Bytes) × (export_round show policy w pending p.metrics
          ≡ some r)
        × (let read_last = shutdown_count (set_metrics (shutdown_abort started) r.0) in
            ((read_last.metrics.dropped_shutdown + span_count pending) % usize_mod
              ≡ read_first.metrics.dropped_shutdown % usize_mod)
            × (r.0.exported ≡ p.metrics.exported)
            × (r.0.dropped_export_failure ≡ p.metrics.dropped_export_failure))
  unfolding start_attempt shutdown_count shutdown_abort export_round
  shutdown_count-race policy w pending stop =
      let m = start_attempt show 1 pending p.metrics in
      let runs =
        round_loop-aborted (policy.max_attempts + 1) policy w pending policy.initial_backoff
          p.metrics stop (omega arith) in
      ((idle m, none), runs, (omega arith, refl, refl))

module _ {ℓ κ} {A : Type ℓ} {R : Type κ} where
  abbrev Started : Processor A R → Type 0
  Started p = p.shutdown_started ≡ true

  notify_export-Started : (p : Processor A R) → Started p → Started (notify_export p)
  unfolding notify_export
  notify_export-Started p h = ground arith

  send_control-Started :
      (p : Processor A R) (m : ControlMessage R) → Started p → Started (send_control p m).0
  unfolding send_control
  send_control-Started p m h = ground arith

  module _ (show : OTelSdkError → Bytes) where
    exports-Started :
        (p : Processor A R) (o : Outside A) (turn : Turn A R)
        (build : Shared A × Result OTelSdkError (Unit {0}) → Turn A R)
        → (export_available show p.config o p.shared >>= λ r. some (build r)) ≡ some turn
        → ((r : Shared A × Result OTelSdkError (Unit {0})) → Started (build r).processor)
        → Started turn.processor
    exports-Started p o turn build h keep =
        elim (Option-cases (export_available show p.config o p.shared)) [
          | inl e ↦
              let stuck : none ≡ some turn = ap (λ e. e >>= λ r. some (build r)) (sym e) ∙ h in
              absurd (cc stuck)
          | inr (r, e) ↦
              let built : some (build r) ≡ some turn =
                ap (λ e. e >>= λ r. some (build r)) (sym e) ∙ h in
              rw (← eq_of_some built) (keep r)
        ]

    module _ (o : Outside A) (c : Closing) where
      handle_message-Started :
          (p : Processor A R) (m : ControlMessage R) (turn : Turn A R)
          → Started p
          → handle_message show o c p m ≡ some turn
          → Started turn.processor
      unfolding handle_message
      handle_message-Started p export turn v h = exports-Started p o turn _ h (λ r. v)
      handle_message-Started p force_flush turn v h = exports-Started p o turn _ h (λ r. v)
      handle_message-Started p shutdown turn v h = exports-Started p o turn _ h (λ r. v)
      handle_message-Started p (set_resource _) turn v h = rw (← eq_of_some h) v

      handle_oldest-Started :
          (p : Processor A R) (control : List (ControlMessage R)) (turn : Turn A R)
          → Started p
          → handle_oldest show o c p control ≡ some turn
          → Started turn.processor
      unfolding handle_oldest
      handle_oldest-Started p [] turn v h = absurd (cc h)
      handle_oldest-Started p (m ∷ rest) turn v h =
          handle_message-Started (record p { control = rest }) m turn v h

      handle_control-Started :
          (p : Processor A R) (received : Received) (turn : Turn A R)
          → Started p
          → handle_control show o c p received ≡ some turn
          → Started turn.processor
      unfolding handle_control
      handle_control-Started p message turn v h = handle_oldest-Started p p.control turn v h
      handle_control-Started p timeout turn v h = exports-Started p o turn _ h (λ r. v)
      handle_control-Started p disconnected turn v h = rw (← eq_of_some h) v

    step-Started : {p q : Processor A R} → ◌⇒◌ show p q → Started p → Started q
    unfolding force_flush_send set_resource_send on_start on_end shutdown_send
    step-Started (starts {p}) v = v
    step-Started (ends {p} span) v = rw v refl
    step-Started (flushes {p}) v =
        send_control-Started (record p { flush_requested = true }) force_flush v
    step-Started (shuts_down {p}) v = rw v refl
    step-Started (sets_resource {p} resource) v = send_control-Started p (set_resource resource) v
    step-Started (works {p} o c received turn calm goes_on runs) v =
        handle_control-Started o c p received turn v runs

    infix 4 ◌⇒*◌
    pub data ◌⇒*◌ : Processor A R → Processor A R → Type (ℓ ⊔ κ) where
      stay : {p : Processor A R} → p ⇒* p
      and_step : {p q r : Processor A R} → p ⇒* q → ◌⇒◌ show q r → p ⇒* r

    steps-Started : {p q : Processor A R} → p ⇒* q → Started p → Started q
    steps-Started stay v = v
    steps-Started (and_step before s) v = step-Started s (steps-Started before v)

    shutdown_send-Started : (p : Processor A R) → Started (shutdown_send p).0
    unfolding shutdown_send send_control
    shutdown_send-Started p = elim (Bool-cases p.shutdown_started) [
      | inl late ↦ rw late refl
      | inr early ↦ rw early (
          send_control-Started (record p { shutdown_started = true; flush_requested = true })
            shutdown refl)
    ]

    -- After a shutdown was asked for, whatever calls and rounds of the worker that no shutdown
    -- aborts follow: a further shutdown is refused and changes nothing, and a span that ends is
    -- counted as dropped by the shutdown, modulo 2^64, and not queued.
    pub shutdown_send-final :
        (p : Processor A R) {q : Processor A R} (span : A)
        → (shutdown_send p).0 ⇒* q
        → (shutdown_send q ≡ (q, err already_shutdown))
          × ((on_end q span).queue ≡ q.queue)
          × ((on_end q span).metrics.dropped_shutdown ≡ fetch_add q.metrics.dropped_shutdown 1)
    unfolding shutdown_send on_end
    shutdown_send-final p {q} span after =
        let late = steps-Started after (shutdown_send-Started p) in
        (rw late refl, rw late refl, rw late refl)
