-- ===== src/Batch/Steps.antt =====
-- The calls of the batch processor and the rounds of its worker as one step relation on the state,
-- and the states that they reach.
use otel_php_rust.Prelude.{
  ◌≡◌, sym, ap, ◌∙◌, true, false, some, List, [], ◌∷◌, arith, length, if-either, ◌>>=◌, eq_of_some,
  none, Option-cases, inl, inr, IfSome, IfSome-eq, IfSome-mono,
}
use otel_php_rust.Prelude.Bytes.{Bytes}
use otel_php_rust.Prelude.Results.{Result}
use otel_php_rust.Batch.Classify.{OTelSdkError}
use otel_php_rust.Batch.Config.{BatchProcessorConfig}
use otel_php_rust.Batch.Bounds.{InRange}
use otel_php_rust.Batch.Metrics.{Shared}
use otel_php_rust.Batch.Processor.{
  Processor, ControlMessage, export, force_flush, shutdown, set_resource, new, on_start, on_end,
  send_control, force_flush_send, shutdown_send, set_resource_send,
}
use otel_php_rust.Batch.Tallying.{Counted}
use otel_php_rust.Batch.Drained.{KeepsRequests}
use otel_php_rust.Batch.Draining.{IsCalmOutside, Empties, export_available-leaves}
use otel_php_rust.Batch.Worker.{Outside, export_available}
use otel_php_rust.Batch.Run.{
  Received, message, timeout, disconnected, Turn, Closing, handle_message, handle_oldest,
  handle_control,
}
use otel_php_rust.Batch.Accounting.{IsAccounted, Accounted, on_end-IsAccounted}

module _ {ℓ} {A : Type ℓ} (show : OTelSdkError → Bytes) where
  -- The channel is empty and its spans are counted.
  IsAccounted-drained :
      (config : BatchProcessorConfig) (s t : Shared A)
      → IsAccounted config s
      → t.queue ≡ []
      → Counted s.metrics t.metrics (length s.queue)
      → t.metrics.queue_depth ≡ 0
      → KeepsRequests s.metrics t.metrics
      → IsAccounted config t
  IsAccounted-drained config s t v empty counted depth keeps =
      let none_left : length t.queue ≡ 0 = ap length empty in ground arith

  -- An export that nothing aborts keeps the accounts.
  export_available-IsAccounted :
      (config : BatchProcessorConfig) (o : Outside A) (s : Shared A)
      → IsCalmOutside o
      → IsAccounted config s
      → IfSome (λ r. IsAccounted config r.0) (export_available show config o s)
  export_available-IsAccounted config o s calm v =
      IfSome-mono (λ (r : Shared A × Result OTelSdkError (Unit {0})). Empties show config o s r.0)
        (λ (r : Shared A × Result OTelSdkError (Unit {0})). IsAccounted config r.0)
        (export_available show config o s)
        (λ r (empty, counted, depth, keeps).
          IsAccounted-drained config s r.0 v empty counted depth keeps)
        (export_available-leaves show config o s v.depth (ground arith) calm (ground arith)
          (ground arith))

module _ {ℓ κ} {A : Type ℓ} {R : Type κ} (show : OTelSdkError → Bytes) where
  infix 4 ◌⇒◌
  -- A call of the processor, up to its wait for the worker, or a round of the worker that no
  -- shutdown aborts.
  pub data ◌⇒◌ : Processor A R → Processor A R → Type (ℓ ⊔ κ) where
    starts : {p : Processor A R} → p ⇒ on_start p
    ends : {p : Processor A R} (span : A) → p ⇒ on_end p span
    flushes : {p : Processor A R} → p ⇒ (force_flush_send p).0
    shuts_down : {p : Processor A R} → p ⇒ (shutdown_send p).0
    sets_resource : {p : Processor A R} (resource : R) → p ⇒ set_resource_send p resource
    works :
        {p : Processor A R} (o : Outside A) (c : Closing) (received : Received) (turn : Turn A R)
        → IsCalmOutside o
        → c.aborted ≡ false
        → handle_control show o c p received ≡ some turn
        → p ⇒ turn.processor

  pub data Reachable (config : BatchProcessorConfig) : Processor A R → Type (ℓ ⊔ κ) where
    created : Reachable config (new config)
    step : {p q : Processor A R} → Reachable config p → p ⇒ q → Reachable config q

  on_start-IsAccounted : (p : Processor A R) → Accounted p → Accounted (on_start p)
  unfolding on_start
  on_start-IsAccounted p v = ground arith

  send_control-shared :
      (p : Processor A R) (m : ControlMessage R) → (send_control p m).0.shared ≡ p.shared
  unfolding send_control
  send_control-shared p m = ground arith

  send_control-config :
      (p : Processor A R) (m : ControlMessage R) → (send_control p m).0.config ≡ p.config
  unfolding send_control
  send_control-config p m = ground arith

  send_control-IsAccounted :
      (p : Processor A R) (m : ControlMessage R) → Accounted p → Accounted (send_control p m).0
  send_control-IsAccounted p m v = rw (send_control-shared p m, send_control-config p m) v

  shutdown_send-IsAccounted : (p : Processor A R) → Accounted p → Accounted (shutdown_send p).0
  unfolding shutdown_send
  shutdown_send-IsAccounted p v =
      if-either (λ (r : Processor A R × Result OTelSdkError (Unit {0})). Accounted (r.0))
        p.shutdown_started v
        (send_control-IsAccounted (record p { shutdown_started = true; flush_requested = true })
          shutdown v)

  -- A round that exports and then builds its turn from what the export leaves.
  exports-IsAccounted :
      (p : Processor A R) (o : Outside A) (turn : Turn A R)
      (build : Shared A × Result OTelSdkError (Unit {0}) → Turn A R)
      → IsCalmOutside o
      → Accounted p
      → ((r : Shared A × Result OTelSdkError (Unit {0}))
          → IsAccounted p.config r.0
          → Accounted (build r).processor)
      → (export_available show p.config o p.shared >>= λ r. some (build r)) ≡ some turn
      → Accounted turn.processor
  exports-IsAccounted p o turn build calm v keep h =
      let exported = export_available show p.config o p.shared in
      elim (Option-cases exported) [
        | inl e ↦
            let stuck : none ≡ some turn = ap (λ e. e >>= λ r. some (build r)) (sym e) ∙ h in
            absurd (cc stuck)
        | inr (r, runs) ↦
            let built : some (build r) ≡ some turn =
              ap (λ e. e >>= λ r. some (build r)) (sym runs) ∙ h in
            rw (← eq_of_some built) (
              keep r (
                IfSome-eq
                  (λ (r : Shared A × Result OTelSdkError (Unit {0})). IsAccounted p.config r.0)
                  exported (export_available-IsAccounted show p.config o p.shared calm v) runs))
      ]

  module _ (o : Outside A) (c : Closing) (calm : IsCalmOutside o)
      (goes_on : c.aborted ≡ false) where
    handle_message-IsAccounted :
        (p : Processor A R) (m : ControlMessage R) (turn : Turn A R)
        → Accounted p
        → handle_message show o c p m ≡ some turn
        → Accounted turn.processor
    unfolding handle_message
    handle_message-IsAccounted p export turn v h =
        exports-IsAccounted p o turn _ calm v (λ r w. w) h
    handle_message-IsAccounted p force_flush turn v h =
        exports-IsAccounted p o turn _ calm v (λ r w. w) h
    handle_message-IsAccounted p shutdown turn v h =
        exports-IsAccounted p o turn _ calm v (λ r w. rw goes_on w) h
    handle_message-IsAccounted p (set_resource _) turn v h = rw (← eq_of_some h) v

    handle_oldest-IsAccounted :
        (p : Processor A R) (control : List (ControlMessage R)) (turn : Turn A R)
        → Accounted p
        → handle_oldest show o c p control ≡ some turn
        → Accounted turn.processor
    unfolding handle_oldest
    handle_oldest-IsAccounted p [] turn v h = absurd (cc h)
    handle_oldest-IsAccounted p (m ∷ rest) turn v h =
        handle_message-IsAccounted (record p { control = rest }) m turn v h

    handle_control-IsAccounted :
        (p : Processor A R) (received : Received) (turn : Turn A R)
        → Accounted p
        → handle_control show o c p received ≡ some turn
        → Accounted turn.processor
    unfolding handle_control
    handle_control-IsAccounted p message turn v h = handle_oldest-IsAccounted p p.control turn v h
    handle_control-IsAccounted p timeout turn v h =
        exports-IsAccounted p o turn _ calm v (λ r w. w) h
    handle_control-IsAccounted p disconnected turn v h = rw (← eq_of_some h) v

  step-IsAccounted : {p q : Processor A R} → p ⇒ q → Accounted p → Accounted q
  unfolding force_flush_send set_resource_send
  step-IsAccounted (starts {p}) v = on_start-IsAccounted p v
  step-IsAccounted (ends {p} span) v = on_end-IsAccounted p span v
  step-IsAccounted (flushes {p}) v =
      send_control-IsAccounted (record p { flush_requested = true }) force_flush v
  step-IsAccounted (shuts_down {p}) v = shutdown_send-IsAccounted p v
  step-IsAccounted (sets_resource {p} resource) v =
      send_control-IsAccounted p (set_resource resource) v
  step-IsAccounted (works {p} o c received turn calm goes_on runs) v =
      handle_control-IsAccounted o c calm goes_on p received turn v runs

  -- In every state that the calls of the processor and the rounds of its worker reach in any order
  -- from a configuration within its bounds, where no round is aborted: the ended spans are, modulo
  -- 2^64, those that were queued and those dropped as the queue was full or the processor shut
  -- down; the queued ones are those that wait, those exported and those dropped for an export
  -- failure; the depth is the number that wait; and neither it nor the high watermark is above the
  -- queue's size.
  pub Reachable-IsAccounted :
      {config : BatchProcessorConfig} {p : Processor A R}
      → InRange config
      → Reachable config p
      → IsAccounted p.config p.shared
  unfolding new
  Reachable-IsAccounted within created = ground arith
  Reachable-IsAccounted within (step before s) =
      step-IsAccounted s (Reachable-IsAccounted within before)
