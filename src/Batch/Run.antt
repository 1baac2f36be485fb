-- ===== src/Batch/Run.antt =====
-- One round of the loop of `run_worker` in otel/src/trace/batch_processor.rs.
use otel_php_rust.Prelude.{
  Bool, true, false, Option, none, some, List, [], ◌∷◌, if◌then◌else◌, ◌>>=◌,
}
use otel_php_rust.Prelude.Bytes.{Bytes}
use otel_php_rust.Prelude.Results.{Result, ok, err}
use otel_php_rust.Batch.Classify.{OTelSdkError}
use otel_php_rust.Batch.Take.{discard_remaining}
use otel_php_rust.Batch.Worker.{Outside, export_available}
use otel_php_rust.Batch.Processor.{
  Processor, ControlMessage, export, force_flush, shutdown, set_resource,
}

-- What `recv_timeout` on the control channel gives; the message is the oldest one.
pub data Received : Type 0 where
  message timeout disconnected : Received

-- What a round leaves: the state, the answer to the caller that waits, and whether the loop goes on.
pub record Turn {ℓ κ} (A : Type ℓ) (R : Type κ) : Type (ℓ ⊔ κ) where
  pub processor : Processor A R
  pub answer : Option (Result OTelSdkError (Unit {0}))
  pub running : Bool

-- What the exporter answers to `force_flush` and `shutdown_with_timeout`, and the abort flag as the
-- worker reads it at a shutdown.
pub record Closing : Type 0 where
  pub flushed : Result OTelSdkError (Unit {0})
  pub closed : Result OTelSdkError (Unit {0})
  pub aborted : Bool

-- `Result::and_then` with a call that is made only after success.
abbrev pub and_then :
    Result OTelSdkError (Unit {0}) → Result OTelSdkError (Unit {0}) → Result OTelSdkError (Unit {0})
and_then (ok _) next = next
and_then (err e) next = err e

module _ {ℓ κ} {A : Type ℓ} {R : Type κ} (show : OTelSdkError → Bytes) (o : Outside A)
    (c : Closing) where
  -- The receivers are dropped with the worker's loop.
  abbrev stop : Processor A R → Processor A R
  stop p = record p { worker_alive = false }

  unfoldable pub handle_message : Processor A R → ControlMessage R → Option (Turn A R)
  handle_message p export = do
    r ← export_available show p.config o p.shared
    some (record {
      processor = record p { shared = r.0; export_pending = false };
      answer = none;
      running = true;
    })
  handle_message p force_flush = do
    r ← export_available show p.config o p.shared
    some (record {
      processor = record p { shared = r.0; flush_requested = false };
      answer = some (and_then r.1 c.flushed);
      running = true;
    })
  handle_message p shutdown = do
    r ← export_available show p.config o p.shared
    some (record {
      processor = stop (record p { shared = if c.aborted then discard_remaining r.0 else r.0 });
      answer = some (and_then r.1 c.closed);
      running = false;
    })
  handle_message p (set_resource _) = some (record { processor = p; answer = none; running = true })

  -- The oldest message of the channel; there is none to receive from an empty one.
  unfoldable pub handle_oldest : Processor A R → List (ControlMessage R) → Option (Turn A R)
  unfolding handle_message
  handle_oldest p [] = none
  handle_oldest p (m ∷ rest) = handle_message (record p { control = rest }) m

  unfoldable pub handle_control : Processor A R → Received → Option (Turn A R)
  unfolding handle_oldest
  handle_control p message = handle_oldest p p.control
  handle_control p timeout = do
    r ← export_available show p.config o p.shared
    some (record { processor = record p { shared = r.0 }; answer = none; running = true })
  handle_control p disconnected =
      some (record { processor = stop p; answer = none; running = false })
