-- ===== src/Batch/GrpcStatus.antt =====
-- The classification of the messages that tonic writes for a gRPC status.
use otel_php_rust.Prelude.{
  ℕ, ◌≡◌, refl, ◌∙◌, Bool, true, false, ◌||◌, some, [], ◌∷◌, ◌++◌, arith, ◌==◌, if◌then◌else◌, any,
}
use otel_php_rust.Prelude.Bytes.{Bytes, trim_start}
use otel_php_rust.Batch.Classify.{
  ExportErrorKind, internal_failure, retryable, terminal, take_until, is_retryable_code,
  is_unknown_code, is_transport_failure, classify_code, classify_grpc_status,
  classify_export_message, classify_export_error, grpc_message,
}

abbrev is_delimiter : ℕ → Bool
is_delimiter c = c == b'\'' || c == b','

take_until-append :
    (p : ℕ → Bool) (xs : Bytes) (y : ℕ) (ys : Bytes)
    → any p xs ≡ false
    → p y ≡ true
    → take_until p (xs ++ (y ∷ ys)) ≡ xs
unfolding take_until
take_until-append p [] y ys h k = rw k
take_until-append p (x ∷ xs) y ys h k = ground (arith, take_until-append p xs y ys)

trim_start_id : (p : ℕ → Bool) (x : ℕ) (xs : Bytes) → p x ≡ false → trim_start p (x ∷ xs) ≡ x ∷ xs
unfolding trim_start
trim_start_id p x xs h = rw h

classify_grpc_status-message :
    (first : ℕ) (code rest : Bytes)
    → any is_delimiter (first ∷ code) ≡ false
    → classify_grpc_status (grpc_message (first ∷ code) rest)
      ≡ some (classify_code (grpc_message (first ∷ code) rest) (first ∷ code))
classify_grpc_status-message first code rest h =
    let plain : (first == b'\'') ≡ false = ground arith in
    unfold classify_grpc_status in
    rw plain (rw (take_until-append is_delimiter (first ∷ code) b'\'' rest h refl) refl)

classify_code_lem :
    (message code : Bytes)
    → classify_code message code ≡ (
        if is_retryable_code code
        then retryable
        else if is_unknown_code code
        then (if is_transport_failure message then retryable else terminal)
        else terminal)
classify_code_lem message code = unfold classify_code in refl

classify_message_of-grpc :
    (message : Bytes) {kind : ExportErrorKind}
    → classify_grpc_status message ≡ some kind
    → classify_export_error (internal_failure message) ≡ kind
classify_message_of-grpc message h =
    unfold classify_export_error classify_export_message in rw (h, classify_export_message) refl

-- A gRPC status whose quoted code is not empty and holds no quote or comma is decided by that
-- code: the listed codes are retried, an unknown one only if the message tells of a transport
-- failure, and every other is final, whatever text follows.
pub classify_export_error-grpc :
    (first : ℕ) (code rest : Bytes)
    → any (λ c. c == b'\'' || c == b',') (first ∷ code) ≡ false
    → classify_export_error (internal_failure (grpc_message (first ∷ code) rest)) ≡ (
        if is_retryable_code (first ∷ code)
        then retryable
        else if is_unknown_code (first ∷ code)
        then (if is_transport_failure (grpc_message (first ∷ code) rest)
            then retryable
            else terminal)
        else terminal)
classify_export_error-grpc first code rest h =
    classify_message_of-grpc _ (classify_grpc_status-message first code rest h)
    ∙ classify_code_lem (grpc_message (first ∷ code) rest) (first ∷ code)
