-- ===== src/SpanContext/Examples.antt =====
-- Tests and examples for otel/src/trace/span_context.rs.
use otel_php_rust.Prelude.{ℕ, Bool, true, false, none, some, List, [], ◌∷◌, ◌≡◌, refl, ◌==◌}
use otel_php_rust.Prelude.Bytes.{Bytes, codes}
use otel_php_rust.Prelude.Results.{Result, ok, err}
use otel_php_rust.Prelude.Signed.{pos, negsuc}
use otel_php_rust.Attributes.{ZVal, string, long, other, text, to_str}
use otel_php_rust.Attributes.Conversion.{arg}
use otel_php_rust.SpanContext.{
  valid_hex_id, decode_hex, as_u8, IdCrate, PhpError, expect_type, Engine, TraceStateCrate,
  trace_state_from_value, new_state, create_context, get_invalid, SpanContextState, both_valid,
  otel_trace_state_from_header,
}
use otel_php_rust.SpanContext.Ids.{IdLaws, zeros}
use otel_php_rust.SpanContext.Delegation.{
  Prints, Delegates, create_context-Prints, create_context-Delegates,
}

abbrev sample_trace_id : Bytes
sample_trace_id = codes "0af7651916cd43dd8448eb211c80319c"

abbrev sample_span_id : Bytes
sample_span_id = codes "b7ad6b7169203331"

valid_hex_id-sample : valid_hex_id sample_trace_id 32 ≡ true
unfolding valid_hex_id
valid_hex_id-sample = refl

valid_hex_id-uppercase : valid_hex_id (codes "B7AD6B7169203331") 16 ≡ false
unfolding valid_hex_id
valid_hex_id-uppercase = refl

decode_hex-two : decode_hex (codes "0af") ≡ 10 ∷ []
unfolding decode_hex
decode_hex-two = refl

as_u8-minus_one : as_u8 (negsuc 0) ≡ 255
unfolding as_u8
as_u8-minus_one = refl

-- Ids that are kept as their texts.
abbrev sample_ids : ℕ → IdCrate Bytes
sample_ids size = record { from_hex = some; to_string = λ s. s; invalid = zeros size }

sample_laws : (size : ℕ) → IdLaws size (sample_ids size)
sample_laws size = record { print_from_hex = λ s h. refl; print_invalid = refl }

-- The one object prints as a trace state.
abbrev is_sample_object : ZVal → Bool
is_sample_object (other n) = n == 1
is_sample_object _ = false

abbrev sample_engine : Engine
sample_engine = record {
  is_object = is_sample_object;
  call_to_string = λ value. ok (string (text (codes "a=b")));
}

abbrev sample_states : TraceStateCrate Bytes
sample_states = record { from_str = some; default = [] }

abbrev sample_arguments : List ZVal
sample_arguments =
    string (text sample_trace_id) ∷ string (text sample_span_id) ∷ long (negsuc 0) ∷ other 1 ∷ []

abbrev sample_context : List ZVal → Result PhpError (SpanContextState Bytes Bytes Bytes)
sample_context arguments =
    create_context sample_engine sample_states (sample_ids 32) (sample_ids 16) (codes "create")
      arguments true

create_context-type : sample_context (long (pos 1) ∷ []) ≡ err expect_type
unfolding create_context arg
create_context-type = refl

create_context-Prints_example :
    Prints sample_engine sample_states
      (sample_ids 32)
      (sample_ids 16)
      (sample_laws 32)
      (sample_laws 16)
      sample_trace_id
      sample_span_id
      (new_state sample_engine sample_states
        (sample_ids 32)
        (sample_ids 16)
        sample_trace_id
        sample_span_id
        (negsuc 0)
        true
        (codes "a=b", some (other 1)))
unfolding create_context arg to_str trace_state_from_value both_valid valid_hex_id
    otel_trace_state_from_header
create_context-Prints_example =
    create_context-Prints sample_engine sample_states (sample_ids 32) (sample_ids 16)
      (sample_laws 32) (sample_laws 16) (codes "create") sample_trace_id sample_span_id
      (long (negsuc 0) ∷ other 1 ∷ []) true _ refl

create_context-Delegates_example :
    Delegates sample_engine sample_states
      (sample_ids 32)
      (sample_ids 16)
      (sample_laws 32)
      (sample_laws 16)
      (new_state sample_engine sample_states
        (sample_ids 32)
        (sample_ids 16)
        sample_trace_id
        sample_span_id
        (negsuc 0)
        true
        (codes "a=b", some (other 1)))
unfolding create_context arg to_str trace_state_from_value otel_trace_state_from_header
create_context-Delegates_example =
    create_context-Delegates sample_engine sample_states (sample_ids 32) (sample_ids 16)
      (sample_laws 32) (sample_laws 16) (codes "create") sample_arguments true refl _ refl

get_invalid-twice :
    {V : Type 0} (first second : V)
    → get_invalid (get_invalid none first).1 second ≡ (first, some first)
unfolding get_invalid
get_invalid-twice first second = refl
