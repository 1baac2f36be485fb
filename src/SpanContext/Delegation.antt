-- ===== src/SpanContext/Delegation.antt =====
-- The contexts that `create_context` of otel/src/trace/span_context.rs returns, and an object of
-- another class that hands each of its methods on to one of them.
use otel_php_rust.Prelude.{
  ℕ, Bool, true, false, Option, none, some, List, ◌∷◌, ◌≡◌, refl, ap, ◌∙◌, if◌then◌else◌, get_elem?,
  get_or, inl, inr, Bool-cases,
}
use otel_php_rust.Prelude.Bytes.{Bytes}
use otel_php_rust.Prelude.Results.{Result, ok, err, Ensures, Ensures-any, >>=-Ensures, Ensures-eq}
use otel_php_rust.Prelude.Signed.{ℤ}
use otel_php_rust.Attributes.{ZVal, string, long, bool, other, text, to_str}
use otel_php_rust.Attributes.Conversion.{arg}
use otel_php_rust.SpanContext.{
  valid_hex_id, id_of, both_valid, IdCrate, SpanContextState, PhpError, Engine, TraceStateCrate,
  Answers, native, foreign, expect_text, with_count, trace_state_from_value, trace_state_of_object,
  new_state, create_context, span_context_from_object, trace_id_text, trace_id_binary, span_id_text,
  span_id_binary,
}
use otel_php_rust.SpanContext.Ids.{
  zeros, IdLaws, hex_of, print-id_of, hex_of-decode_id, and_left, and_right, valid_hex_id-zeros,
  print-from_hex,
}

abbrev pub null : ZVal
null = other 0

module _ {T S W : Type 0} (engine : Engine) (states : TraceStateCrate W) (traces : IdCrate T)
    (spans : IdCrate S) (trace_laws : IdLaws 32 traces) (span_laws : IdLaws 16 spans) where
  -- What the methods of the context print, for given ids.
  abbrev pub Prints : Bytes → Bytes → SpanContextState T S W → Type 0
  Prints trace_id span_id s =
      (trace_id_text engine states traces spans s ≡ trace_id)
      × (hex_of (trace_id_binary engine states traces spans s) ≡ trace_id)
      × (span_id_text engine states traces spans s ≡ span_id)
      × (hex_of (span_id_binary engine states traces spans s) ≡ span_id)

  pub new_state-Prints :
      (trace_id span_id : Bytes) (flags : ℤ) (remote : Bool) (w : W × Option ZVal)
      → Prints
          (if both_valid trace_id span_id then trace_id else zeros 32)
          (if both_valid trace_id span_id then span_id else zeros 16)
          (new_state engine states traces spans trace_id span_id flags remote w)
  unfolding new_state trace_id_binary span_id_binary both_valid
  new_state-Prints trace_id span_id flags remote w =
      let valid = both_valid trace_id span_id in
      let trace_valid = and_left (valid_hex_id trace_id 32) (valid_hex_id span_id 16) in
      let span_valid = and_right (valid_hex_id trace_id 32) (valid_hex_id span_id 16) in
      let trace_text = print-id_of 32 traces trace_laws valid trace_id trace_valid in
      let span_text = print-id_of 16 spans span_laws valid span_id span_valid in
      (
        trace_text,
        rw trace_text (hex_of-decode_id 16 valid trace_id trace_valid),
        span_text,
        rw span_text (hex_of-decode_id 8 valid span_id span_valid),
      )

  -- A context that `create_context` makes of two texts prints them as its ids if both are valid,
  -- and zeros for both if one is not; the binary ids are the bytes of these hexadecimal digits.
  pub create_context-Prints :
      (current : Bytes) (trace_id span_id : Bytes) (rest : List ZVal) (remote : Bool)
      (s : SpanContextState T S W)
      → create_context engine states traces spans current
          (string (text trace_id) ∷ string (text span_id) ∷ rest)
          remote
        ≡ ok s
      → Prints
          (if both_valid trace_id span_id then trace_id else zeros 32)
          (if both_valid trace_id span_id then span_id else zeros 16)
          s
  unfolding create_context arg to_str
  create_context-Prints current trace_id span_id rest remote s h =
      Ensures-eq
        (Prints (if both_valid trace_id span_id then trace_id else zeros 32)
          (if both_valid trace_id span_id then span_id else zeros 16))
        _
        (>>=-Ensures (λ _. Unit {0}) _
          (trace_state_from_value engine states traces spans (get_elem? rest 1)) _
          (Ensures-any (trace_state_from_value engine states traces spans (get_elem? rest 1)))
          (λ w _. new_state-Prints trace_id span_id _ remote w))
        h

  -- What an object returns that hands its methods on to a context.
  abbrev pub answers_of : SpanContextState T S W → Answers
  answers_of s = record {
    get_trace_id = ok (string (text (trace_id_text engine states traces spans s)));
    get_span_id = ok (string (text (span_id_text engine states traces spans s)));
    get_trace_flags = ok (long s.php_trace_flags);
    get_is_remote = ok (bool s.context.is_remote);
    get_trace_state = ok (get_or s.php_trace_state null);
  }

  abbrev pub Delegates : SpanContextState T S W → Type 0
  Delegates s =
      span_context_from_object engine states traces spans (foreign (answers_of s))
      ≡ span_context_from_object engine states traces spans (native s)

  -- A value that has been read is read again in the same way.
  abbrev pub Rereads : W × Option ZVal → Type 0
  Rereads w = trace_state_from_value engine states traces spans (some (get_or w.1 null)) ≡ ok w

  pub trace_state_of_object-value :
      (value : ZVal)
      → Ensures (λ w. w.1 ≡ some value) (trace_state_of_object engine states traces spans value)
  trace_state_of_object-value value =
      >>=-Ensures (λ _. Unit {0}) (λ w. w.1 ≡ some value) _ _
        (Ensures-any (engine.call_to_string value))
        (λ returned _.
          >>=-Ensures (λ _. Unit {0}) (λ w. w.1 ≡ some value) _ _
            (Ensures-any (expect_text returned)) (λ header _. refl))

  pub both_valid-zeros : both_valid (zeros 32) (zeros 16) ≡ false
  unfolding both_valid
  both_valid-zeros = rw (valid_hex_id-zeros 32 32) refl

  pub both_valid-again :
      (trace_id span_id : Bytes)
      → both_valid
          (if both_valid trace_id span_id then trace_id else zeros 32)
          (if both_valid trace_id span_id then span_id else zeros 16)
        ≡ both_valid trace_id span_id
  both_valid-again trace_id span_id = elim (Bool-cases (both_valid trace_id span_id)) [
    | inl e ↦ rw e e
    | inr e ↦ rw e both_valid-zeros
  ]

  pub id_of-again :
      {I : Type 0} (size : ℕ) (ids : IdCrate I) (again valid : Bool) (s : Bytes)
      → IdLaws size ids
      → again ≡ valid
      → (valid ≡ true → valid_hex_id s size ≡ true)
      → id_of ids again (ids.to_string (id_of ids valid s)) ≡ id_of ids valid s
  unfolding id_of
  id_of-again size ids again true s laws e h = rw (e, print-from_hex size ids laws s (h refl)) refl
  id_of-again size ids again false s laws e h = rw e refl

  -- The ids that are printed are valid if the ids that were given are.
  pub both_valid-printed :
      (trace_id span_id : Bytes)
      → both_valid
          (traces.to_string (id_of traces (both_valid trace_id span_id) trace_id))
          (spans.to_string (id_of spans (both_valid trace_id span_id) span_id))
        ≡ both_valid trace_id span_id
  unfolding both_valid
  both_valid-printed trace_id span_id =
      let trace_valid = and_left (valid_hex_id trace_id 32) (valid_hex_id span_id 16) in
      let span_valid = and_right (valid_hex_id trace_id 32) (valid_hex_id span_id 16) in
      rw
        (
          print-id_of 32 traces trace_laws (both_valid trace_id span_id) trace_id trace_valid,
          print-id_of 16 spans span_laws (both_valid trace_id span_id) span_id span_valid,
        )
        (both_valid-again trace_id span_id)

  pub new_state-Delegates :
      (trace_id span_id : Bytes) (flags : ℤ) (remote : Bool) (w : W × Option ZVal)
      → Rereads w
      → Delegates (new_state engine states traces spans trace_id span_id flags remote w)
  unfolding new_state span_context_from_object to_str both_valid
  new_state-Delegates trace_id span_id flags remote w h =
      let valid = both_valid trace_id span_id in
      let trace_valid = and_left (valid_hex_id trace_id 32) (valid_hex_id span_id 16) in
      let span_valid = and_right (valid_hex_id trace_id 32) (valid_hex_id span_id 16) in
      let again = both_valid-printed trace_id span_id in
      rw
        (
          h,
          id_of-again 32 traces _ valid trace_id trace_laws again trace_valid,
          id_of-again 16 spans _ valid span_id span_laws again span_valid,
        )
        refl

  reread_object :
      (value : ZVal)
      → engine.is_object value ≡ true
      → (r : Result PhpError (W × Option ZVal))
      → trace_state_of_object engine states traces spans value ≡ r
      → Ensures (λ w. w.1 ≡ some value) r
      → Ensures Rereads r
  unfolding trace_state_from_value
  reread_object value e (ok w) read kept =
      ap (λ v. trace_state_from_value engine states traces spans (some (get_or v null))) kept
      ∙ rw e read
  reread_object value e (err _) read kept = tt

  pub trace_state_from_value-Rereads :
      (value : Option ZVal)
      → engine.is_object null ≡ false
      → Ensures Rereads (trace_state_from_value engine states traces spans value)
  unfolding trace_state_from_value
  trace_state_from_value-Rereads none h = rw h refl
  trace_state_from_value-Rereads (some value) h = elim (Bool-cases (engine.is_object value)) [
    | inl e ↦ rw e (reread_object value e _ refl (trace_state_of_object-value value))
    | inr e ↦ rw (e, h) refl
  ]

  -- If `create_context` returns a span context, `span_context_from_object` reads the same context
  -- off it as off an object of another class that answers each method with the context's own
  -- answer, where null is no object.
  pub create_context-Delegates :
      (current : Bytes) (arguments : List ZVal) (remote : Bool)
      → engine.is_object null ≡ false
      → (s : SpanContextState T S W)
      → create_context engine states traces spans current arguments remote ≡ ok s
      → Delegates s
  unfolding create_context
  create_context-Delegates current arguments remote h s created =
      Ensures-eq Delegates _
        (>>=-Ensures (λ _. Unit {0}) Delegates _ _
          (Ensures-any (with_count (arg current arguments 0)))
          (λ trace_value _.
            >>=-Ensures (λ _. Unit {0}) Delegates _ _ (Ensures-any (expect_text trace_value))
              (λ trace_id _.
                >>=-Ensures (λ _. Unit {0}) Delegates _ _
                  (Ensures-any (with_count (arg current arguments 1)))
                  (λ span_value _.
                    >>=-Ensures (λ _. Unit {0}) Delegates _ _ (Ensures-any (expect_text span_value))
                      (λ span_id _.
                        >>=-Ensures Rereads Delegates _ _
                          (trace_state_from_value-Rereads (get_elem? arguments 3) h)
                          (λ w. new_state-Delegates trace_id span_id _ remote w))))))
        created
