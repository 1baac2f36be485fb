-- ===== src/SpanContext.antt =====
-- otel/src/trace/span_context.rs: the ids of a span context, the context that PHP code creates, and
-- the one that is read off a PHP object. The ids, the trace state and the test of a context are
-- those of the crate opentelemetry; the engine's objects are a parameter too.
pub mod Ids
pub mod Delegation
mod Examples
use otel_php_rust.Prelude.{
  ℕ, ◌+◌, ◌-◌, ◌*◌, ◌%◌, Bool, true, false, not, ◌&&◌, ◌||◌, Option, none, some, List, [], ◌∷◌,
  ◌==◌, if◌then◌else◌, length, get_elem?, all, any, get_or,
}
use otel_php_rust.Prelude.Bytes.{Bytes, within, is_ascii_digit}
use otel_php_rust.Prelude.Results.{Result, ok, err, ◌>>=◌}
use otel_php_rust.Prelude.Signed.{ℤ, pos, negsuc}
use otel_php_rust.Attributes.{ZVal, string, long, bool, other, to_str}
use otel_php_rust.Attributes.Conversion.{ArgumentCountError, arg}

abbrev pub is_hex_byte : ℕ → Bool
is_hex_byte byte = is_ascii_digit byte || within b'a' b'f' byte

unfoldable pub valid_hex_id : Bytes → ℕ → Bool
valid_hex_id value size =
    length value == size && (all is_hex_byte value && any (λ byte. not (byte == b'0')) value)

abbrev pub digit : ℕ → ℕ
digit byte =
    if is_ascii_digit byte
    then byte - b'0'
    else if within b'a' b'f' byte
    then byte - b'a' + 10
    else 0

-- A digit is below 16, so `digit << 4 | digit` is this sum.
unfoldable pub decode_hex : Bytes → Bytes
decode_hex [] = []
decode_hex (high ∷ []) = []
decode_hex (high ∷ low ∷ rest) = (digit high * 16 + digit low) ∷ decode_hex rest

-- `as u8` of an `i64`.
unfoldable pub as_u8 : ℤ → ℕ
as_u8 (pos n) = n % 256
as_u8 (negsuc n) = 255 - n % 256

-- `TraceId` or `SpanId` of the crate.
pub record IdCrate (I : Type 0) : Type 0 where
  pub from_hex : Bytes → Option I
  pub to_string : I → Bytes
  pub invalid : I

pub record SpanContext (T S W : Type 0) : Type 0 where
  pub trace_id : T
  pub span_id : S
  pub trace_flags : ℕ
  pub is_remote : Bool
  pub trace_state : W

pub record SpanContextState (T S W : Type 0) : Type 0 where
  pub context : SpanContext T S W
  pub php_trace_state : Option ZVal
  pub php_trace_flags : ℤ

pub data PhpError : Type 0 where
  argument_count : ArgumentCountError → PhpError
  expect_type not_utf8 : PhpError
  thrown : ℕ → PhpError

-- What the engine does: whether a value is an object, and what its method `toString` returns.
pub record Engine : Type 0 where
  pub is_object : ZVal → Bool
  pub call_to_string : ZVal → Result PhpError ZVal

-- The trace state of the crate.
pub record TraceStateCrate (W : Type 0) : Type 0 where
  pub from_str : Bytes → Option W
  pub default : W

-- What the methods of an object of another class return.
pub record Answers : Type 0 where
  pub get_trace_id : Result PhpError ZVal
  pub get_span_id : Result PhpError ZVal
  pub get_trace_flags : Result PhpError ZVal
  pub get_is_remote : Result PhpError ZVal
  pub get_trace_state : Result PhpError ZVal

pub data SpanContextObject (T S W : Type 0) : Type 0 where
  native : SpanContextState T S W → SpanContextObject T S W
  foreign : Answers → SpanContextObject T S W

abbrev pub utf8 : Option Bytes → Result PhpError Bytes
utf8 none = err not_utf8
utf8 (some s) = ok s

-- `expect_z_str()?.to_str()?`.
abbrev pub expect_text : ZVal → Result PhpError Bytes
expect_text (string z) = utf8 (to_str z)
expect_text _ = err expect_type

abbrev pub as_long : ZVal → Option ℤ
as_long (long n) = some n
as_long _ = none

abbrev pub as_bool : ZVal → Option Bool
as_bool (bool b) = some b
as_bool _ = none

abbrev pub with_count {ℓ} : {A : Type ℓ} → Result ArgumentCountError A → Result PhpError A
with_count (ok a) = ok a
with_count (err e) = err (argument_count e)

abbrev pub long_at : List ZVal → ℕ → ℤ
long_at arguments position = elim (get_elem? arguments position) [
  | none ↦ pos 0
  | some value ↦ get_or (as_long value) (pos 0)
]

-- `from_hex(id).unwrap_or(INVALID)` if `valid`, else `INVALID`.
unfoldable pub id_of : {I : Type 0} → IdCrate I → Bool → Bytes → I
id_of ids valid id = if valid then get_or (ids.from_hex id) ids.invalid else ids.invalid

unfoldable pub both_valid : Bytes → Bytes → Bool
both_valid trace_id span_id = valid_hex_id trace_id 32 && valid_hex_id span_id 16

module _ {T S W : Type 0} (engine : Engine) (states : TraceStateCrate W) (traces : IdCrate T)
    (spans : IdCrate S) where
  unfoldable pub otel_trace_state_from_header : Bytes → W
  otel_trace_state_from_header header = get_or (states.from_str header) states.default

  -- The case of an object.
  abbrev pub trace_state_of_object : ZVal → Result PhpError (W × Option ZVal)
  trace_state_of_object value = do
    returned ← engine.call_to_string value
    header ← expect_text returned
    ok (otel_trace_state_from_header header, some value)

  unfoldable pub trace_state_from_value : Option ZVal → Result PhpError (W × Option ZVal)
  trace_state_from_value none = ok (states.default, none)
  trace_state_from_value (some value) =
      if engine.is_object value then trace_state_of_object value else ok (states.default, none)

  -- What `create_context` makes of its arguments.
  unfoldable pub new_state : Bytes → Bytes → ℤ → Bool → W × Option ZVal → SpanContextState T S W
  new_state trace_id span_id flags remote states = record {
    context = record {
      trace_id = id_of traces (both_valid trace_id span_id) trace_id;
      span_id = id_of spans (both_valid trace_id span_id) span_id;
      trace_flags = as_u8 flags;
      is_remote = remote;
      trace_state = states.0;
    };
    php_trace_state = states.1;
    php_trace_flags = flags;
  }

  -- `current` is the name of the function that runs.
  unfoldable pub create_context :
      Bytes → List ZVal → Bool → Result PhpError (SpanContextState T S W)
  create_context current arguments remote = do
    trace_value ← with_count (arg current arguments 0)
    trace_id ← expect_text trace_value
    span_value ← with_count (arg current arguments 1)
    span_id ← expect_text span_value
    trace_states ← trace_state_from_value (get_elem? arguments 3)
    ok (new_state trace_id span_id (long_at arguments 2) remote trace_states)

  unfoldable pub span_context_from_object :
      SpanContextObject T S W → Result PhpError (SpanContext T S W)
  span_context_from_object (native state) = ok state.context
  span_context_from_object (foreign answers) = do
    trace_value ← answers.get_trace_id
    trace_id ← expect_text trace_value
    span_value ← answers.get_span_id
    span_id ← expect_text span_value
    flags ← answers.get_trace_flags
    remote ← answers.get_is_remote
    state_value ← answers.get_trace_state
    trace_states ← trace_state_from_value (some state_value)
    ok (record {
      trace_id = id_of traces (both_valid trace_id span_id) trace_id;
      span_id = id_of spans (both_valid trace_id span_id) span_id;
      trace_flags = as_u8 (get_or (as_long flags) (pos 0));
      is_remote = get_or (as_bool remote) false;
      trace_state = trace_states.0;
    })

  -- The methods getTraceId, getTraceIdBinary, getSpanId and getSpanIdBinary.
  abbrev pub trace_id_text : SpanContextState T S W → Bytes
  trace_id_text this = traces.to_string this.context.trace_id

  unfoldable pub trace_id_binary : SpanContextState T S W → Bytes
  trace_id_binary this = decode_hex (trace_id_text this)

  abbrev pub span_id_text : SpanContextState T S W → Bytes
  span_id_text this = spans.to_string this.context.span_id

  unfoldable pub span_id_binary : SpanContextState T S W → Bytes
  span_id_binary this = decode_hex (span_id_text this)

-- A state of the class that was not created by a method: `Default`.
abbrev pub default_state : {T S W : Type 0} → IdCrate T → IdCrate S → W → SpanContextState T S W
default_state traces spans empty = record {
  context = record {
    trace_id = traces.invalid;
    span_id = spans.invalid;
    trace_flags = 0;
    is_remote = false;
    trace_state = empty;
  };
  php_trace_state = none;
  php_trace_flags = pos 0;
}

-- `getInvalid` on the static property: the object that it returns and the property's new value. `made`
-- is a new object; only an object in the property counts.
unfoldable pub get_invalid {ℓ} : {V : Type ℓ} → Option V → V → V × Option V
get_invalid none made = (made, some made)
get_invalid (some value) made = (value, some value)
