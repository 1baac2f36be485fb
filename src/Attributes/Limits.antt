-- ===== src/Attributes/Limits.antt =====
-- What a request reads of its limits, and the table of interned keys.
use Prim.Native.String.{String}
use otel_php_rust.Prelude.{
  ℕ, ◌≤◌, ◌<◌, ◌%◌, ◌^◌, Bool, true, false, List, [], ◌∷◌, ◌≡◌, refl, sym, arith, inl, inr, length,
  leb, leb→le, Bool-cases, Option-cases, is_empty,
}
use otel_php_rust.Prelude.Bytes.{bytes_eq_refl}
use otel_php_rust.Batch.Config.{
  EnvVar, present, not_present, not_unicode, Env, parse_unsigned, u64_mod,
}
use otel_php_rust.Attributes.{Str, Key, static_str, owned, as_str}
use otel_php_rust.Attributes.Config.{
  Locals, max_configured_limit, trim, limit_of, configured_limit, limits_from, limits_from_env,
  attribute_limit_config, begin_request_attribute_limits, trace_span_limits,
}
use otel_php_rust.Attributes.Conversion.{
  interned, intern_attribute_key, attribute_key, max_interned_attribute_keys,
}

limit_of-le :
    (v : EnvVar) (fallback : ℕ)
    → fallback ≤ max_configured_limit
    → limit_of v fallback ≤ max_configured_limit
unfolding limit_of
limit_of-le (present value) fallback h = elim (Bool-cases (is_empty (trim value))) [
  | inl e ↦ rw e h
  | inr e ↦ rw e (elim (Option-cases (parse_unsigned u64_mod (trim value))) [
    | inl f ↦ rw f h
    | inr (n, f) ↦ rw f (elim (Bool-cases (leb n max_configured_limit)) [
      | inl g ↦ rw g (leb→le n max_configured_limit g)
      | inr g ↦ rw g h
    ])
  ])
]
limit_of-le not_present fallback h = h
limit_of-le not_unicode fallback h = h

configured_limit-le :
    (env : Env) (name : String) (fallback : ℕ)
    → fallback ≤ max_configured_limit
    → configured_limit env name fallback ≤ max_configured_limit
unfolding configured_limit
configured_limit-le env name fallback h = limit_of-le (env name) fallback h

configured_limit-as_u32 :
    (env : Env) (name : String) (fallback : ℕ)
    → fallback ≤ max_configured_limit
    → configured_limit env name fallback % 2 ^ 32 ≡ configured_limit env name fallback
configured_limit-as_u32 env name fallback h = omega (arith, configured_limit-le env name fallback h)

-- After the start of a request, the span limits are those of the environment at the start,
-- whatever it holds later, and their conversion to 32 bits loses nothing.
pub trace_span_limits-begin_request :
    (env later : Env) (locals : Locals)
    → let config = limits_from_env env in
      (trace_span_limits later (begin_request_attribute_limits env locals)).0 ≡ record {
        events_per_span = config.max_events_per_span;
        attributes_per_span = config.span_limits.count;
        links_per_span = config.max_links_per_span;
        attributes_per_event = config.event_limits.count;
        attributes_per_link = config.link_limits.count;
      }
unfolding trace_span_limits attribute_limit_config begin_request_attribute_limits limits_from_env
    limits_from
trace_span_limits-begin_request env later locals =
    let general : configured_limit env "OTEL_ATTRIBUTE_COUNT_LIMIT" 128 ≤ max_configured_limit =
      configured_limit-le env "OTEL_ATTRIBUTE_COUNT_LIMIT" 128 (omega arith) in
    rw
      (
        configured_limit-as_u32 env "OTEL_SPAN_EVENT_COUNT_LIMIT" 128 (omega arith),
        configured_limit-as_u32 env "OTEL_SPAN_LINK_COUNT_LIMIT" 128 (omega arith),
        configured_limit-as_u32 env "OTEL_SPAN_ATTRIBUTE_COUNT_LIMIT"
            (configured_limit env "OTEL_ATTRIBUTE_COUNT_LIMIT" 128) general,
        configured_limit-as_u32 env "OTEL_EVENT_ATTRIBUTE_COUNT_LIMIT"
            (configured_limit env "OTEL_ATTRIBUTE_COUNT_LIMIT" 128) general,
        configured_limit-as_u32 env "OTEL_LINK_ATTRIBUTE_COUNT_LIMIT"
            (configured_limit env "OTEL_ATTRIBUTE_COUNT_LIMIT" 128) general,
      )
      refl

-- No key twice.
abbrev pub Distinct : List Str → Type 0
Distinct [] = Unit
Distinct (name ∷ names) = (interned names name ≡ false) × Distinct names

-- The thread's table of keys.
abbrev pub IsTable : Locals → Type 0
IsTable locals =
    (length locals.attribute_keys ≤ max_interned_attribute_keys) × Distinct locals.attribute_keys

-- Whether the key borrows its text.
abbrev pub is_static : Key → Bool
is_static (static_str s) = true
is_static (owned s) = false

-- `attribute_key` keeps the table of keys without repetition and within 4,096 entries; the key has
-- the name's text, and it borrows that text exactly if the table now holds the name, as it does
-- for certain if there was room.
pub attribute_key-IsTable :
    (locals : Locals) (name : Str)
    → IsTable locals
    → let (key, locals') = attribute_key locals name in
      IsTable locals'
      × (as_str key ≡ name)
      × (is_static key ≡ interned locals'.attribute_keys name)
      × (length locals.attribute_keys < max_interned_attribute_keys → is_static key ≡ true)
unfolding attribute_key intern_attribute_key as_str
attribute_key-IsTable locals name h = elim (Bool-cases (interned locals.attribute_keys name)) [
  | inl e ↦ rw e (h, refl, sym e, λ _. refl)
  | inr e ↦
      rw e (elim (Bool-cases (leb max_interned_attribute_keys (length locals.attribute_keys))) [
        | inl full ↦ rw full (h, refl, sym e, λ room. ground arith)
        | inr more ↦
            rw more ((ground arith, (e, h.1)), refl, rw (bytes_eq_refl name) refl, λ _. refl)
      ])
]
