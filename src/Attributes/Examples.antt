-- ===== src/Attributes/Examples.antt =====
-- Tests of the conversion of PHP values, and its theorems at examples. A double is the number of
-- its bits, and `as_f64` here marks the integer that it comes from.
use Prim.Native.String.{String}
use otel_php_rust.Prelude.{
  ℕ, ◌+◌, ◌<◌, true, none, List, [], ◌∷◌, ◌≡◌, refl, arith, length, if◌then◌else◌, option_map,
}
use otel_php_rust.Prelude.Bytes.{codes, bytes_eq}
use otel_php_rust.Prelude.Signed.{ℤ, pos, negsuc}
use otel_php_rust.Batch.Config.{present, not_present, Env, parse_unsigned, parse_digits}
use otel_php_rust.Batch.Classify.{trim_space}
use otel_php_rust.Attributes.{
  ZStr, text, to_str, index, zstr, string, long, double, bool, array, other, ZArr, end, entry,
  floats, string_value, array_value, static_str, owned, as_str, KeyValue, valid_attribute_key,
  truncate_string,
}
use otel_php_rust.Attributes.Config.{
  span, event, trim_end_space, trim, limit_of, configured_limit, limits_from, limits_from_env,
  for_destination, Locals, attribute_limit_config, attribute_limits, begin_request_attribute_limits,
  trace_span_limits,
}
use otel_php_rust.Attributes.Arrays.{
  add_string, add_long, add_double, add_bool, add_element, collect, zval_to_vec,
}
use otel_php_rust.Attributes.Conversion.{
  interned, intern_attribute_key, attribute_key, max_interned_attribute_keys, convert_value,
  zval_to_key_value, convert_entries, zval_arr_to_key_value_vec, limit_key_values,
}
use otel_php_rust.Attributes.Homogeneous.{homogeneous, zval_to_vec-homogeneous}
use otel_php_rust.Attributes.Bounded.{AllFit}
use otel_php_rust.Attributes.Settled.{
  zval_arr_to_key_value_vec-AllFit, limit_key_values-zval_arr_to_key_value_vec,
}
use otel_php_rust.Attributes.Limits.{
  trace_span_limits-begin_request, attribute_key-IsTable, IsTable, is_static,
}

abbrev limited : Env
limited name =
    if bytes_eq (codes name) (codes "OTEL_ATTRIBUTE_COUNT_LIMIT")
    then present (codes " 2 ")
    else if bytes_eq (codes name) (codes "OTEL_ATTRIBUTE_VALUE_LENGTH_LIMIT")
    then present (codes "3")
    else not_present

abbrev fresh : Locals
fresh = record { attribute_keys = []; attribute_limits_cache = none }

abbrev as_f64 : ℤ → ℕ
as_f64 (pos n) = 1_000 + n
as_f64 (negsuc n) = 2_000 + n

abbrev texted : String → ZStr
texted s = text (codes s)

-- An integer, then a double: both become doubles.
abbrev numbers : ZArr
numbers = entry (index 0) (long (pos 7)) (entry (index 1) (double 5) end)

abbrev attributes : ZArr
attributes = entry (index 0) (bool true) (
    entry (zstr (texted "name")) (string (texted "value")) (
      entry (zstr (texted "none")) (other 0) (
        entry (zstr (texted "numbers")) (array numbers)
          (entry (zstr (texted "late")) (bool true) end))))

abbrev converted : List KeyValue
converted =
    record { key = static_str (codes "name"); value = string_value (codes "val") }
    ∷ record { key = static_str (codes "numbers"); value = array_value (floats (1_007 ∷ 5 ∷ [])) }
    ∷ []

zval_arr_to_key_value_vec-attributes :
    (zval_arr_to_key_value_vec limited as_f64 fresh attributes span).0 ≡ converted
unfolding zval_arr_to_key_value_vec convert_entries zval_to_key_value convert_value zval_to_vec
    collect add_element add_string add_long add_double add_bool attribute_key intern_attribute_key
    attribute_limits attribute_limit_config limits_from_env limits_from configured_limit limit_of
    trim trim_end_space trim_space parse_unsigned parse_digits for_destination valid_attribute_key
    truncate_string as_str to_str
zval_arr_to_key_value_vec-attributes = refl

zval_to_vec-homogeneous_example :
    zval_to_vec as_f64
      (owned (codes "numbers"))
      (array numbers)
      (attribute_limits limited fresh span).0
    ≡ option_map
        (λ a. record { key = owned (codes "numbers"); value = array_value a })
        (homogeneous as_f64 (attribute_limits limited fresh span).0 numbers)
zval_to_vec-homogeneous_example =
    zval_to_vec-homogeneous as_f64 (owned (codes "numbers")) numbers
      (attribute_limits limited fresh span).0

zval_arr_to_key_value_vec-AllFit_example :
    AllFit
      (attribute_limits limited fresh span).0
      (zval_arr_to_key_value_vec limited as_f64 fresh attributes span).0
zval_arr_to_key_value_vec-AllFit_example =
    zval_arr_to_key_value_vec-AllFit limited as_f64 fresh attributes span

limit_key_values-zval_arr_to_key_value_vec_example :
    let (kvs, locals') = zval_arr_to_key_value_vec limited as_f64 fresh attributes event in
    limit_key_values limited locals' kvs event ≡ (kvs, locals')
limit_key_values-zval_arr_to_key_value_vec_example =
    limit_key_values-zval_arr_to_key_value_vec limited as_f64 fresh attributes event

abbrev unset : Env
unset name = not_present

trace_span_limits-begin_request_example :
    let config = limits_from_env limited in
    (trace_span_limits unset (begin_request_attribute_limits limited fresh)).0 ≡ record {
      events_per_span = config.max_events_per_span;
      attributes_per_span = config.span_limits.count;
      links_per_span = config.max_links_per_span;
      attributes_per_event = config.event_limits.count;
      attributes_per_link = config.link_limits.count;
    }
trace_span_limits-begin_request_example = trace_span_limits-begin_request limited unset fresh

attribute_key-IsTable_example :
    let (key, locals') = attribute_key fresh (codes "name") in
    IsTable locals'
    × (as_str key ≡ codes "name")
    × (is_static key ≡ interned locals'.attribute_keys (codes "name"))
    × (length fresh.attribute_keys < max_interned_attribute_keys → is_static key ≡ true)
attribute_key-IsTable_example = attribute_key-IsTable fresh (codes "name") (omega arith, tt)
