-- ===== src/Attributes/Conversion.antt =====
-- Attributes of otel/src/util.rs: the table of interned keys, the conversion of PHP values with
-- `zval_to_key_value` and `zval_arr_to_key_value_vec`, and `limit_key_values`.
use otel_php_rust.Prelude.{
  ℕ, ◌+◌, Bool, not, Option, none, some, List, [], ◌∷◌, get_elem?, leb, ◌==◌, if◌then◌else◌,
  option_map, length, take, any,
}
use otel_php_rust.Prelude.Bytes.{bytes_eq}
use otel_php_rust.Prelude.Results.{Result, ok, err, ◌>>=◌}
use otel_php_rust.Prelude.Signed.{ℤ}
use otel_php_rust.Batch.Config.{Env}
use otel_php_rust.Attributes.{
  Str, ZVal, string, long, double, bool, array, other, ZArr, end, entry, index, zstr, to_str,
  string_value, i64_value, f64_value, bool_value, Key, static_str, owned, as_str, KeyValue,
  AttributeLimits, valid_attribute_key, truncate_string, limit_value,
}
use otel_php_rust.Attributes.Config.{AttributeDestination, Locals, attribute_limits}
use otel_php_rust.Attributes.Arrays.{zval_to_vec}

-- `table.get(name)` of a hash set: whether it is there.
abbrev pub interned : List Str → Str → Bool
interned table name = any (bytes_eq name) table

unfoldable pub intern_attribute_key : List Str → Str → ℕ → Key × List Str
intern_attribute_key table name capacity =
    if interned table name
    then (static_str name, table)
    else if leb capacity (length table)
    then (owned name, table)
    else (static_str name, name ∷ table)

abbrev pub max_interned_attribute_keys : ℕ
max_interned_attribute_keys = 4_096

unfoldable pub attribute_key : Locals → Str → Key × Locals
attribute_key locals name =
    let (key, table) =
      intern_attribute_key locals.attribute_keys name max_interned_attribute_keys in
    (key, record locals { attribute_keys = table })

-- The table of scope names, which has no bound.
unfoldable pub intern : List Str → Str → Str × List Str
intern table value = if interned table value then (value, table) else (value, value ∷ table)

-- The filter over valid keys.
unfoldable pub limit_each : AttributeLimits → List KeyValue → List KeyValue
limit_each limits [] = []
limit_each limits (kv ∷ rest) =
    let others = limit_each limits rest in
    if valid_attribute_key (as_str kv.key) limits
    then record { key = kv.key; value = limit_value kv.value limits } ∷ others
    else others

unfoldable pub limit_key_values :
    Env → Locals → List KeyValue → AttributeDestination → List KeyValue × Locals
limit_key_values env locals attributes destination =
    let (limits, locals') = attribute_limits env locals destination in
    (take limits.count (limit_each limits attributes), locals')

module _ (as_f64 : ℤ → ℕ) where
  -- What a valid key's value becomes.
  unfoldable pub convert_value : Key → ZVal → AttributeLimits → Option KeyValue
  convert_value key (string z) limits =
      option_map
        (λ s. record { key = key; value = string_value (truncate_string s limits.value_length) })
        (to_str z)
  convert_value key (long v) limits = some (record { key = key; value = i64_value v })
  convert_value key (double v) limits = some (record { key = key; value = f64_value v })
  convert_value key (bool v) limits = some (record { key = key; value = bool_value v })
  convert_value key (array arr) limits = zval_to_vec as_f64 key (array arr) limits
  convert_value key (other _) limits = none

module _ (env : Env) (as_f64 : ℤ → ℕ) where
  unfoldable pub zval_to_key_value :
      Locals → AttributeDestination → Key → ZVal → Option KeyValue × Locals
  zval_to_key_value locals destination key value =
      let (limits, locals') = attribute_limits env locals destination in
      (
        if not (valid_attribute_key (as_str key) limits)
            then none
            else convert_value as_f64 key value limits,
        locals',
      )

  -- The loop over the array; `pushed` counts the attributes of the result.
  unfoldable pub convert_entries :
      Locals → AttributeDestination → ℕ → ℕ → ZArr → List KeyValue × Locals
  convert_entries locals destination limit pushed end = ([], locals)
  convert_entries locals destination limit pushed (entry (index _) value rest) =
      convert_entries locals destination limit pushed rest
  convert_entries locals destination limit pushed (entry (zstr z) value rest) = elim (to_str z) [
    | none ↦ convert_entries locals destination limit pushed rest
    | some key_str ↦
        let (key, with_key) = attribute_key locals key_str in
        let (converted, locals') = zval_to_key_value with_key destination key value in
        elim converted [
          | none ↦ convert_entries locals' destination limit pushed rest
          | some kv ↦
              let (others, last) = convert_entries locals' destination limit (pushed + 1) rest in
              if pushed + 1 == limit then (kv ∷ [], locals') else (kv ∷ others, last)
        ]
  ]

  unfoldable pub zval_arr_to_key_value_vec :
      Locals → ZArr → AttributeDestination → List KeyValue × Locals
  zval_arr_to_key_value_vec locals arr destination =
      let (limits, locals') = attribute_limits env locals destination in
      if limits.count == 0
      then ([], locals')
      else convert_entries locals' destination limits.count 0 arr

  -- `zval_iterable_to_array`: PHP's `iterator_to_array` is the argument.
  module _ {E : Type 0} (iterator_to_array : ZVal → Result E ZVal) (expected_array : E) where
    unfoldable pub zval_iterable_to_array : ZVal → Result E ZVal
    zval_iterable_to_array (array arr) = ok (array arr)
    zval_iterable_to_array value = iterator_to_array value

    -- `expect_z_arr`.
    abbrev pub expect_z_arr : ZVal → Result E ZArr
    expect_z_arr (array arr) = ok arr
    expect_z_arr _ = err expected_array

    unfoldable pub zval_iterable_to_key_value_vec :
        Locals → ZVal → AttributeDestination → Result E (List KeyValue × Locals)
    zval_iterable_to_key_value_vec locals value destination = do
      materialized ← zval_iterable_to_array value
      arr ← expect_z_arr materialized
      ok (zval_arr_to_key_value_vec locals arr destination)

-- `ArgumentCountError` of PHP: the function's name, the expected and the given count.
pub record ArgumentCountError : Type 0 where
  pub function_name : Str
  pub expected : ℕ
  pub given : ℕ

abbrev pub ok_or_else {ℓ} :
    {A : Type ℓ} → Option A → ArgumentCountError → Result ArgumentCountError A
ok_or_else none e = err e
ok_or_else (some a) e = ok a

unfoldable pub missing_argument : Str → ℕ → ℕ → ArgumentCountError
missing_argument current position given = record {
  function_name = current;
  expected = position + 1;
  given = given;
}

-- `arg`; `current` is the name of the function that runs, from the engine.
unfoldable pub arg {ℓ} : {A : Type ℓ} → Str → List A → ℕ → Result ArgumentCountError A
arg current arguments position =
    ok_or_else (get_elem? arguments position) (missing_argument current position (length arguments))
