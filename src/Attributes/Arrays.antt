-- ===== src/Attributes/Arrays.antt =====
-- `zval_to_vec` of otel/src/util.rs: the attribute that a PHP array becomes. `as_f64` is Rust's
-- conversion of an `i64`, on the 64 bits of the double.
use otel_php_rust.Prelude.{
  ℕ, suc, Bool, Option, none, some, List, [], ◌∷◌, ◌++◌, ◌>>=◌, leb, if◌then◌else◌, map, option_map,
}
use otel_php_rust.Prelude.Signed.{ℤ}
use otel_php_rust.Attributes.{
  Str, ZVal, string, long, double, bool, array, other, ZArr, end, entry, to_str, Array, strings,
  integers, floats, bools, array_value, Key, KeyValue, AttributeLimits, truncate_string,
}

pub data ArrayKind : Type 0 where
  empty_kind : ArrayKind
  string_kind : List Str → ArrayKind
  integer_kind : List ℤ → ArrayKind
  numeric_kind : List ℕ → ArrayKind
  boolean_kind : List Bool → ArrayKind

-- `if seen <= limits.array_length { values.push(value) }`.
abbrev pub push_within {ℓ} : {A : Type ℓ} → AttributeLimits → ℕ → List A → A → List A
push_within limits seen values value =
    if leb seen limits.array_length then values ++ value ∷ [] else values

unfoldable pub add_string : AttributeLimits → ℕ → ArrayKind → Str → Option ArrayKind
unfolding truncate_string
add_string limits seen empty_kind val =
    some (string_kind (push_within limits seen [] (truncate_string val limits.value_length)))
add_string limits seen (string_kind values) val =
    some (string_kind (push_within limits seen values (truncate_string val limits.value_length)))
add_string limits seen _ val = none

unfoldable pub add_bool : AttributeLimits → ℕ → ArrayKind → Bool → Option ArrayKind
add_bool limits seen empty_kind val = some (boolean_kind (push_within limits seen [] val))
add_bool limits seen (boolean_kind values) val =
    some (boolean_kind (push_within limits seen values val))
add_bool limits seen _ val = none

-- The `match` behind the loop.
abbrev pub array_of : ArrayKind → Array
array_of empty_kind = strings []
array_of (string_kind values) = strings values
array_of (integer_kind values) = integers values
array_of (numeric_kind values) = floats values
array_of (boolean_kind values) = bools values

module _ (as_f64 : ℤ → ℕ) where
  unfoldable pub add_long : AttributeLimits → ℕ → ArrayKind → ℤ → Option ArrayKind
  add_long limits seen empty_kind val = some (integer_kind (push_within limits seen [] val))
  add_long limits seen (integer_kind values) val =
      some (integer_kind (push_within limits seen values val))
  add_long limits seen (numeric_kind values) val =
      some (numeric_kind (push_within limits seen values (as_f64 val)))
  add_long limits seen _ val = none

  unfoldable pub add_double : AttributeLimits → ℕ → ArrayKind → ℕ → Option ArrayKind
  add_double limits seen empty_kind val = some (numeric_kind (push_within limits seen [] val))
  add_double limits seen (integer_kind values) val =
      some (numeric_kind (push_within limits seen (map as_f64 values) val))
  add_double limits seen (numeric_kind values) val =
      some (numeric_kind (push_within limits seen values val))
  add_double limits seen _ val = none

  -- The body of the loop. A string that is not UTF-8 is read as none of the types.
  unfoldable pub add_element : AttributeLimits → ℕ → ArrayKind → ZVal → Option ArrayKind
  unfolding add_string add_long add_double add_bool to_str
  add_element limits seen kind (string z) = do val ← to_str z; add_string limits seen kind val
  add_element limits seen kind (long val) = add_long limits seen kind val
  add_element limits seen kind (double val) = add_double limits seen kind val
  add_element limits seen kind (bool val) = add_bool limits seen kind val
  add_element limits seen kind (array _) = none
  add_element limits seen kind (other _) = none

  unfoldable pub collect : AttributeLimits → ℕ → ArrayKind → ZArr → Option ArrayKind
  unfolding add_element
  collect limits seen kind end = some kind
  collect limits seen kind (entry _ v rest) = do
    kind' ← add_element limits (suc seen) kind v
    collect limits (suc seen) kind' rest

  unfoldable pub zval_to_vec : Key → ZVal → AttributeLimits → Option KeyValue
  unfolding collect
  zval_to_vec key (array arr) limits =
      option_map (λ kind. record { key = key; value = array_value (array_of kind) })
        (collect limits 0 empty_kind arr)
  zval_to_vec key _ limits = none
