-- ===== src/Attributes.antt =====
-- otel/src/util.rs: the values of PHP, the attributes that they become, and the limits. A `str` is
-- the list of its chars here, a double is its 64 bits, and a `usize` has 64 bits.
pub mod Config
pub mod Arrays
pub mod Conversion
pub mod Homogeneous
pub mod Bounded
pub mod Settled
pub mod Limits
mod Examples
use otel_php_rust.Prelude.{
  ℕ, ◌-◌, ◌^◌, Bool, not, ◌&&◌, Option, none, some, List, [], ◌∷◌, leb, ◌==◌, if◌then◌else◌,
  is_empty, length, get_elem?, take, map,
}
use otel_php_rust.Prelude.Signed.{ℤ}

abbrev pub Str : Type 0
Str = List ℕ

abbrev pub usize_max : ℕ
usize_max = 2 ^ 64 - 1

-- A PHP string: text, or bytes that are not UTF-8.
pub data ZStr : Type 0 where
  text : Str → ZStr
  binary : List ℕ → ZStr

unfoldable pub to_str : ZStr → Option Str
to_str (text s) = some s
to_str (binary bytes) = none

pub data IterKey : Type 0 where
  index : ℕ → IterKey
  zstr : ZStr → IterKey

-- `other` is a value of any other type: null, an object, a resource, a reference.
mutual
  pub data ZVal : Type 0 where
    string : ZStr → ZVal
    long : ℤ → ZVal
    double : ℕ → ZVal
    bool : Bool → ZVal
    array : ZArr → ZVal
    other : ℕ → ZVal

  pub data ZArr : Type 0 where
    end : ZArr
    entry : IterKey → ZVal → ZArr → ZArr

-- `Array` and `Value` of the crate opentelemetry.
pub data Array : Type 0 where
  strings : List Str → Array
  integers : List ℤ → Array
  floats : List ℕ → Array
  bools : List Bool → Array

pub data Value : Type 0 where
  string_value : Str → Value
  i64_value : ℤ → Value
  f64_value : ℕ → Value
  bool_value : Bool → Value
  array_value : Array → Value

-- `Key` of the crate opentelemetry: a borrowed `'static` text or an owned one.
pub data Key : Type 0 where
  static_str : Str → Key
  owned : Str → Key

unfoldable pub as_str : Key → Str
as_str (static_str s) = s
as_str (owned s) = s

pub record KeyValue : Type 0 where
  pub key : Key
  pub value : Value

pub record AttributeLimits : Type 0 where
  pub count : ℕ
  pub key_length : ℕ
  pub value_length : ℕ
  pub array_length : ℕ

unfoldable pub valid_attribute_key : Str → AttributeLimits → Bool
valid_attribute_key key limits = not (is_empty key) && leb (length key) limits.key_length

-- `nth(max_chars)` is nothing where the text has no more chars than that.
unfoldable pub truncate_string : Str → ℕ → Str
truncate_string value max_chars =
    if max_chars == usize_max
    then value
    else elim (get_elem? value max_chars) [ none ↦ value | some _ ↦ take max_chars value ]

unfoldable pub limit_array : Array → AttributeLimits → Array
unfolding truncate_string
limit_array (strings values) limits =
    strings (map (λ v. truncate_string v limits.value_length) (take limits.array_length values))
limit_array (integers values) limits = integers (take limits.array_length values)
limit_array (floats values) limits = floats (take limits.array_length values)
limit_array (bools values) limits = bools (take limits.array_length values)

unfoldable pub limit_value : Value → AttributeLimits → Value
unfolding truncate_string limit_array
limit_value (string_value s) limits = string_value (truncate_string s limits.value_length)
limit_value (array_value a) limits = array_value (limit_array a limits)
limit_value value limits = value
