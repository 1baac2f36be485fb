-- ===== src/Attributes/Bounded.antt =====
-- What the conversion of PHP values gives lies within the configured limits.
use otel_php_rust.Prelude.{
  IfSome, ℕ, zero, suc, ◌≤◌, ◌<◌, true, none, some, List, [], ◌∷◌, ◌≡◌, refl, ap, arith, map,
  eq_of_some, ◌⊎◌, inl, inr, take, length, All, get_elem?, Bool-cases, Option-cases, ◌==◌,
}
use mathlib.Core.Path.{subst}
use otel_php_rust.Prelude.Signed.{ℤ}
use otel_php_rust.Attributes.{
  Str, usize_max, string, long, double, bool, array, other, text, binary, ZArr, end, entry, to_str,
  Array, strings, integers, floats, bools, Value, string_value, i64_value, f64_value, bool_value,
  array_value, as_str, KeyValue, AttributeLimits, valid_attribute_key, truncate_string, limit_array,
  limit_value,
}
use otel_php_rust.Attributes.Homogeneous.{
  all_read, as_string, as_long, as_number, as_bool, homogeneous,
}

-- No more chars than the limit, where there is one.
abbrev pub Within : ℕ → Str → Type 0
Within limit s = (limit ≡ usize_max) ⊎ (length s ≤ limit)

abbrev pub ArrayFits : AttributeLimits → Array → Type 0
ArrayFits limits (strings xs) =
    (length xs ≤ limits.array_length) × All (Within limits.value_length) xs
ArrayFits limits (integers xs) = length xs ≤ limits.array_length
ArrayFits limits (floats xs) = length xs ≤ limits.array_length
ArrayFits limits (bools xs) = length xs ≤ limits.array_length

abbrev pub ValueFits : AttributeLimits → Value → Type 0
ValueFits limits (string_value s) = Within limits.value_length s
ValueFits limits (array_value a) = ArrayFits limits a
ValueFits limits _ = Unit

-- A key that is not empty, within its limit, with a value that fits.
abbrev pub Fits : AttributeLimits → KeyValue → Type 0
Fits limits kv =
    (0 < length (as_str kv.key))
    × (length (as_str kv.key) ≤ limits.key_length)
    × ValueFits limits kv.value

abbrev pub AllFit : AttributeLimits → List KeyValue → Type 0
AllFit limits kvs = (length kvs ≤ limits.count) × All (Fits limits) kvs

module _ {ℓ} {A : Type ℓ} where
  pub length-take-le : (n : ℕ) (xs : List A) → length (take n xs) ≤ n
  length-take-le zero xs = omega arith
  length-take-le (suc n) [] = omega arith
  length-take-le (suc n) (x ∷ xs) = omega (arith, length-take-le n xs)

  pub take_all : (n : ℕ) (xs : List A) → length xs ≤ n → take n xs ≡ xs
  take_all zero [] h = refl
  take_all zero (x ∷ xs) h = absurd (omega arith)
  take_all (suc n) [] h = refl
  take_all (suc n) (x ∷ xs) h = rw (take_all n xs (omega arith)) refl

  pub All-take {κ} : (P : A → Type κ) (n : ℕ) (xs : List A) → All P xs → All P (take n xs)
  All-take P zero xs h = tt
  All-take P (suc n) [] h = tt
  All-take P (suc n) (x ∷ xs) h = (h.0, All-take P n xs h.1)

  pub get_elem?-none : (n : ℕ) (xs : List A) → get_elem? xs n ≡ none → length xs ≤ n
  get_elem?-none n [] h = omega arith
  get_elem?-none zero (x ∷ xs) h = absurd (cc h)
  get_elem?-none (suc n) (x ∷ xs) h = omega (arith, get_elem?-none n xs h)

pub truncate_string-Within : (s : Str) (limit : ℕ) → Within limit (truncate_string s limit)
unfolding truncate_string
truncate_string-Within s limit = elim (Bool-cases (limit == usize_max)) [
  | inl e ↦ inl (ground arith)
  | inr e ↦ rw e (elim (Option-cases (get_elem? s limit)) [
    | inl this ↦ rw this (inr (get_elem?-none limit s this))
    | inr (_, this) ↦ rw this (inr (length-take-le limit s))
  ])
]

-- A text within the limit is left as it is.
pub truncate_string-id : (s : Str) (limit : ℕ) → Within limit s → truncate_string s limit ≡ s
unfolding truncate_string
truncate_string-id s limit h = elim (Bool-cases (limit == usize_max)) [
  | inl e ↦ rw e refl
  | inr e ↦ rw e (elim (Option-cases (get_elem? s limit)) [
    | inl this ↦ rw this refl
    | inr (_, this) ↦
        rw this
          (elim h [ inl unlimited ↦ absurd (ground arith) | inr short ↦ take_all limit s short ])
  ])
]

-- What fits is left as it is.
pub map-truncate_Within :
    (limit : ℕ) (xs : List Str) → All (Within limit) xs → map (λ s. truncate_string s limit) xs ≡ xs
map-truncate_Within limit [] h = refl
map-truncate_Within limit (s ∷ xs) h =
    rw (truncate_string-id s limit h.0, map-truncate_Within limit xs h.1) refl

pub limit_value_fits :
    (limits : AttributeLimits) (value : Value)
    → ValueFits limits value
    → limit_value value limits ≡ value
unfolding limit_value limit_array
limit_value_fits limits (string_value s) h =
    ap string_value (truncate_string-id s limits.value_length h)
limit_value_fits limits (array_value (strings xs)) h =
    rw (take_all limits.array_length xs h.0, map-truncate_Within limits.value_length xs h.1) refl
limit_value_fits limits (array_value (integers xs)) h = rw (take_all limits.array_length xs h) refl
limit_value_fits limits (array_value (floats xs)) h = rw (take_all limits.array_length xs h) refl
limit_value_fits limits (array_value (bools xs)) h = rw (take_all limits.array_length xs h) refl
limit_value_fits limits (i64_value v) h = refl
limit_value_fits limits (f64_value v) h = refl
limit_value_fits limits (bool_value v) h = refl

All-truncate :
    (limit : ℕ) (xs : List Str) → All (Within limit) (map (λ s. truncate_string s limit) xs)
All-truncate limit [] = tt
All-truncate limit (s ∷ xs) = (truncate_string-Within s limit, All-truncate limit xs)

length-map {ℓ κ} :
    {A : Type ℓ} {B : Type κ} (f : A → B) (xs : List A) → length (map f xs) ≡ length xs
length-map f [] = refl
length-map f (x ∷ xs) = ap suc (length-map f xs)

module _ (limits : AttributeLimits) where
  -- What `limit_value` gives fits.
  pub limit_value-ValueFits : (value : Value) → ValueFits limits (limit_value value limits)
  unfolding limit_value limit_array
  limit_value-ValueFits (string_value s) = truncate_string-Within s limits.value_length
  limit_value-ValueFits (array_value (strings xs)) =
      let kept = take limits.array_length xs in
      let short : length kept ≤ limits.array_length = length-take-le limits.array_length xs in
      (
        rw (length-map (λ s. truncate_string s limits.value_length) kept) short,
        All-truncate limits.value_length kept,
      )
  limit_value-ValueFits (array_value (integers xs)) = length-take-le limits.array_length xs
  limit_value-ValueFits (array_value (floats xs)) = length-take-le limits.array_length xs
  limit_value-ValueFits (array_value (bools xs)) = length-take-le limits.array_length xs
  limit_value-ValueFits (i64_value v) = tt
  limit_value-ValueFits (f64_value v) = tt
  limit_value-ValueFits (bool_value v) = tt

  pub valid_attribute_key-lengths :
      (key : Str)
      → valid_attribute_key key limits ≡ true
      → (0 < length key) × (length key ≤ limits.key_length)
  unfolding valid_attribute_key
  valid_attribute_key-lengths [] h = absurd (cc h)
  valid_attribute_key-lengths (c ∷ key) h = ground arith

  pub lengths-valid_attribute_key :
      (key : Str)
      → 0 < length key
      → length key ≤ limits.key_length
      → valid_attribute_key key limits ≡ true
  unfolding valid_attribute_key
  lengths-valid_attribute_key [] h k = absurd (omega arith)
  lengths-valid_attribute_key (c ∷ key) h k = ground arith

  all_read-Within :
      (arr : ZArr) {xs : List Str}
      → all_read (as_string limits) arr ≡ some xs
      → All (Within limits.value_length) xs
  unfolding all_read as_string to_str
  all_read-Within end h = subst (All (Within limits.value_length)) (eq_of_some h) tt
  all_read-Within (entry k (string (text s)) rest) h =
      elim (Option-cases (all_read (as_string limits) rest)) [
        | inl e ↦ absurd (cc (rw e at h))
        | inr (xs, e) ↦
            subst (All (Within limits.value_length)) (eq_of_some (rw e at h))
              (truncate_string-Within s limits.value_length, all_read-Within rest e)
      ]
  all_read-Within (entry k (string (binary s)) rest) h = absurd (cc h)
  all_read-Within (entry k (long v) rest) h = absurd (cc h)
  all_read-Within (entry k (double v) rest) h = absurd (cc h)
  all_read-Within (entry k (bool v) rest) h = absurd (cc h)
  all_read-Within (entry k (array v) rest) h = absurd (cc h)
  all_read-Within (entry k (other v) rest) h = absurd (cc h)

  pub homogeneous-fits :
      (as_f64 : ℤ → ℕ) (arr : ZArr) → IfSome (ArrayFits limits) (homogeneous as_f64 limits arr)
  homogeneous-fits as_f64 arr = elim (Option-cases (all_read (as_string limits) arr)) [
    | inr (xs, e) ↦ rw e (
      length-take-le limits.array_length xs,
      All-take (Within limits.value_length) limits.array_length xs (all_read-Within arr e),
    )
    | inl e ↦ rw e (elim (Option-cases (all_read as_long arr)) [
      | inr (xs, f) ↦ rw f (length-take-le limits.array_length xs)
      | inl f ↦ rw f (elim (Option-cases (all_read (as_number as_f64) arr)) [
        | inr (xs, g) ↦ rw g (length-take-le limits.array_length xs)
        | inl g ↦ rw g (elim (Option-cases (all_read as_bool arr)) [
          | inr (xs, i) ↦ rw i (length-take-le limits.array_length xs)
          | inl i ↦ rw i tt
        ])
      ])
    ])
  ]
