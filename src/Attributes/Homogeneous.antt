-- ===== src/Attributes/Homogeneous.antt =====
-- `zval_to_vec` reads an array as the first type that all its elements have.
use otel_php_rust.Prelude.{
  ℕ, zero, suc, ◌-◌, leb→le, Bool, Option, none, some, List, [], ◌∷◌, ◌++◌, ◌>>=◌, ◌≡◌, refl, ap,
  ◌∙◌, arith, take, leb, map, option_map, or_else, Option-cases, append_assoc, append-nil,
  Bool-cases, inl, inr,
}
use mathlib.Core.List.{map-append}
use otel_php_rust.Prelude.Signed.{ℤ}
use otel_php_rust.Attributes.{
  Str, ZVal, string, long, double, bool, array, other, text, binary, IterKey, ZArr, end, entry,
  to_str, Array, strings, integers, floats, bools, array_value, Key, AttributeLimits,
  truncate_string,
}
use otel_php_rust.Attributes.Arrays.{
  ArrayKind, string_kind, integer_kind, numeric_kind, boolean_kind, push_within, add_string,
  add_bool, add_long, add_double, add_element, collect, zval_to_vec,
}

-- The elements, if all can be read.
unfoldable pub all_read {ℓ} : {A : Type ℓ} → (ZVal → Option A) → ZArr → Option (List A)
all_read read end = some []
all_read read (entry _ v rest) = do a ← read v; others ← all_read read rest; some (a ∷ others)

unfoldable pub as_string : AttributeLimits → ZVal → Option Str
unfolding to_str truncate_string
as_string limits (string z) = option_map (λ s. truncate_string s limits.value_length) (to_str z)
as_string limits _ = none

unfoldable pub as_long : ZVal → Option ℤ
as_long (long v) = some v
as_long _ = none

unfoldable pub as_bool : ZVal → Option Bool
as_bool (bool v) = some v
as_bool _ = none

unfoldable pub as_number : (ℤ → ℕ) → ZVal → Option ℕ
as_number as_f64 (long v) = some (as_f64 v)
as_number as_f64 (double v) = some v
as_number as_f64 _ = none

-- The array by its types, one after the other, cut to the limit.
abbrev pub homogeneous : (ℤ → ℕ) → AttributeLimits → ZArr → Option Array
homogeneous as_f64 limits arr =
    let n = limits.array_length in
    or_else (option_map (λ xs. strings (take n xs)) (all_read (as_string limits) arr)) (
      or_else (option_map (λ xs. integers (take n xs)) (all_read as_long arr)) (
        or_else (option_map (λ xs. floats (take n xs)) (all_read (as_number as_f64) arr))
          (option_map (λ xs. bools (take n xs)) (all_read as_bool arr))))

minus_zero : (n : ℕ) → n - 0 ≡ n
minus_zero n = omega arith

module _ {ℓ} {A : Type ℓ} where
  take-nil : (n : ℕ) → take {A = A} n [] ≡ []
  take-nil zero = refl
  take-nil (suc n) = refl

  -- One element more within the limit, and what is taken of the others.
  push_within-take :
      (limits : AttributeLimits) (seen : ℕ) (acc : List A) (a : A) (others : List A)
      → push_within limits (suc seen) acc a ++ take (limits.array_length - suc seen) others
        ≡ acc ++ take (limits.array_length - seen) (a ∷ others)
  push_within-take limits seen acc a others =
      elim (Bool-cases (leb (suc seen) limits.array_length)) [
        | inl fits ↦
            let more : limits.array_length - seen ≡ suc (limits.array_length - suc seen) =
              omega (arith, leb→le (suc seen) limits.array_length fits) in
            rw (fits, more)
              (append_assoc acc (a ∷ []) (take (limits.array_length - suc seen) others))
        | inr full ↦
            let none1 : limits.array_length - seen ≡ 0 = ground arith in
            let none2 : limits.array_length - suc seen ≡ 0 = omega (arith, none1) in
            rw (full, none1, none2) refl
      ]

map-push_within {ℓ κ} :
    {A : Type ℓ} {B : Type κ} (f : A → B) (limits : AttributeLimits) (seen : ℕ) (acc : List A)
    (a : A)
    → map f (push_within limits seen acc a) ≡ push_within limits seen (map f acc) (f a)
map-push_within f limits seen acc a = elim (Bool-cases (leb seen limits.array_length)) [
  | inl fits ↦ rw fits (map-append f acc (a ∷ []))
  | inr full ↦ rw full refl
]

module _ (as_f64 : ℤ → ℕ) where
  -- A kind that keeps its type reads the rest by that type.
  collect-all_read {ℓ} :
      {A : Type ℓ} (limits : AttributeLimits) (kind : List A → ArrayKind) (read : ZVal → Option A)
      → ((seen : ℕ) (acc : List A) (v : ZVal)
          → add_element as_f64 limits seen (kind acc) v
            ≡ option_map (λ a. kind (push_within limits seen acc a)) (read v))
      → (seen : ℕ) (acc : List A) (arr : ZArr)
      → collect as_f64 limits seen (kind acc) arr
        ≡ option_map (λ xs. kind (acc ++ take (limits.array_length - seen) xs)) (all_read read arr)
  unfolding collect all_read
  collect-all_read {A = A} limits kind read step seen acc end =
      rw (take-nil {A = A} (limits.array_length - seen), append-nil acc) refl
  collect-all_read limits kind read step seen acc (entry k v rest) = elim (Option-cases (read v)) [
    | inl this ↦ rw (step (suc seen) acc v, this) refl
    | inr (a, this) ↦
        let next =
          collect-all_read limits kind read step (suc seen) (push_within limits (suc seen) acc a)
            rest in
        rw (step (suc seen) acc v, this)
          (elim (Option-cases (all_read read rest)) [
            | inl bad ↦ rw (next, bad) refl
            | inr (others, good) ↦
                rw (next, good)
                  (ap (λ z. some (kind z)) (push_within-take limits seen acc a others))
          ])
  ]

  add_element-string :
      (limits : AttributeLimits) (seen : ℕ) (acc : List Str) (v : ZVal)
      → add_element as_f64 limits seen (string_kind acc) v
        ≡ option_map (λ a. string_kind (push_within limits seen acc a)) (as_string limits v)
  unfolding add_element add_string add_long add_double add_bool as_string to_str
  add_element-string limits seen acc (string (text s)) = refl
  add_element-string limits seen acc (string (binary s)) = refl
  add_element-string limits seen acc (long v) = refl
  add_element-string limits seen acc (double v) = refl
  add_element-string limits seen acc (bool v) = refl
  add_element-string limits seen acc (array v) = refl
  add_element-string limits seen acc (other v) = refl

  add_element-numeric :
      (limits : AttributeLimits) (seen : ℕ) (acc : List ℕ) (v : ZVal)
      → add_element as_f64 limits seen (numeric_kind acc) v
        ≡ option_map (λ a. numeric_kind (push_within limits seen acc a)) (as_number as_f64 v)
  unfolding add_element add_string add_long add_double add_bool as_number to_str
  add_element-numeric limits seen acc (string (text s)) = refl
  add_element-numeric limits seen acc (string (binary s)) = refl
  add_element-numeric limits seen acc (long v) = refl
  add_element-numeric limits seen acc (double v) = refl
  add_element-numeric limits seen acc (bool v) = refl
  add_element-numeric limits seen acc (array v) = refl
  add_element-numeric limits seen acc (other v) = refl

  add_element-boolean :
      (limits : AttributeLimits) (seen : ℕ) (acc : List Bool) (v : ZVal)
      → add_element as_f64 limits seen (boolean_kind acc) v
        ≡ option_map (λ a. boolean_kind (push_within limits seen acc a)) (as_bool v)
  unfolding add_element add_string add_long add_double add_bool as_bool to_str
  add_element-boolean limits seen acc (string (text s)) = refl
  add_element-boolean limits seen acc (string (binary s)) = refl
  add_element-boolean limits seen acc (long v) = refl
  add_element-boolean limits seen acc (double v) = refl
  add_element-boolean limits seen acc (bool v) = refl
  add_element-boolean limits seen acc (array v) = refl
  add_element-boolean limits seen acc (other v) = refl

  -- Integers stay integers, or all become doubles.
  abbrev of_integers : AttributeLimits → ℕ → List ℤ → ZArr → Option ArrayKind
  of_integers limits seen acc arr =
      or_else
        (option_map (λ xs. integer_kind (acc ++ take (limits.array_length - seen) xs))
          (all_read as_long arr))
        (option_map (λ xs. numeric_kind (map as_f64 acc ++ take (limits.array_length - seen) xs))
          (all_read (as_number as_f64) arr))

  -- One integer more.
  of_integers-long :
      (limits : AttributeLimits) (seen : ℕ) (acc : List ℤ) (k : IterKey) (v : ℤ) (rest : ZArr)
      → of_integers limits (suc seen) (push_within limits (suc seen) acc v) rest
        ≡ of_integers limits seen acc (entry k (long v) rest)
  unfolding all_read as_long as_number
  of_integers-long limits seen acc k v rest = elim (Option-cases (all_read as_long rest)) [
    | inr (xs, e) ↦ rw e (ap (λ z. some (integer_kind z)) (push_within-take limits seen acc v xs))
    | inl e ↦ elim (Option-cases (all_read (as_number as_f64) rest)) [
      | inl f ↦ rw (e, f) refl
      | inr (xs, f) ↦
          rw (e, f, map-push_within as_f64 limits (suc seen) acc v)
            (ap (λ z. some (numeric_kind z))
              (push_within-take limits seen (map as_f64 acc) (as_f64 v) xs))
    ]
  ]

  collect-integers :
      (limits : AttributeLimits) (seen : ℕ) (acc : List ℤ) (arr : ZArr)
      → collect as_f64 limits seen (integer_kind acc) arr ≡ of_integers limits seen acc arr
  unfolding collect all_read add_element add_string add_long add_double add_bool as_long as_number
      to_str
  collect-integers limits seen acc end =
      rw (take-nil {A = ℤ} (limits.array_length - seen), append-nil acc) refl
  collect-integers limits seen acc (entry k (long v) rest) =
      collect-integers limits (suc seen) (push_within limits (suc seen) acc v) rest
      ∙ of_integers-long limits seen acc k v rest
  collect-integers limits seen acc (entry k (double v) rest) =
      collect-all_read limits numeric_kind (as_number as_f64) (add_element-numeric limits) seen
        (map as_f64 acc) (entry k (double v) rest)
  collect-integers limits seen acc (entry k (string (text s)) rest) = refl
  collect-integers limits seen acc (entry k (string (binary s)) rest) = refl
  collect-integers limits seen acc (entry k (bool v) rest) = refl
  collect-integers limits seen acc (entry k (array v) rest) = refl
  collect-integers limits seen acc (entry k (other v) rest) = refl

  -- The one pass of `zval_to_vec` gives what trying the types one after the other gives: the
  -- elements cut to the limit as texts, integers, doubles or booleans, by the first of these types
  -- that every element can be read as, where integers can be read as doubles, and nothing if there
  -- is none.
  pub zval_to_vec-homogeneous :
      (key : Key) (arr : ZArr) (limits : AttributeLimits)
      → zval_to_vec as_f64 key (array arr) limits
        ≡ option_map
            (λ a. record { key = key; value = array_value a })
            (homogeneous as_f64 limits arr)
  unfolding zval_to_vec collect all_read add_element add_string add_long add_double add_bool
      as_string as_long as_bool as_number to_str
  zval_to_vec-homogeneous key end limits = rw (take-nil {A = Str} limits.array_length) refl
  zval_to_vec-homogeneous key (entry k (string (text s)) rest) limits =
      rw
        (
          collect-all_read limits string_kind (as_string limits) (add_element-string limits) 0 []
              (entry k (string (text s)) rest),
          minus_zero limits.array_length,
        )
        (elim (Option-cases (all_read (as_string limits) rest)) [
          | inl e ↦ rw e refl
          | inr (_, e) ↦ rw e refl
        ])
  zval_to_vec-homogeneous key (entry k (string (binary s)) rest) limits = refl
  zval_to_vec-homogeneous key (entry k (long v) rest) limits =
      rw (collect-integers limits 0 [] (entry k (long v) rest), minus_zero limits.array_length)
        (elim (Option-cases (all_read as_long rest)) [
          | inr (_, e) ↦ rw e refl
          | inl e ↦ elim (Option-cases (all_read (as_number as_f64) rest)) [
            | inl f ↦ rw (e, f) refl
            | inr (_, f) ↦ rw (e, f) refl
          ]
        ])
  zval_to_vec-homogeneous key (entry k (double v) rest) limits =
      rw
        (
          collect-all_read limits numeric_kind (as_number as_f64) (add_element-numeric limits) 0 []
              (entry k (double v) rest),
          minus_zero limits.array_length,
        )
        (elim (Option-cases (all_read (as_number as_f64) rest)) [
          | inl e ↦ rw e refl
          | inr (_, e) ↦ rw e refl
        ])
  zval_to_vec-homogeneous key (entry k (bool v) rest) limits =
      rw
        (
          collect-all_read limits boolean_kind as_bool (add_element-boolean limits) 0 []
              (entry k (bool v) rest),
          minus_zero limits.array_length,
        )
        (elim (Option-cases (all_read as_bool rest)) [ inl e ↦ rw e refl | inr (_, e) ↦ rw e refl ])
  zval_to_vec-homogeneous key (entry k (array v) rest) limits = refl
  zval_to_vec-homogeneous key (entry k (other v) rest) limits = refl
