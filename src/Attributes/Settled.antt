-- ===== src/Attributes/Settled.antt =====
-- The conversion of a PHP array stays within the limits that the thread has cached, and limiting
-- its result once more changes nothing.
use mathlib.Core.Path.{subst}
use otel_php_rust.Prelude.{
  IfSome, ℕ, ◌+◌, ◌≤◌, ◌<◌, true, Option, none, some, List, [], ◌∷◌, ◌≡◌, refl, sym, arith, inl,
  inr, length, All, Bool-cases, Option-cases, ◌==◌, if◌then◌else◌,
}
use otel_php_rust.Prelude.Signed.{ℤ}
use otel_php_rust.Batch.Config.{Env}
use otel_php_rust.Attributes.{
  Str, ZVal, string, long, double, bool, array, other, text, binary, ZArr, end, entry, index, zstr,
  to_str, Key, as_str, KeyValue, AttributeLimits, valid_attribute_key,
}
use otel_php_rust.Attributes.Config.{
  AttributeDestination, AttributeLimitConfig, Locals, for_destination, attribute_limits,
  attribute_limit_config, limits_from_env,
}
use otel_php_rust.Attributes.Conversion.{
  attribute_key, convert_value, zval_to_key_value, convert_entries, zval_arr_to_key_value_vec,
  limit_each, limit_key_values,
}
use otel_php_rust.Attributes.Homogeneous.{homogeneous, zval_to_vec-homogeneous}
use otel_php_rust.Attributes.Bounded.{
  Fits, ArrayFits, AllFit, homogeneous-fits, truncate_string-Within, length-take-le, All-take,
  take_all, limit_value_fits, limit_value-ValueFits, valid_attribute_key-lengths,
  lengths-valid_attribute_key,
}

-- The thread has resolved its limits.
abbrev IsCached : AttributeLimitConfig → Locals → Type 0
IsCached config locals = locals.attribute_limits_cache ≡ some config

attribute_limits-IsCached :
    (env : Env) (locals : Locals) (config : AttributeLimitConfig)
    (destination : AttributeDestination)
    → IsCached config locals
    → attribute_limits env locals destination ≡ (for_destination config destination, locals)
unfolding attribute_limits attribute_limit_config
attribute_limits-IsCached env locals config destination h = rw h refl

-- A call of `attribute_limits` resolves them.
IsCached-attribute_limits :
    (env : Env) (locals : Locals) (destination : AttributeDestination)
    → (config : AttributeLimitConfig) × IsCached config (attribute_limits env locals destination).1
      × ((attribute_limits env locals destination).0 ≡ for_destination config destination)
unfolding attribute_limits attribute_limit_config
IsCached-attribute_limits env locals destination =
    elim (Option-cases (locals.attribute_limits_cache)) [
      | inl e ↦ rw e (limits_from_env env, refl, refl)
      | inr (config, e) ↦ rw e (config, refl, refl)
    ]

module _ (as_f64 : ℤ → ℕ) (limits : AttributeLimits) where
  convert_value-Fits :
      (key : Key) (value : ZVal)
      → valid_attribute_key (as_str key) limits ≡ true
      → IfSome (Fits limits) (convert_value as_f64 key value limits)
  unfolding convert_value to_str
  convert_value-Fits key (string (text s)) h =
      let (nonempty, short) = valid_attribute_key-lengths limits (as_str key) h in
      (nonempty, short, truncate_string-Within s limits.value_length)
  convert_value-Fits key (string (binary s)) h = tt
  convert_value-Fits key (long v) h =
      let (nonempty, short) = valid_attribute_key-lengths limits (as_str key) h in
      (nonempty, short, tt)
  convert_value-Fits key (double v) h =
      let (nonempty, short) = valid_attribute_key-lengths limits (as_str key) h in
      (nonempty, short, tt)
  convert_value-Fits key (bool v) h =
      let (nonempty, short) = valid_attribute_key-lengths limits (as_str key) h in
      (nonempty, short, tt)
  convert_value-Fits key (array arr) h =
      rw (zval_to_vec-homogeneous as_f64 key arr limits)
        (elim (Option-cases (homogeneous as_f64 limits arr)) [
          | inl e ↦ rw e tt
          | inr (a, e) ↦
              let (nonempty, short) = valid_attribute_key-lengths limits (as_str key) h in
              let fits : ArrayFits limits a = rw e at (homogeneous-fits limits as_f64 arr) in
              rw e (nonempty, short, fits)
        ])
  convert_value-Fits key (other v) h = tt

-- What a loop over the entries gives: the limits stay cached, the attributes fit, and there is room
-- for them.
abbrev IsConverted :
    AttributeLimitConfig → AttributeLimits → ℕ → ℕ → List KeyValue × Locals → Type 0
IsConverted config limits limit pushed result =
    IsCached config result.1 × (length result.0 + pushed ≤ limit) × All (Fits limits) result.0

module _ (env : Env) (as_f64 : ℤ → ℕ) (config : AttributeLimitConfig)
    (destination : AttributeDestination) (limit : ℕ) where
  attribute_key-IsCached :
      (locals : Locals) (name : Str)
      → IsCached config locals
      → IsCached config (attribute_key locals name).1
  unfolding attribute_key
  attribute_key-IsCached locals name h = h

  zval_to_key_value-Fits :
      (locals : Locals) (key : Key) (value : ZVal)
      → IsCached config locals
      → IsCached config (zval_to_key_value env as_f64 locals destination key value).1
        × IfSome
            (Fits (for_destination config destination))
            (zval_to_key_value env as_f64 locals destination key value).0
  unfolding zval_to_key_value
  zval_to_key_value-Fits locals key value h =
      rw (attribute_limits-IsCached env locals config destination h) (
        h,
        elim (Bool-cases (valid_attribute_key (as_str key) (for_destination config destination))) [
          | inl e ↦
              rw e (convert_value-Fits as_f64 (for_destination config destination) key value e)
          | inr e ↦ rw e tt
        ],
      )

  -- One entry of the loop: what was converted is pushed, and the loop ends at the limit.
  push-IsConverted :
      (rest : ZArr)
      → ((locals : Locals) (pushed : ℕ)
          → IsCached config locals
          → pushed < limit
          → IsConverted config
              (for_destination config destination)
              limit
              pushed
              (convert_entries env as_f64 locals destination limit pushed rest))
      → (pushed : ℕ) (converted : Option KeyValue) (locals : Locals) → IsCached config locals
      → pushed < limit
      → IfSome (Fits (for_destination config destination)) converted
      → IsConverted config (for_destination config destination) limit pushed (elim converted [
        | none ↦ convert_entries env as_f64 locals destination limit pushed rest
        | some kv ↦
            let (others, last) =
              convert_entries env as_f64 locals destination limit (pushed + 1) rest in
            if pushed + 1 == limit then (kv ∷ [], locals) else (kv ∷ others, last)
      ])
  push-IsConverted rest ih pushed none locals h room fits = ih locals pushed h room
  push-IsConverted rest ih pushed (some kv) locals h room fits =
      elim (Bool-cases (pushed + 1 == limit)) [
        | inl e ↦ rw e (h, ground arith, (fits, tt))
        | inr e ↦
            let (cached, fewer, all_fit) = ih locals (pushed + 1) h (ground arith) in
            rw e (cached, omega (arith, fewer), (fits, all_fit))
      ]

  convert_entries-IsConverted :
      (locals : Locals) (pushed : ℕ) (arr : ZArr)
      → IsCached config locals
      → pushed < limit
      → IsConverted config
          (for_destination config destination)
          limit
          pushed
          (convert_entries env as_f64 locals destination limit pushed arr)
  unfolding convert_entries to_str
  convert_entries-IsConverted locals pushed end h room = (h, omega arith, tt)
  convert_entries-IsConverted locals pushed (entry (index i) value rest) h room =
      convert_entries-IsConverted locals pushed rest h room
  convert_entries-IsConverted locals pushed (entry (zstr (binary s)) value rest) h room =
      convert_entries-IsConverted locals pushed rest h room
  convert_entries-IsConverted locals pushed (entry (zstr (text s)) value rest) h room =
      let (key, with_key) = attribute_key locals s in
      let (cached, fits) =
        zval_to_key_value-Fits with_key key value (attribute_key-IsCached locals s h) in
      let (converted, locals') = zval_to_key_value env as_f64 with_key destination key value in
      push-IsConverted rest (λ l n. convert_entries-IsConverted l n rest) pushed converted locals'
        cached room fits

module _ (limits : AttributeLimits) where
  -- What fits passes the filter as it is.
  limit_each-Fits : (kvs : List KeyValue) → All (Fits limits) kvs → limit_each limits kvs ≡ kvs
  unfolding limit_each
  limit_each-Fits [] h = refl
  limit_each-Fits (kv ∷ rest) ((nonempty, short, fits), h) =
      rw
        (
          lengths-valid_attribute_key limits (as_str kv.key) nonempty short,
          limit_value_fits limits kv.value fits,
          limit_each-Fits rest h,
        )
        refl

  All-limit_each : (kvs : List KeyValue) → All (Fits limits) (limit_each limits kvs)
  unfolding limit_each
  All-limit_each [] = tt
  All-limit_each (kv ∷ rest) = elim (Bool-cases (valid_attribute_key (as_str kv.key) limits)) [
    | inl e ↦
        let (nonempty, short) = valid_attribute_key-lengths limits (as_str kv.key) e in
        rw e ((nonempty, short, limit_value-ValueFits limits kv.value), All-limit_each rest)
    | inr e ↦ rw e (All-limit_each rest)
  ]

-- Whatever the attributes, the limited ones lie within the limits.
pub limit_key_values-AllFit :
    (env : Env) (locals : Locals) (kvs : List KeyValue) (destination : AttributeDestination)
    → AllFit
        (attribute_limits env locals destination).0
        (limit_key_values env locals kvs destination).0
unfolding limit_key_values
limit_key_values-AllFit env locals kvs destination =
    let limits = (attribute_limits env locals destination).0 in
    (
      length-take-le limits.count (limit_each limits kvs),
      All-take (Fits limits) limits.count (limit_each limits kvs) (All-limit_each limits kvs),
    )

module _ (env : Env) (as_f64 : ℤ → ℕ) (locals : Locals) (arr : ZArr)
    (destination : AttributeDestination) where
  zval_arr_to_key_value_vec-IsConverted :
      (config : AttributeLimitConfig) × ((attribute_limits env locals destination).0
        ≡ for_destination config destination)
      × IsConverted config
          (for_destination config destination)
          (attribute_limits env locals destination).0.count
          0
          (zval_arr_to_key_value_vec env as_f64 locals arr destination)
  unfolding zval_arr_to_key_value_vec
  zval_arr_to_key_value_vec-IsConverted =
      let (config, cached, same) = IsCached-attribute_limits env locals destination in
      let limit = (attribute_limits env locals destination).0.count in
      (
        config,
        same,
        elim (Bool-cases (limit == 0)) [
          | inl e ↦ rw e (cached, omega arith, tt)
          | inr e ↦ rw e (
              convert_entries-IsConverted env as_f64 config destination limit
                (attribute_limits env locals destination).1 0 arr cached (ground arith))
        ],
      )

  -- Whatever the array, the attributes made of it are at most as many as the limit, each with a
  -- key that is not empty and within its limit, and with texts and arrays that are within theirs;
  -- a text limit of `usize::MAX` is none.
  pub zval_arr_to_key_value_vec-AllFit :
      AllFit
        (attribute_limits env locals destination).0
        (zval_arr_to_key_value_vec env as_f64 locals arr destination).0
  zval_arr_to_key_value_vec-AllFit =
      let (config, same, (cached, fewer, fit)) = zval_arr_to_key_value_vec-IsConverted in
      let kvs = (zval_arr_to_key_value_vec env as_f64 locals arr destination).0 in
      (omega (arith, fewer), subst (λ limits. All (Fits limits) kvs) (sym same) fit)

  -- The two routines agree: `limit_key_values` leaves the attributes that
  -- `zval_arr_to_key_value_vec` made, for the same destination, as they are, and changes nothing
  -- of the thread.
  pub limit_key_values-zval_arr_to_key_value_vec :
      let (kvs, locals') = zval_arr_to_key_value_vec env as_f64 locals arr destination in
      limit_key_values env locals' kvs destination ≡ (kvs, locals')
  unfolding limit_key_values
  limit_key_values-zval_arr_to_key_value_vec =
      let (config, same, (cached, fewer, fit)) = zval_arr_to_key_value_vec-IsConverted in
      let (kvs, locals') = zval_arr_to_key_value_vec env as_f64 locals arr destination in
      let limits = for_destination config destination in
      let enough : length kvs ≤ limits.count =
        subst (λ (l : AttributeLimits). length kvs ≤ l.count) same (omega (arith, fewer)) in
      rw
        (
          attribute_limits-IsCached env locals' config destination cached,
          limit_each-Fits limits kvs fit,
          take_all limits.count kvs enough,
        )
        refl
