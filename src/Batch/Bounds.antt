-- ===== src/Batch/Bounds.antt =====
-- What a configuration that `from_env` accepts satisfies, and what each variable is taken for.
use Prim.Native.String.{String}
use otel_php_rust.Prelude.{
  ℕ, ◌≤◌, ◌≡◌, refl, ◌⊎◌, inl, inr, ◌↔◌, Option, none, some, List, [], ◌∷◌, arith,
}
use otel_php_rust.Prelude.Bytes.{Bytes}
use otel_php_rust.Prelude.Results.{ok, err, Ensures, >>=-Ensures, Ensures-eq}
use otel_php_rust.Batch.Config.{
  EnvVar, present, not_present, not_unicode, Env, u64_mod, from_millis, parse_unsigned, in_range,
  parse_var, parse_u64_range, parse_u64, parse_usize, parse_first_u64, RetryPolicy, retry_from_env,
  BatchProcessorConfig, check_batch, from_env, not_utf8,
}

-- A variable is accepted exactly if it is unset, which gives the default, or holds an unsigned
-- 64-bit number between the bounds, which is the result.
pub parse_u64_range_iff :
    (env : Env) (name : String) (default minimum maximum n : ℕ)
    → (parse_u64_range env name default minimum maximum ≡ ok n) ↔ (
        ((env name ≡ not_present) × (n ≡ default))
        ⊎ ((value : Bytes) × (env name ≡ present value)
            × (parse_unsigned u64_mod value ≡ some n)
            × (minimum ≤ n)
            × (n ≤ maximum)))
unfolding parse_u64_range
parse_u64_range_iff env name default minimum maximum n = cases (env name)
  where
    found :
        (value : Bytes)
        → (in_range name minimum maximum (parse_unsigned u64_mod value) ≡ ok n)
        → (parse_unsigned u64_mod value ≡ some n) × (minimum ≤ n) × (n ≤ maximum)
    found value h = ground arith

    cases :
        (e : EnvVar)
        → (parse_var e name default minimum maximum ≡ ok n) ↔ (
            ((e ≡ not_present) × (n ≡ default))
            ⊎ ((value : Bytes) × (e ≡ present value)
                × (parse_unsigned u64_mod value ≡ some n)
                × (minimum ≤ n)
                × (n ≤ maximum)))
    cases (present value) = (
      λ h. let (p, lo, hi) = found value h in inr (value, refl, p, lo, hi),
      λ h. elim h [ inl (e, _) ↦ absurd (cc e) | inr (other, e, p, lo, hi) ↦ ground arith ],
    )
    cases not_present = (
      λ h. inl (refl, ground arith),
      λ h. elim h [ inl (_, e) ↦ cc | inr (other, e, _, _, _) ↦ absurd (cc e) ],
    )
    cases not_unicode = (
      λ h. absurd (cc h),
      λ h. elim h [ inl (e, _) ↦ absurd (cc e) | inr (other, e, _, _, _) ↦ absurd (cc e) ],
    )

abbrev Between : ℕ → ℕ → ℕ → Type 0
Between lo hi n = (lo ≤ n) × (n ≤ hi)

in_range-Between :
    (name : String) (minimum maximum : ℕ) (o : Option ℕ)
    → Ensures (Between minimum maximum) (in_range name minimum maximum o)
in_range-Between name minimum maximum none = tt
in_range-Between name minimum maximum (some v) = ground arith

parse_var-Between :
    (e : EnvVar) (name : String) (default minimum maximum : ℕ)
    → Between minimum maximum default
    → Ensures (Between minimum maximum) (parse_var e name default minimum maximum)
parse_var-Between (present value) name default minimum maximum h =
    in_range-Between name minimum maximum (parse_unsigned u64_mod value)
parse_var-Between not_present name default minimum maximum h = h
parse_var-Between not_unicode name default minimum maximum h = tt

module _ (env : Env) (name : String) (default maximum : ℕ) where
  parse_usize-Between :
      Between 1 maximum default → Ensures (Between 1 maximum) (parse_usize env name default maximum)
  unfolding parse_usize
  parse_usize-Between h = parse_var-Between (env name) name default 1 maximum h

  parse_u64-Between :
      Between 1 maximum default → Ensures (Between 1 maximum) (parse_u64 env name default maximum)
  unfolding parse_u64
  parse_u64-Between h = parse_var-Between (env name) name default 1 maximum h

  parse_u64_range-Between :
      (minimum : ℕ)
      → Between minimum maximum default
      → Ensures (Between minimum maximum) (parse_u64_range env name default minimum maximum)
  unfolding parse_u64_range
  parse_u64_range-Between minimum h = parse_var-Between (env name) name default minimum maximum h

parse_first_u64-Between :
    (env : Env) (names : List String) (default maximum : ℕ)
    → Between 1 maximum default
    → Ensures (Between 1 maximum) (parse_first_u64 env names default maximum)
unfolding parse_first_u64
parse_first_u64-Between env [] default maximum h = h
parse_first_u64-Between env (name ∷ names) default maximum h =
    elim (env name)
      as (λ e. Ensures (Between 1 maximum) (elim e [
        | present value ↦ in_range name 1 maximum (parse_unsigned u64_mod value)
        | not_present ↦ parse_first_u64 env names default maximum
        | not_unicode ↦ err (not_utf8 name)
      ])) [
        | present value ↦ in_range-Between name 1 maximum (parse_unsigned u64_mod value)
        | not_present ↦ parse_first_u64-Between env names default maximum h
        | not_unicode ↦ tt
      ]

pub record RetryInRange (policy : RetryPolicy) : Type 0 where
  pub attempts : (1 ≤ policy.max_attempts) × (policy.max_attempts ≤ 10)
  pub elapsed : policy.max_elapsed ≤ from_millis 30_000
  pub backoff :
      (from_millis 1 ≤ policy.initial_backoff) × (policy.initial_backoff ≤ from_millis 5_000)

pub record InRange (config : BatchProcessorConfig) : Type 0 where
  pub queue : (1 ≤ config.max_queue_size) × (config.max_queue_size ≤ 65_536)
  pub batch : (1 ≤ config.max_export_batch_size) × (config.max_export_batch_size ≤ 4_096)
  pub batch_fits : config.max_export_batch_size ≤ config.max_queue_size
  pub concurrent : (1 ≤ config.max_concurrent_exports) × (config.max_concurrent_exports ≤ 8)
  pub delay :
      (from_millis 1 ≤ config.scheduled_delay) × (config.scheduled_delay ≤ from_millis 60_000)
  pub export :
      (from_millis 1 ≤ config.export_timeout) × (config.export_timeout ≤ from_millis 30_000)
  pub shutdown :
      (from_millis 1 ≤ config.shutdown_timeout) × (config.shutdown_timeout ≤ from_millis 2_000)
  pub retry : RetryInRange config.retry

retry_from_env-InRange : (env : Env) → Ensures RetryInRange (retry_from_env env)
unfolding retry_from_env
retry_from_env-InRange env =
    >>=-Ensures (Between 1 10) RetryInRange _ _ (parse_usize-Between env _ 3 10 (omega arith))
      λ a ha.
        >>=-Ensures (Between 0 30_000) RetryInRange _ _
          (parse_u64_range-Between env _ 5_000 30_000 0 (omega arith))
          λ e he.
            >>=-Ensures (Between 1 5_000) RetryInRange _ _
              (parse_u64-Between env _ 100 5_000 (omega arith))
              λ b hb. record { attempts = ha; elapsed = omega arith; backoff = omega arith }

check_batch-le : (batch queue : ℕ) → Ensures (λ _. batch ≤ queue) (check_batch batch queue)
check_batch-le batch queue = ground arith

from_env-Ensures : (env : Env) → Ensures InRange (from_env env)
unfolding from_env
from_env-Ensures env =
    >>=-Ensures (Between 1 65_536) InRange _ _
      (parse_usize-Between env _ 2_048 65_536 (omega arith))
      λ q hq.
        >>=-Ensures (Between 1 4_096) InRange _ _
          (parse_usize-Between env _ 512 4_096 (omega arith))
          λ b hb.
            >>=-Ensures (λ _. b ≤ q) InRange _ _ (check_batch-le b q)
              λ u hu.
                >>=-Ensures (Between 1 8) InRange _ _ (parse_usize-Between env _ 1 8 (omega arith))
                  λ c hc.
                    >>=-Ensures (Between 1 60_000) InRange _ _
                      (parse_u64-Between env _ 1_000 60_000 (omega arith))
                      λ d hd.
                        >>=-Ensures (Between 1 30_000) InRange _ _
                          (parse_first_u64-Between env _ 3_000 30_000 (omega arith))
                          λ x hx.
                            >>=-Ensures (Between 1 2_000) InRange _ _
                              (parse_u64-Between env _ 500 2_000 (omega arith))
                              λ s hs.
                                >>=-Ensures RetryInRange InRange _ _ (retry_from_env-InRange env)
                                  λ r hr. record {
                                    queue = hq;
                                    batch = hb;
                                    batch_fits = hu;
                                    concurrent = hc;
                                    delay = omega arith;
                                    export = omega arith;
                                    shutdown = omega arith;
                                    retry = hr;
                                  }

-- Every configuration that `from_env` returns lies within the declared limits, whatever the
-- environment holds, and a batch never exceeds the queue.
pub from_env-InRange :
    (env : Env) (config : BatchProcessorConfig) → from_env env ≡ ok config → InRange config
from_env-InRange env config = Ensures-eq InRange (from_env env) (from_env-Ensures env)
