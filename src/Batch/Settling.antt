-- ===== src/Batch/Settling.antt =====
-- What `export_round` does to the counters when no shutdown aborts it.
use otel_php_rust.Prelude.{
  ℕ, zero, suc, ◌+◌, ◌-◌, ◌*◌, ◌/◌, ◌%◌, ◌≤◌, ◌<◌, min, ◌≡◌, refl, ap, true, false, Option, none,
  some, List, [], ◌∷◌, map, arith, ◌==◌, is_empty, Bool-cases, inl, inr, ◌⊎◌, Option-cases, IfSome,
  IfSome-eq, IfSome-mono,
}
use otel_php_rust.Prelude.Bytes.{Bytes}
use otel_php_rust.Batch.Classify.{OTelSdkError}
use otel_php_rust.Batch.Config.{RetryPolicy}
use otel_php_rust.Batch.Metrics.{BatchMetricsInner, usize_mod}
use otel_php_rust.Batch.Attempt.{
  Poll, Attempt, World, span_count, jittered, wait_backoff, backoff_cap, backoff_slice,
}
use otel_php_rust.Batch.Waiting.{Sleeps, wait_backoff-Ends}
use otel_php_rust.Batch.Tallying.{
  Leaves, Counted, retry_count, account_results-Tallies, account_results-retry, give_up-Counted,
}
use otel_php_rust.Batch.Round.{
  Tally, idle, give_up, may_retry_again, start_attempt, run_attempt, round_loop, export_round,
}

-- No shutdown aborts the export: the flag is never seen set.
pub record IsCalm {ℓ} {A : Type ℓ} (w : World A) : Type 0 where
  pub runs : (n : ℕ) → (w n).aborted ≡ false
  pub waits : (n delay k : ℕ) → ((w n).polls delay k).abort ≡ false

-- Each round of a wait takes at least the time that it sleeps.
pub record Elapses {ℓ} {A : Type ℓ} (w : World A) : Type 0 where
  pub sleeps : (n delay : ℕ) → Sleeps delay ((w n).polls delay)

-- A wait that nothing aborts does not say that it was aborted.
wait_backoff-calm :
    (fuel delay k : ℕ) (polls : ℕ → Poll)
    → ((j : ℕ) → (polls j).abort ≡ false)
    → IfSome (λ stops. stops ≡ false) (wait_backoff fuel delay k polls)
unfolding wait_backoff
wait_backoff-calm zero delay k polls h = tt
wait_backoff-calm (suc fuel) delay k polls h = rw (h k) (elim (Bool-cases (polls k).flush) [
  | inl f ↦ rw f refl
  | inr f ↦ rw f (elim (Bool-cases (delay - (polls k).now == 0)) [
    | inl e ↦ rw e refl
    | inr e ↦ rw e (wait_backoff-calm fuel delay (k + 1) polls h)
  ])
])

-- All `n` spans are counted, none is in flight, and the other side's counters are left alone.
pub record Settles (m m' : BatchMetricsInner) (n : ℕ) : Type 0 where
  pub counted : Counted m m' n
  pub landed : m'.in_flight ≡ 0
  pub leaves : Leaves m m'

module _ {ℓ} {A : Type ℓ} (show : OTelSdkError → Bytes) (policy : RetryPolicy) where
  record Attempted (attempt : ℕ) (m : BatchMetricsInner) (n : ℕ) (t : Tally A) : Type 0 where
    leaves : Leaves m t.counters
    counted :
        (t.counters.exported + t.counters.dropped_export_failure + retry_count t.retry) % usize_mod
        ≡ (m.exported + m.dropped_export_failure + n) % usize_mod
    more : (is_empty t.retry ≡ true) ⊎ (attempt < policy.max_attempts)

  run_attempt-Attempted :
      (attempt : ℕ) (a : Attempt A) (pending : List (List A)) (m : BatchMetricsInner)
      (first_error : Option Bytes)
      → Attempted attempt m
          (span_count pending)
          (run_attempt show policy attempt a pending m first_error)
  unfolding run_attempt
  run_attempt-Attempted attempt a pending m first_error =
      let may_retry = may_retry_again show policy attempt a in
      let start : Tally A = record {
        counters = start_attempt show attempt pending m;
        first_error = first_error;
        retry = [];
      } in
      let h = account_results-Tallies show may_retry attempt a pending 0 start in
      record {
        leaves = ground (arith, h.leaves);
        counted = ground (arith, h.counted);
        more = elim (Bool-cases may_retry) [
          | inl e ↦ inr (ground arith)
          | inr e ↦
              inl (ap is_empty (account_results-retry show may_retry attempt e a pending 0 start))
        ];
      }

  retry_count_of_empty :
      (retry : List (List A × Bytes)) → is_empty retry ≡ true → retry_count retry ≡ 0
  retry_count_of_empty [] h = refl
  retry_count_of_empty (r ∷ rs) h = absurd (cc h)

  module _ {attempt : ℕ} {m : BatchMetricsInner} {n : ℕ} {t : Tally A}
      (h : Attempted attempt m n t) where
    Settles-done : is_empty t.retry ≡ true → Settles m (idle t.counters) n
    Settles-done e = record {
      counted = omega (arith, h.counted, retry_count_of_empty t.retry e);
      landed = refl;
      leaves = ground (arith, h.leaves);
    }

    Settles-given_up : Settles m (idle (give_up show t.retry t.counters t.first_error).0) n
    Settles-given_up =
        let g = give_up-Counted show t.retry t.counters t.first_error in
        record {
          counted = omega (arith, h.counted, g.1);
          landed = refl;
          leaves = ground (arith, h.leaves, g.0);
        }

    Settles-again :
        {m' : BatchMetricsInner}
        → Settles (record t.counters { in_flight = retry_count t.retry }) m' (retry_count t.retry)
        → Settles m m' n
    Settles-again s = record {
      counted = omega (arith, h.counted, s.counted);
      landed = s.landed;
      leaves = ground (arith, h.leaves, s.leaves);
    }

    le_of_more : attempt < policy.max_attempts → attempt ≤ policy.max_attempts
    le_of_more lt = omega arith

    room_for_more : is_empty t.retry ≡ false → attempt < policy.max_attempts
    room_for_more e = elim h.more [ inl full ↦ absurd (cc (full, e)) | inr lt ↦ lt ]

  -- What the loop settles, if it ends.
  round_loop-Settles :
      (w : World A)
      → IsCalm w
      → (fuel : ℕ) (pending : List (List A)) (attempts backoff : ℕ) (m : BatchMetricsInner)
        (first_error : Option Bytes)
      → IfSome
          (λ r. Settles m r.0 (span_count pending))
          (round_loop show fuel policy w pending attempts backoff m first_error)
  unfolding round_loop
  round_loop-Settles w calm zero pending attempts backoff m first_error = tt
  round_loop-Settles w calm (suc fuel) pending attempts backoff m first_error =
      let a = w (attempts + 1) in
      let t = run_attempt show policy (attempts + 1) a pending m first_error in
      let h = run_attempt-Attempted (attempts + 1) a pending m first_error in
      let again = map (λ r. r.0) t.retry in
      let waiting = record t.counters { in_flight = span_count again } in
      let remaining = policy.max_elapsed - a.elapsed_after in
      let delay = min (min (jittered backoff a.random) backoff_cap) remaining in
      let wait = wait_backoff (delay / backoff_slice + 2) delay 0 (a.polls delay) in
      simp (calm.runs (attempts + 1)) (elim (Bool-cases (is_empty t.retry)) [
        | inl e ↦ rw e (Settles-done h e)
        | inr e ↦ rw e (elim (Bool-cases (remaining == 0)) [
          | inl z ↦ rw z (Settles-given_up h)
          | inr z ↦ rw z (elim (Option-cases wait) [
            | inl stuck ↦ rw stuck tt
            | inr (stops, waited) ↦
                let quiet : stops ≡ false =
                  IfSome-eq (λ b. b ≡ false) wait
                    (wait_backoff-calm (delay / backoff_slice + 2) delay 0 (a.polls delay)
                      (calm.waits (attempts + 1) delay))
                    waited in
                rw (waited, quiet)
                  (IfSome-mono
                    (λ (r : BatchMetricsInner × Option Bytes).
                      Settles waiting r.0 (span_count again))
                    (λ (r : BatchMetricsInner × Option Bytes). Settles m r.0 (span_count pending)) _
                    (λ r s. Settles-again h s)
                    (round_loop-Settles w calm fuel again (attempts + 1)
                      (min (backoff * 2) backoff_cap) waiting t.first_error))
          ])
        ])
      ])

  -- The loop ends.
  round_loop-ends :
      (w : World A)
      → IsCalm w
      → Elapses w
      → (fuel : ℕ) (pending : List (List A)) (attempts backoff : ℕ) (m : BatchMetricsInner)
        (first_error : Option Bytes)
      → attempts ≤ policy.max_attempts
      → policy.max_attempts < attempts + fuel
      → (r : BatchMetricsInner × Option Bytes) × (round_loop show fuel policy w pending attempts
            backoff m first_error
          ≡ some r)
  unfolding round_loop
  round_loop-ends w calm elapses zero pending attempts backoff m first_error le lt =
      absurd (omega arith)
  round_loop-ends w calm elapses (suc fuel) pending attempts backoff m first_error le lt =
      let a = w (attempts + 1) in
      let t = run_attempt show policy (attempts + 1) a pending m first_error in
      let h = run_attempt-Attempted (attempts + 1) a pending m first_error in
      let again = map (λ r. r.0) t.retry in
      let waiting = record t.counters { in_flight = span_count again } in
      let remaining = policy.max_elapsed - a.elapsed_after in
      let delay = min (min (jittered backoff a.random) backoff_cap) remaining in
      simp (calm.runs (attempts + 1)) (elim (Bool-cases (is_empty t.retry)) [
        | inl e ↦ rw e (_, refl)
        | inr e ↦ rw e (elim (Bool-cases (remaining == 0)) [
          | inl z ↦ rw z (_, refl)
          | inr z ↦
              let (j, waited, over) =
                wait_backoff-Ends delay (a.polls delay) (elapses.sleeps (attempts + 1) delay) in
              let (r, runs) =
                round_loop-ends w calm elapses fuel again (attempts + 1)
                  (min (backoff * 2) backoff_cap) waiting t.first_error
                  (le_of_more h (room_for_more h e)) (omega arith) in
              rw (z, waited, calm.waits (attempts + 1) delay j) (r, runs)
        ])
      ])

  pub export_round-counts :
      (w : World A) (pending : List (List A)) (m : BatchMetricsInner)
      → IsCalm w
      → IfSome (λ r. Settles m r.0 (span_count pending)) (export_round show policy w pending m)
  unfolding export_round
  export_round-counts w pending m calm =
      round_loop-Settles w calm (policy.max_attempts + 1) pending 0 policy.initial_backoff m none

  -- `export_round` ends, if no shutdown aborts it and each round of a wait takes at least the time
  -- that it sleeps, whatever the exporter answers and however long it takes: the policy's attempts
  -- are enough, and every wait between them ends. Every span of its batches is then counted once,
  -- as exported or as dropped for an export failure, none is in flight, and the counters of the
  -- request side are as they were.
  pub export_round-Settles :
      (w : World A) (pending : List (List A)) (m : BatchMetricsInner)
      → IsCalm w
      → Elapses w
      → (r : BatchMetricsInner × Option Bytes) × (export_round show policy w pending m ≡ some r)
        × Settles m r.0 (span_count pending)
  unfolding export_round
  export_round-Settles w pending m calm elapses =
      let (r, runs) =
        round_loop-ends w calm elapses (policy.max_attempts + 1) pending 0 policy.initial_backoff m
          none (omega arith) (omega arith) in
      (r, runs, IfSome-eq _ _ (export_round-counts w pending m calm) runs)
