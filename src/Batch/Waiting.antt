-- ===== src/Batch/Waiting.antt =====
-- The wait between two export attempts: its end and its delay.
use otel_php_rust.Prelude.{
  ℕ, zero, suc, ◌+◌, ◌-◌, ◌*◌, ◌/◌, ◌%◌, ◌≤◌, ◌<◌, ◌≡◌, refl, min, Bool, true, false, some, arith,
  Bool-cases, inl, inr, ◌==◌, ◌||◌, ◌&&◌, not, leb,
}
use mathlib.Core.Path.{subst}
use native.Mathlib.Nat.{mul-le-mul_left}
use otel_php_rust.Batch.Attempt.{Poll, backoff_slice, jittered, wait_backoff}

-- A round that ends the wait: it sees the abort flag, a flush, or the end of the delay.
abbrev pub is_over : ℕ → Poll → Bool
is_over delay p = p.abort || (p.flush || leb delay p.now)

-- None of the first rounds ends the wait.
abbrev pub goes_on : ℕ → (ℕ → Poll) → ℕ → Bool
goes_on delay polls zero = true
goes_on delay polls (suc j) = goes_on delay polls j && not (is_over delay (polls j))

-- `j` is the first round that ends the wait.
pub record Ends (delay : ℕ) (polls : ℕ → Poll) (j : ℕ) : Type 0 where
  pub went_on : goes_on delay polls j ≡ true
  pub over : is_over delay (polls j) ≡ true

-- Each round of the loop sleeps for what is left of the delay, or for one slice.
pub record Sleeps (delay : ℕ) (polls : ℕ → Poll) : Type 0 where
  pub sleep :
      (k : ℕ) → (polls k).now + min (delay - (polls k).now) backoff_slice ≤ (polls (k + 1)).now

module _ (delay : ℕ) (polls : ℕ → Poll) (sleeps : Sleeps delay polls) where
  goes_on-suc :
      (k : ℕ)
      → goes_on delay polls k ≡ true
      → is_over delay (polls k) ≡ false
      → goes_on delay polls (k + 1) ≡ true
  goes_on-suc k h e =
      let one_more : suc k ≡ k + 1 = omega arith in
      let longer : goes_on delay polls (suc k) ≡ true = rw (h, e) refl in
      subst (λ n. goes_on delay polls n ≡ true) one_more longer

  wait_backoff-from :
      (fuel k : ℕ)
      → 1 ≤ fuel
      → delay ≤ (polls k).now + backoff_slice * (fuel - 1)
      → goes_on delay polls k ≡ true
      → (j : ℕ) × (wait_backoff fuel delay k polls ≡ some (polls j).abort) × Ends delay polls j
  unfolding wait_backoff
  wait_backoff-from zero k pos le h = absurd (omega arith)
  wait_backoff-from (suc fuel) k pos le h = elim (Bool-cases (polls k).abort) [
    | inl a ↦ (k, rw a refl, record { went_on = h; over = rw a refl })
    | inr a ↦ elim (Bool-cases (polls k).flush) [
      | inl f ↦ (k, rw (a, f) refl, record { went_on = h; over = rw (a, f) refl })
      | inr f ↦ elim (Bool-cases (delay - (polls k).now == 0)) [
        | inl over ↦
            let late : leb delay (polls k).now ≡ true = ground arith in
            (k, rw (a, f, over) refl, record { went_on = h; over = rw (a, f, late) refl })
        | inr left ↦
            let early : leb delay (polls k).now ≡ false = ground arith in
            let more : 0 < delay - (polls k).now = ground arith in
            let (j, runs, why) =
              wait_backoff-from fuel (k + 1) (omega (arith, sleeps.sleep k))
                (omega (arith, sleeps.sleep k)) (goes_on-suc k h (rw (a, f, early) refl)) in
            (j, rw (a, f, left) runs, why)
      ]
    ]
  ]

  -- Where each round of its loop takes at least the time that it sleeps, `wait_backoff` ends
  -- within one round for each slice of the delay and two more: it ends with the first round that
  -- sees the abort flag, a flush or the end of the delay, and says that it was aborted exactly if
  -- that round saw the abort flag.
  pub wait_backoff-Ends :
      (j : ℕ) × (wait_backoff (delay / backoff_slice + 2) delay 0 polls ≡ some (polls j).abort)
      × Ends delay polls j
  wait_backoff-Ends =
      wait_backoff-from (delay / backoff_slice + 2) 0 (omega arith) (omega arith) refl

div_mono : {a b : ℕ} → a ≤ b → a / 100 ≤ b / 100
div_mono h = omega arith

-- The delay that `jittered` makes of a backoff is within a fifth of it, rounded down.
pub jittered-within :
    (backoff random : ℕ)
    → (backoff * 80 / 100 ≤ jittered backoff random)
      × (jittered backoff random ≤ backoff * 120 / 100)
unfolding jittered
jittered-within backoff random =
    let least : 80 ≤ 80 + random % 41 = omega arith in
    let most : 80 + random % 41 ≤ 120 = omega arith in
    (div_mono (mul-le-mul_left backoff least), div_mono (mul-le-mul_left backoff most))
