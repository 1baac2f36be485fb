-- ===== src/Prelude/Maps.antt =====
-- Rust's `HashMap` as an association list, with the test of its keys as an argument.
use mathlib.Core.Path.{◌≡◌, refl}
use mathlib.Core.Logic.{◌↔◌, inl, inr}
use mathlib.Core.Bool.{Bool, true, false}
use mathlib.Core.List.{List, [], ◌∷◌}
use mathlib.Core.Option.{Option, none, some}
use native.Mathlib.Omega.{arith}
use otel_php_rust.Prelude.Tests.{if◌then◌else◌, Bool-cases}
use otel_php_rust.Prelude.Bytes.{bytes_eq, bytes_eq_iff, bytes_eq_refl}

abbrev pub Map {ℓ κ} : Type ℓ → Type κ → Type (ℓ ⊔ κ)
Map K V = List (K × V)

-- The test of the keys agrees with their equality.
pub record IsTest {ℓ} {K : Type ℓ} (same : K → K → Bool) : Type ℓ where
  pub same_refl : (k : K) → same k k ≡ true
  pub same_iff : (j k : K) → (same j k ≡ true) ↔ (j ≡ k)

module _ {ℓ κ} {K : Type ℓ} {V : Type κ} (same : K → K → Bool) where
  unfoldable pub find : K → Map K V → Option V
  find key [] = none
  find key ((k, v) ∷ rest) = if same k key then some v else find key rest

  unfoldable pub erase : K → Map K V → Map K V
  erase key [] = []
  erase key ((k, v) ∷ rest) =
      let kept = erase key rest in if same k key then kept else (k, v) ∷ kept

  unfoldable pub insert : K → V → Map K V → Map K V
  unfolding erase
  insert key v entries = (key, v) ∷ erase key entries

  module _ (test : IsTest same) where
    pub find-insert : (key : K) (v : V) (m : Map K V) → find key (insert key v m) ≡ some v
    unfolding find insert
    find-insert key v m = rw (test.same_refl key) refl

    pub find-erase :
        (key other : K) (m : Map K V)
        → same key other ≡ false
        → find other (erase key m) ≡ find other m
    unfolding find erase
    find-erase key other [] apart = refl
    find-erase key other ((k, v) ∷ m) apart = elim (Bool-cases (same k key)) [
      | inl this ↦
          let moved : same k other ≡ false = rw ((test.same_iff k key).0 this) apart in
          rw (this, moved) (find-erase key other m apart)
      | inr that ↦ rw that (ground (arith, find-erase key other m apart))
    ]

    pub find-insert_other :
        (key other : K) (v : V) (m : Map K V)
        → same key other ≡ false
        → find other (insert key v m) ≡ find other m
    unfolding find insert
    find-insert_other key other v m apart = rw apart (find-erase key other m apart)

    pub find-erase_same : (key : K) (m : Map K V) → find key (erase key m) ≡ none
    unfolding find erase
    find-erase_same key [] = refl
    find-erase_same key ((k, v) ∷ m) = elim (Bool-cases (same k key)) [
      | inl this ↦ rw this (find-erase_same key m)
      | inr that ↦ rw that (ground (arith, find-erase_same key m))
    ]

    -- Every key behind an insertion, and behind an erasure.
    pub find-insert_any :
        (key other : K) (v : V) (m : Map K V)
        → find other (insert key v m) ≡ (if same key other then some v else find other m)
    find-insert_any key other v m = elim (Bool-cases (same key other)) [
      | inl this ↦ rw (this, (test.same_iff key other).0 this) (find-insert other v m)
      | inr that ↦ rw that (find-insert_other key other v m that)
    ]

    pub find-erase_any :
        (key other : K) (m : Map K V)
        → find other (erase key m) ≡ (if same key other then none else find other m)
    find-erase_any key other m = elim (Bool-cases (same key other)) [
      | inl this ↦ rw (this, (test.same_iff key other).0 this) (find-erase_same other m)
      | inr that ↦ rw that (find-erase key other m that)
    ]

pub bytes_eq-IsTest : IsTest bytes_eq
bytes_eq-IsTest = record { same_refl = bytes_eq_refl; same_iff = bytes_eq_iff }
