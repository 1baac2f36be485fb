-- ===== src/Prelude/Split.antt =====
-- Laws of the operations on byte strings: splitting what was joined, trimming what has no blanks.
use otel_php_rust.Prelude.Tests.{◌==◌, Bool-cases, Option-cases, ==_iff}
use otel_php_rust.Prelude.Lists.{all, any, take, drop}
use otel_php_rust.Prelude.Bytes.{
  Bytes, split, split_once, position, trim_start, trim_end, trim_matches, last_or,
}
use Prim.Native.Nat.{ℕ, zero, suc}
use mathlib.Core.Path.{◌≡◌, refl, ap}
use mathlib.Core.Logic.{inl, inr}
use mathlib.Core.Bool.{Bool, true, false, ◌||◌}
use mathlib.Core.List.{[], ◌∷◌, ◌++◌}
use mathlib.Core.Option.{some}
use native.Mathlib.Omega.{arith}

-- The byte does not occur.
abbrev pub IsFree : ℕ → Bytes → Type 0
IsFree sep s = any (λ c. c == sep) s ≡ false

pub all_mono :
    (p q : ℕ → Bool)
    → ((c : ℕ) → p c ≡ true → q c ≡ true)
    → (s : Bytes) → all p s ≡ true
    → all q s ≡ true
all_mono p q f [] h = refl
all_mono p q f (c ∷ s) h = ground (arith, f c, all_mono p q f s)

pub IsFree-all :
    (sep : ℕ) (p : ℕ → Bool) → p sep ≡ false → (s : Bytes) → all p s ≡ true → IsFree sep s
IsFree-all sep p e [] h = refl
IsFree-all sep p e (c ∷ s) h = elim (Bool-cases (c == sep)) [
  | inl same ↦ let q : p c ≡ p sep = ap p ((==_iff c sep).0 same) in ground arith
  | inr apart ↦ ground (arith, IsFree-all sep p e s)
]

pub any-append : (p : ℕ → Bool) (xs ys : Bytes) → any p (xs ++ ys) ≡ (any p xs || any p ys)
any-append p [] ys = refl
any-append p (x ∷ xs) ys = ground (arith, any-append p xs ys)

pub split_piece :
    (sep : ℕ) (piece rest : Bytes)
    → IsFree sep piece
    → split sep (piece ++ (sep ∷ rest)) ≡ piece ∷ split sep rest
unfolding split
split_piece sep [] rest h = ground (arith, (==_iff sep sep).1 refl)
split_piece sep (c ∷ piece) rest h = ground (arith, split_piece sep piece rest)

pub split_last : (sep : ℕ) (piece : Bytes) → IsFree sep piece → split sep piece ≡ piece ∷ []
unfolding split
split_last sep [] h = refl
split_last sep (c ∷ piece) h = ground (arith, split_last sep piece)

pub split_once-append :
    (sep : ℕ) (before after : Bytes)
    → IsFree sep before
    → split_once sep (before ++ (sep ∷ after)) ≡ some (before, after)
unfolding split_once
split_once-append sep [] after h = ground arith
split_once-append sep (c ∷ before) after h = ground (arith, split_once-append sep before after)

pub trim_end_id :
    (p : ℕ → Bool) (c : ℕ) (s : Bytes) → p (last_or s c) ≡ false → trim_end p (c ∷ s) ≡ c ∷ s
unfolding trim_end
trim_end_id p c [] h = rw h
trim_end_id p c (d ∷ s) h = ground (arith, trim_end_id p d s h)

pub trim_matches_id :
    (p : ℕ → Bool) (c : ℕ) (s : Bytes)
    → p c ≡ false
    → p (last_or s c) ≡ false
    → trim_matches p (c ∷ s) ≡ c ∷ s
unfolding trim_start
trim_matches_id p c s first last = rw first (trim_end_id p c s last)

pub last_or-append :
    (xs : Bytes) (y : ℕ) (ys : Bytes) (d : ℕ) → last_or (xs ++ (y ∷ ys)) d ≡ last_or ys y
last_or-append [] y ys d = refl
last_or-append (x ∷ xs) y ys d = last_or-append xs y ys x

-- The byte found, and what stands before and behind it.
pub all-position :
    (b : ℕ) (p : ℕ → Bool) (s : Bytes) (i : ℕ)
    → position b s ≡ some i
    → all p (take i s) ≡ true
    → all p (drop (suc i) s) ≡ true
    → all (λ c. p c || c == b) s ≡ true
unfolding position
all-position b p [] i e h k = cc
all-position b p (c ∷ s) zero e h k = elim (Option-cases (position b s)) [
  | inl f ↦ ground (arith, all_mono p (λ x. p x || x == b) (λ x q. ground arith) s)
  | inr (j, f) ↦ ground (arith, all_mono p (λ x. p x || x == b) (λ x q. ground arith) s)
]
all-position b p (c ∷ s) (suc i) e h k = elim (Option-cases (position b s)) [
  | inl f ↦ ground arith
  | inr (j, f) ↦ ground (arith, all-position b p s i)
]
