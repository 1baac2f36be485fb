-- ===== src/Prelude/Bytes.antt =====
-- Rust's `str` and `[u8]` as lists of bytes, with the standard library's operations that the
-- program uses. The separators are ASCII, so an operation on a `str` is one on its bytes.
use Prim.Native.Nat.{ℕ, suc, ◌+◌}
use Prim.Native.Char.{code}
use Prim.Native.String.{String}
use mathlib.Core.Path.{◌≡◌, refl}
use mathlib.Core.Logic.{◌↔◌}
use mathlib.Core.Bool.{Bool, true, false, ◌&&◌}
use mathlib.Core.List.{List, [], ◌∷◌}
use mathlib.Core.Option.{Option, none, some}
use native.Mathlib.Omega.{arith}
use otel_php_rust.Prelude.Tests.{leb, ◌==◌, if◌then◌else◌, option_map}
use otel_php_rust.Prelude.Lists.{is_empty}

abbrev pub Bytes : Type 0
Bytes = List ℕ

-- The code points of a literal: its bytes, as every literal here is ASCII.
abbrev pub codes : String → Bytes
codes String.[] = []
codes (String.◌∷◌ c s) = code c ∷ codes s

abbrev pub within : ℕ → ℕ → ℕ → Bool
within lo hi c = leb lo c && leb c hi

abbrev pub is_ascii_digit : ℕ → Bool
is_ascii_digit = within b'0' b'9'

abbrev pub is_ascii_lowercase : ℕ → Bool
is_ascii_lowercase = within b'a' b'z'

abbrev pub bytes_eq : Bytes → Bytes → Bool
bytes_eq [] [] = true
bytes_eq (x ∷ xs) (y ∷ ys) = x == y && bytes_eq xs ys
bytes_eq _ _ = false

pub bytes_eq_iff : (a b : Bytes) → (bytes_eq a b ≡ true) ↔ (a ≡ b)
bytes_eq_iff (x ∷ a) (y ∷ b) = ground (arith, bytes_eq_iff a b)
bytes_eq_iff _ _ = ground arith

pub bytes_eq_refl : (a : Bytes) → bytes_eq a a ≡ true
bytes_eq_refl a = (bytes_eq_iff a a).1 refl

-- Put a byte in front of the first piece.
abbrev pub cons_head : ℕ → List Bytes → List Bytes
cons_head c [] = (c ∷ []) ∷ []
cons_head c (p ∷ ps) = (c ∷ p) ∷ ps

-- `split(sep)`: the pieces between separators, at least one.
unfoldable pub split : ℕ → Bytes → List Bytes
split sep [] = [] ∷ []
split sep (c ∷ cs) = let rest = split sep cs in if c == sep then [] ∷ rest else cons_head c rest

-- `split_once(sep)`.
unfoldable pub split_once : ℕ → Bytes → Option (Bytes × Bytes)
split_once sep [] = none
split_once sep (c ∷ cs) =
    if c == sep then some ([], cs) else option_map (λ p. (c ∷ p.0, p.1)) (split_once sep cs)

-- `iter().position(|byte| byte == b)`.
unfoldable pub position : ℕ → Bytes → Option ℕ
position b [] = none
position b (c ∷ cs) = if c == b then some 0 else option_map suc (position b cs)

unfoldable pub trim_start : (ℕ → Bool) → Bytes → Bytes
trim_start p [] = []
trim_start p (c ∷ cs) = if p c then trim_start p cs else c ∷ cs

unfoldable pub trim_end : (ℕ → Bool) → Bytes → Bytes
trim_end p [] = []
trim_end p (c ∷ cs) = let rest = trim_end p cs in if p c && is_empty rest then [] else c ∷ rest

-- `trim_matches(p)`.
abbrev pub trim_matches : (ℕ → Bool) → Bytes → Bytes
trim_matches p s = trim_end p (trim_start p s)

-- `filter(p).count()`.
abbrev pub count : (ℕ → Bool) → Bytes → ℕ
count p [] = 0
count p (c ∷ cs) = if p c then 1 + count p cs else count p cs

abbrev pub last_or : Bytes → ℕ → ℕ
last_or [] d = d
last_or (c ∷ cs) d = last_or cs c
