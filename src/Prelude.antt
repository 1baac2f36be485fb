-- ===== src/Prelude.antt =====
-- The names that the other modules share: the libraries' names in use, Boolean tests on the native
-- numbers, lists measured by native numbers, and texts as lists of bytes.
pub mod Tests
pub mod Lists
pub mod Bytes
pub mod Signed
pub mod Split
pub mod Results
pub mod Maps
pub use Prim.Native.Nat.{
  ℕ, zero, suc, ◌+◌, ◌-◌, ◌*◌, ◌/◌, ◌%◌, ◌^◌, ◌≤◌, ◌<◌, min, max, compare, Ordering,
}
pub use mathlib.Core.Path.{◌≡◌, refl, sym, ap, ◌∙◌}
pub use mathlib.Core.Logic.{◌≢◌, ◌↔◌, ◌⊎◌, inl, inr}
pub use mathlib.Core.Bool.{Bool, true, false, not, ◌&&◌, ◌||◌}
pub use mathlib.Core.Option.{Option, none, some}
pub use mathlib.Core.List.{List, [], ◌∷◌, ◌++◌, map, append-nil, append_assoc}
pub use native.Mathlib.Omega.{arith}
pub use Tests.{
  ltb, leb, ◌==◌, if◌then◌else◌, ltb→lt, lt→ltb, leb→le, le→leb, ==_iff, tests, Bool-cases,
  Option-cases, eq_of_some, ◌>>=◌, get_or, option_map, or_else, IfSome, IfSome-eq, IfSome-mono,
  if-either,
}
pub use Lists.{
  length, get_elem?, take, drop, remove, sum, is_empty, all, any, All, length-append, All-last,
  All-mono, length-remove,
}
