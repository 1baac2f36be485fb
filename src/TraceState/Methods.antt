-- ===== src/TraceState/Methods.antt =====
-- The PHP methods `get`, `with` and `without` against the view of the list as a map.
use otel_php_rust.Prelude.{
  ◌≡◌, refl, false, ◌&&◌, none, some, List, [], ◌∷◌, arith, Bool-cases, inl, inr, if◌then◌else◌,
}
use otel_php_rust.Prelude.Bytes.{Bytes, bytes_eq, bytes_eq_iff}
use otel_php_rust.TraceState.{
  Member, TraceStateState, has_member, validate_member, retain_other, with_member, without,
  find_member, get,
}

find_member-retain_other :
    (key other : Bytes) (members : List Member)
    → find_member (retain_other key members) other
      ≡ (if bytes_eq key other then none else find_member members other)
unfolding find_member retain_other
find_member-retain_other key other [] = ground arith
find_member-retain_other key other ((existing, value) ∷ rest) = ground (
  arith,
  bytes_eq_iff existing key,
  bytes_eq_iff existing other,
  bytes_eq_iff key other,
  find_member-retain_other key other rest,
)

find_member-has_member :
    (members : List Member) (key : Bytes)
    → has_member members key ≡ false
    → find_member members key ≡ none
unfolding find_member
find_member-has_member [] key h = refl
find_member-has_member ((existing, value) ∷ rest) key h =
    ground (arith, find_member-has_member rest key)

-- After `with`, the key has the new value if the member was valid, and every other key its old
-- one.
pub get-with_member :
    (state : TraceStateState) (key value other : Bytes)
    → get (with_member state key value) other ≡ (
        if validate_member state.members key value && bytes_eq key other
        then some value
        else get state other)
unfolding get with_member find_member
get-with_member state key value other =
    elim (Bool-cases (validate_member state.members key value)) [
      | inl v ↦ rw v (ground (arith, find_member-retain_other key other state.members))
      | inr v ↦ rw v refl
    ]

-- After `without`, the key is gone and every other key has its old value.
pub get-without :
    (state : TraceStateState) (key other : Bytes)
    → get (without state key) other ≡ (if bytes_eq key other then none else get state other)
unfolding get without
get-without state key other = elim (Bool-cases (has_member state.members key)) [
  | inl h ↦ rw h (find_member-retain_other key other state.members)
  | inr h ↦
      rw h (ground (arith, bytes_eq_iff key other, find_member-has_member state.members key h))
]
