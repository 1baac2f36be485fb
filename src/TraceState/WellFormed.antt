-- ===== src/TraceState/WellFormed.antt =====
-- The invariant of a tracestate list of trace_state.rs: valid members, distinct keys, at most 32 of
-- them.
use mathlib.Core.Path.{subst}
use otel_php_rust.Prelude.{
  ◌≤◌, ◌<◌, ◌≡◌, refl, true, false, ◌||◌, Option, none, some, List, [], ◌∷◌, ◌++◌, arith, length,
  All, All-last, length-append, Bool-cases, Option-cases, eq_of_some, if◌then◌else◌, inl, inr,
}
use otel_php_rust.Prelude.Bytes.{
  Bytes, bytes_eq, bytes_eq_iff, bytes_eq_refl, split, split_once, trim_matches,
}
use otel_php_rust.TraceState.{
  Member, TraceStateState, valid_key, valid_value, has_member, validate_member, parse_member,
  parse_members, is_blank, parse_pair, parse, retain_other, with_member, without,
}

abbrev pub IsValidMember : Member → Type 0
IsValidMember (key, value) = (valid_key key ≡ true) × (valid_value value ≡ true)

abbrev pub Distinct : List Member → Type 0
Distinct [] = Unit {0}
Distinct ((key, value) ∷ rest) = (has_member rest key ≡ false) × Distinct rest

pub record IsWellFormed (members : List Member) : Type 0 where
  pub valid : All IsValidMember members
  pub distinct : Distinct members
  pub bounded : length members ≤ 32

pub has_member-append :
    (xs ys : List Member) (key : Bytes)
    → has_member (xs ++ ys) key ≡ (has_member xs key || has_member ys key)
has_member-append [] ys key = refl
has_member-append ((existing, value) ∷ xs) ys key = ground (arith, has_member-append xs ys key)

pub Distinct-concat :
    (xs : List Member) (key value : Bytes)
    → Distinct xs
    → has_member xs key ≡ false
    → Distinct (xs ++ (key, value) ∷ [])
Distinct-concat [] key value d h = (refl, tt)
Distinct-concat ((existing, old) ∷ xs) key value d h = ground (
  arith,
  has_member-append xs ((key, value) ∷ []) existing,
  bytes_eq_iff existing key,
  bytes_eq_iff key existing,
  Distinct-concat xs key value d.1,
)

pub valid_key-has_member :
    (xs : List Member) (key : Bytes)
    → All IsValidMember xs
    → has_member xs key ≡ true
    → valid_key key ≡ true
valid_key-has_member [] key a h = cc
valid_key-has_member ((existing, value) ∷ xs) key a h =
    ground (arith, bytes_eq_iff existing key, valid_key-has_member xs key a.1)

pub push-IsWellFormed :
    (members : List Member) (key value : Bytes)
    → IsWellFormed members
    → validate_member members key value ≡ true
    → has_member members key ≡ false
    → IsWellFormed (members ++ (key, value) ∷ [])
unfolding validate_member
push-IsWellFormed members key value w v fresh = record {
  valid = All-last IsValidMember members _ w.valid (ground arith, ground arith);
  distinct = Distinct-concat members key value w.distinct fresh;
  bounded = ground (arith, length-append members ((key, value) ∷ []));
}

parse_pair-IsWellFormed :
    (members : List Member) (pair : Option (Bytes × Bytes)) (next : List Member)
    → IsWellFormed members
    → parse_pair members pair ≡ some next
    → IsWellFormed next
unfolding parse_pair
parse_pair-IsWellFormed members none next w h = cc
parse_pair-IsWellFormed members (some (key, value)) next w h =
    elim (Bool-cases (validate_member members key value)) [
      | inl v ↦ elim (Bool-cases (has_member members key)) [
        | inl old ↦ let e : members ≡ next = eq_of_some (rw (v, old) at h) in subst IsWellFormed e w
        | inr fresh ↦
            let e : members ++ (key, value) ∷ [] ≡ next = eq_of_some (rw (v, fresh) at h) in
            subst IsWellFormed e (push-IsWellFormed members key value w v fresh)
      ]
      | inr v ↦ absurd (cc (rw v at h))
    ]

parse_member-IsWellFormed :
    (members : List Member) (raw : Bytes) (next : List Member)
    → IsWellFormed members
    → parse_member members raw ≡ some next
    → IsWellFormed next
unfolding parse_member
parse_member-IsWellFormed members raw next w h =
    ground
      (arith, parse_pair-IsWellFormed members (split_once b'=' (trim_matches is_blank raw)) next w)

parse_members-IsWellFormed :
    (pieces : List Bytes) (members next : List Member)
    → IsWellFormed members
    → parse_members members pieces ≡ some next
    → IsWellFormed next
unfolding parse_members
parse_members-IsWellFormed [] members next w h = subst IsWellFormed (eq_of_some h) w
parse_members-IsWellFormed (raw ∷ rest) members next w h =
    elim (Option-cases (parse_member members raw)) [
      | inl e ↦ absurd (cc (rw e at h))
      | inr (mid, e) ↦
          parse_members-IsWellFormed rest mid next (parse_member-IsWellFormed members raw mid w e)
            (rw e at h)
    ]

empty-IsWellFormed : IsWellFormed []
empty-IsWellFormed = record { valid = tt; distinct = tt; bounded = omega arith }

-- Whatever the header, the parsed list holds valid members under distinct keys, at most 32 of
-- them.
pub parse-IsWellFormed : (raw : Bytes) → IsWellFormed (parse raw).members
unfolding parse
parse-IsWellFormed raw = elim (Option-cases (parse_members [] (split b',' raw))) [
  | inl e ↦ rw e empty-IsWellFormed
  | inr (next, e) ↦ rw e (parse_members-IsWellFormed (split b',' raw) [] next empty-IsWellFormed e)
]

-- `retain` keeps validity and distinctness, drops the key, and shortens the list if it was there.
pub has_member-retain_other :
    (key other : Bytes) (members : List Member)
    → has_member (retain_other key members) other
      ≡ (if bytes_eq other key then false else has_member members other)
unfolding retain_other
has_member-retain_other key other [] = ground arith
has_member-retain_other key other ((existing, value) ∷ rest) = ground (
  arith,
  bytes_eq_iff existing key,
  bytes_eq_iff existing other,
  bytes_eq_iff other key,
  has_member-retain_other key other rest,
)

All-retain_other {ℓ} :
    (P : Member → Type ℓ) (key : Bytes) (members : List Member)
    → All P members
    → All P (retain_other key members)
unfolding retain_other
All-retain_other P key [] a = tt
All-retain_other P key ((existing, value) ∷ rest) a =
    ground (arith, All-retain_other P key rest a.1)

Distinct-retain_other :
    (key : Bytes) (members : List Member) → Distinct members → Distinct (retain_other key members)
unfolding retain_other
Distinct-retain_other key [] d = tt
Distinct-retain_other key ((existing, value) ∷ rest) d =
    ground (arith, has_member-retain_other key existing rest, Distinct-retain_other key rest d.1)

pub length-retain_other-le :
    (key : Bytes) (members : List Member) → length (retain_other key members) ≤ length members
unfolding retain_other
length-retain_other-le key [] = omega arith
length-retain_other-le key ((existing, value) ∷ rest) =
    ground (arith, length-retain_other-le key rest)

length-retain_other-lt :
    (key : Bytes) (members : List Member)
    → has_member members key ≡ true
    → length (retain_other key members) < length members
unfolding retain_other
length-retain_other-lt key [] h = cc
length-retain_other-lt key ((existing, value) ∷ rest) h =
    ground (arith, length-retain_other-le key rest, length-retain_other-lt key rest)

retain_other-IsWellFormed :
    (key : Bytes) (members : List Member)
    → IsWellFormed members
    → IsWellFormed (retain_other key members)
retain_other-IsWellFormed key members w = record {
  valid = All-retain_other IsValidMember key members w.valid;
  distinct = Distinct-retain_other key members w.distinct;
  bounded = omega (arith, length-retain_other-le key members);
}

-- `with` keeps the list well-formed, whatever key and value it is called with.
pub with_member-IsWellFormed :
    (state : TraceStateState) (key value : Bytes)
    → IsWellFormed state.members
    → IsWellFormed (with_member state key value).members
unfolding with_member validate_member
with_member-IsWellFormed state key value w =
    let kept = retain_other-IsWellFormed key state.members w in
    elim (Bool-cases (validate_member state.members key value)) [
      | inr e ↦ rw e w
      | inl e ↦ rw e (record {
        valid = (
          (ground (arith, valid_key-has_member state.members key w.valid), ground arith),
          kept.valid,
        );
        distinct = (
          ground (arith, has_member-retain_other key key state.members, bytes_eq_refl key),
          kept.distinct,
        );
        bounded = ground (
          arith,
          length-retain_other-le key state.members,
          length-retain_other-lt key state.members,
        );
      })
    ]

-- `without` keeps the list well-formed.
pub without-IsWellFormed :
    (state : TraceStateState) (key : Bytes)
    → IsWellFormed state.members
    → IsWellFormed (without state key).members
unfolding without
without-IsWellFormed state key w = elim (Bool-cases (has_member state.members key)) [
  | inr e ↦ rw e w
  | inl e ↦ rw e (retain_other-IsWellFormed key state.members w)
]
