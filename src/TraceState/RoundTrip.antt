-- ===== src/TraceState/RoundTrip.antt =====
-- `parse` on what `header` writes.
use otel_php_rust.Prelude.{
  ℕ, ◌+◌, ◌≤◌, ◌<◌, ◌≡◌, refl, ap, ◌∙◌, Bool, true, false, ◌||◌, some, List, [], ◌∷◌, ◌++◌, arith,
  length, all, All, length-append, append_assoc, append-nil, inl, inr, map, ◌==◌, Option-cases,
  is_empty, lt→ltb,
}
use otel_php_rust.Prelude.Bytes.{
  Bytes, bytes_eq_iff, split, position, trim_start, trim_end, trim_matches,
}
use otel_php_rust.Prelude.Split.{
  IsFree, all_mono, IsFree-all, any-append, split_piece, split_last, split_once-append,
  trim_matches_id, last_or-append, all-position,
}
use otel_php_rust.TraceState.{
  Member, TraceStateState, allowed, valid_key, valid_value, has_member, validate_member, is_blank,
  parse_member, parse_members, parse_pair, parse, print_member, join_members, header_of, header,
}
use otel_php_rust.TraceState.WellFormed.{
  IsValidMember, Distinct, IsWellFormed, has_member-append, parse-IsWellFormed,
}

-- The bytes of which a valid key consists.
abbrev key_byte : ℕ → Bool
key_byte c = allowed c || c == b'@'

valid_key-bytes : (key : Bytes) → valid_key key ≡ true → all key_byte key ≡ true
unfolding valid_key
valid_key-bytes [] h = cc
valid_key-bytes (first ∷ rest) h = elim (Option-cases (position b'@' (first ∷ rest))) [
  | inl e ↦ ground (arith, all_mono allowed key_byte (λ c q. rw q) (first ∷ rest))
  | inr (at, e) ↦ ground (arith, all-position b'@' allowed (first ∷ rest) at)
]

valid_key-IsFree :
    (sep : ℕ) (key : Bytes) → key_byte sep ≡ false → valid_key key ≡ true → IsFree sep key
valid_key-IsFree sep key e h = IsFree-all sep key_byte e key (valid_key-bytes key h)

valid_value-IsFree : (value : Bytes) → valid_value value ≡ true → IsFree b',' value
unfolding valid_value
valid_value-IsFree value h = ground arith

-- A printed member holds no comma.
print_member-IsFree : (m : Member) → IsValidMember m → IsFree b',' (print_member m)
unfolding allowed
print_member-IsFree (key, value) v =
    any-append (λ c. c == b',') key (b'=' ∷ value)
    ∙ rw (valid_key-IsFree b',' key refl v.0) (valid_value-IsFree value v.1)

-- Nor a blank at an end.
trim_print_member :
    (m : Member) → IsValidMember m → trim_matches is_blank (print_member m) ≡ print_member m
unfolding valid_key valid_value
trim_print_member ([], value) v = absurd (cc (v.0))
trim_print_member (first ∷ key, []) v = absurd (cc (v.1))
trim_print_member (first ∷ key, c ∷ value) v =
    trim_matches_id is_blank first (key ++ (b'=' ∷ c ∷ value))
      (ground (
        arith,
        valid_key-IsFree b' ' (first ∷ key) refl v.0,
        valid_key-IsFree b'\t' (first ∷ key) refl v.0,
      ))
      (rw (last_or-append key b'=' (c ∷ value) first) (ground (arith, v.1)))

is_empty_print : (m : Member) → is_empty (print_member m) ≡ false
is_empty_print ([], value) = refl
is_empty_print (c ∷ key, value) = refl

parse_member-print :
    (members : List Member) (m : Member)
    → IsValidMember m
    → has_member members m.0 ≡ false
    → length members < 32
    → parse_member members (print_member m) ≡ some (members ++ m ∷ [])
unfolding parse_member
parse_member-print members (key, value) v fresh room =
    rw
      (
        trim_print_member (key, value) v,
        is_empty_print (key, value),
        split_once-append b'=' key value (valid_key-IsFree b'=' key (unfold allowed in refl) v.0),
      )
      (unfold parse_pair validate_member in rw (fresh, v.0, v.1, lt→ltb (length members) 32 room))

-- The members still to be read do not occur among those read.
abbrev Apart : List Member → List Member → Type 0
Apart members = All (λ m. has_member members m.0 ≡ false)

Apart-nil : (rest : List Member) → Apart [] rest
Apart-nil [] = tt
Apart-nil (m ∷ rest) = (refl, Apart-nil rest)

Apart-concat :
    (members : List Member) (m : Member) (rest : List Member)
    → has_member rest m.0 ≡ false
    → Apart members rest
    → Apart (members ++ m ∷ []) rest
Apart-concat members m [] h a = tt
Apart-concat members (key, value) ((other, old) ∷ rest) h a = (
  ground (
    arith,
    has_member-append members ((key, value) ∷ []) other,
    bytes_eq_iff key other,
    bytes_eq_iff other key,
  ),
  Apart-concat members (key, value) rest (ground arith) a.1,
)

parse_members-print :
    (rest members : List Member)
    → All IsValidMember rest
    → Distinct rest
    → Apart members rest
    → length members + length rest ≤ 32
    → parse_members members (map print_member rest) ≡ some (members ++ rest)
unfolding parse_members
parse_members-print [] members v d a b = rw append-nil
parse_members-print (m ∷ rest) members v d a b =
    rw (parse_member-print members m v.0 a.0 (omega arith)) (
      parse_members-print rest (members ++ m ∷ []) v.1 d.1 (Apart-concat members m rest d.0 a.1)
        (omega (arith, length-append members (m ∷ [])))
      ∙ ap some (append_assoc members (m ∷ []) rest))

split-join :
    (m : Member) (rest : List Member)
    → All IsValidMember (m ∷ rest)
    → split b',' (join_members m rest) ≡ map print_member (m ∷ rest)
unfolding join_members
split-join m [] v = split_last b',' (print_member m) (print_member-IsFree m v.0)
split-join m (n ∷ rest) v =
    split_piece b',' (print_member m) (join_members n rest) (print_member-IsFree m v.0)
    ∙ ap (◌∷◌ (print_member m)) (split-join n rest v.1)

parse-header_of :
    (members : List Member) → IsWellFormed members → (parse (header_of members)).members ≡ members
parse-header_of [] w = unfold parse header_of trim_start trim_end in refl
parse-header_of (m ∷ rest) w =
    unfold parse header_of in
    rw (
      split-join m rest w.valid,
      parse_members-print (m ∷ rest) [] w.valid w.distinct (Apart-nil (m ∷ rest))
          (omega (arith, w.bounded)),
    )

-- A well-formed list written by `header` is read back by `parse` as it was.
pub parse-header :
    (state : TraceStateState) → IsWellFormed state.members → parse (header state) ≡ state
unfolding header
parse-header state w = λ i. record { members = parse-header_of state.members w i }

-- Parsing a header, writing it and parsing again gives the list of the first parse.
pub parse-header-parse : (raw : Bytes) → parse (header (parse raw)) ≡ parse raw
parse-header-parse raw = parse-header (parse raw) (parse-IsWellFormed raw)
