-- ===== src/TraceState/Examples.antt =====
-- Tests of the tracestate list on concrete headers, and its theorems at such lists.
use mathlib.Core.List.{Sublist}
use otel_php_rust.Prelude.{
  ◌≡◌, refl, ◌⊎◌, false, ◌&&◌, if◌then◌else◌, some, List, [], ◌∷◌, arith, length,
}
use otel_php_rust.Prelude.Bytes.{codes, bytes_eq, trim_end, trim_start, split_once, position, split}
use otel_php_rust.Prelude.Signed.{pos}
use otel_php_rust.TraceState.{
  Member, TraceStateState, empty_state, valid_key, valid_value, validate_member, parse, header,
  with_member, get,
}
use otel_php_rust.TraceState.Limit.{
  exceeds, drop_members, drop_passes, limited_members, limited_header,
}
use otel_php_rust.TraceState.WellFormed.{IsWellFormed, parse-IsWellFormed, with_member-IsWellFormed}
use otel_php_rust.TraceState.RoundTrip.{parse-header}
use otel_php_rust.TraceState.Methods.{get-with_member}
use otel_php_rust.TraceState.Shortened.{limited_header-sublist}

abbrev sample : TraceStateState
sample = record {
  members = (codes "rojo", codes "00f067aa0ba902b7") ∷ (codes "t61@congo", codes "x y") ∷ [];
}

parse-sample : parse (codes " rojo=00f067aa0ba902b7 ,, t61@congo=x y") ≡ sample
unfolding parse trim_end trim_start split_once validate_member valid_key valid_value position split
parse-sample = refl

-- One bad member discards the whole list.
parse-bad_value : parse (codes "rojo=1,congo=a=b") ≡ empty_state
unfolding parse trim_end trim_start split_once validate_member valid_key valid_value position split
parse-bad_value = refl

-- The first of two members with one key is kept.
parse-twice_the_same : parse (codes "rojo=1,rojo=2") ≡ parse (codes "rojo=1")
unfolding parse trim_end trim_start split_once validate_member valid_key valid_value position split
parse-twice_the_same = refl

parse-upper_case : parse (codes "Rojo=1") ≡ empty_state
unfolding parse trim_end trim_start split_once validate_member valid_key valid_value position split
parse-upper_case = refl

header-sample : header sample ≡ codes "rojo=00f067aa0ba902b7,t61@congo=x y"
unfolding header
header-sample = refl

limited_sample : limited_header sample (some (pos 21)) ≡ codes "rojo=00f067aa0ba902b7"
unfolding limited_header limited_members drop_passes drop_members header
limited_sample = refl

sample-IsWellFormed : IsWellFormed sample.members
unfolding valid_key valid_value position
sample-IsWellFormed = record {
  valid = ((refl, refl), ((refl, refl), tt));
  distinct = (refl, (refl, tt));
  bounded = omega arith;
}

parse-header_example : parse (header sample) ≡ sample
parse-header_example = parse-header sample sample-IsWellFormed

get-with_member_example : get (with_member sample (codes "rojo") (codes "7")) (codes "rojo") ≡ (
    if validate_member sample.members (codes "rojo") (codes "7")
      && bytes_eq (codes "rojo") (codes "rojo")
    then some (codes "7")
    else get sample (codes "rojo"))
get-with_member_example = get-with_member sample (codes "rojo") (codes "7") (codes "rojo")

parse-IsWellFormed_example : IsWellFormed (parse (codes "rojo=1,congo=2")).members
parse-IsWellFormed_example = parse-IsWellFormed (codes "rojo=1,congo=2")

with_member-IsWellFormed_example : IsWellFormed (with_member sample (codes "k") (codes "v")).members
with_member-IsWellFormed_example =
    with_member-IsWellFormed sample (codes "k") (codes "v") sample-IsWellFormed

limited_header-sublist_example :
    (kept : List Member) × (limited_header sample (some (pos 21))
      ≡ header (record { members = kept }))
    × Sublist kept sample.members
    × ((kept ≡ []) ⊎ (exceeds (length (limited_header sample (some (pos 21)))) (pos 21) ≡ false))
limited_header-sublist_example = limited_header-sublist sample (pos 21)
