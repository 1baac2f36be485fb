-- ===== src/TraceState/Limit.antt =====
-- `limited_header` of otel/src/trace/trace_state.rs: the header cut down to a length.
use otel_php_rust.Prelude.{
  ℕ, zero, suc, ◌+◌, ◌-◌, min, Bool, true, false, Option, none, some, List, [], ◌∷◌, map,
  if◌then◌else◌, length, leb, ltb, get_elem?, remove, sum, is_empty,
}
use otel_php_rust.Prelude.Bytes.{Bytes}
use otel_php_rust.Prelude.Signed.{ℤ, pos, negsuc, i64_max}
use otel_php_rust.TraceState.{Member, TraceStateState, header}

-- `i64::try_from(length).unwrap_or(i64::MAX) > limit`.
abbrev pub exceeds : ℕ → ℤ → Bool
exceeds length (pos limit) = ltb limit (min length i64_max)
exceeds length (negsuc _) = true

-- `key.len() + 1 + value.len()`.
abbrev pub entry_length : Member → ℕ
entry_length (key, value) = length key + 1 + length value

abbrev pub total_length : List Member → ℕ
total_length members = sum (map entry_length members) + (length members - 1)

-- The loop `while index > 0`, with `index` the number of rounds left. The result is the list and
-- `length` as the loop leaves them.
unfoldable pub drop_members : ℤ → ℕ → ℕ → List Member → ℕ → List Member × ℕ
drop_members limit threshold zero members length = (members, length)
drop_members limit threshold (suc index) members length = elim (get_elem? members index) [
  | none ↦ drop_members limit threshold index members length
  | some member ↦ elim (leb (entry_length member) threshold) [
    | true ↦ drop_members limit threshold index members length
    | false ↦
        let members' = remove members index in
        let length' = length - (entry_length member + (if is_empty members' then 0 else 1)) in
        elim (exceeds length' limit) [
          | true ↦ drop_members limit threshold index members' length'
          | false ↦ (members', length')
        ]
  ]
]

-- The loop `for threshold in [128, 0]`.
unfoldable pub drop_passes : ℤ → List ℕ → List Member → ℕ → List Member
unfolding drop_members
drop_passes limit [] members len = members
drop_passes limit (threshold ∷ rest) members len =
    let (members', len') = drop_members limit threshold (length members) members len in
    let more = drop_passes limit rest members' len' in if exceeds len' limit then more else members'

-- The members of the list whose header is written.
unfoldable pub limited_members : List Member → ℤ → List Member
unfolding drop_passes
limited_members members limit =
    let len = total_length members in
    if exceeds len limit then drop_passes limit (128 ∷ 0 ∷ []) members len else members

unfoldable pub limited_header : TraceStateState → Option ℤ → Bytes
unfolding limited_members
limited_header this none = header this
limited_header this (some limit) = header (record { members = limited_members this.members limit })
