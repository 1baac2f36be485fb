-- ===== src/TraceState.antt =====
-- otel/src/trace/trace_state.rs: the W3C tracestate list, its parser, its validation and the PHP
-- methods on it. `toString` with a limit is in TraceState/Limit.
pub mod Limit
pub mod WellFormed
pub mod RoundTrip
pub mod Methods
pub mod Dropping
pub mod Shortened
mod Examples
use otel_php_rust.Prelude.{
  ℕ, ◌+◌, ◌-◌, Bool, true, false, not, ◌&&◌, ◌||◌, Option, none, some, List, [], ◌∷◌, ◌++◌, ltb,
  leb, ◌==◌, if◌then◌else◌, ◌>>=◌, get_or, length, get_elem?, take, drop, is_empty, all, any,
}
use otel_php_rust.Prelude.Bytes.{
  Bytes, within, is_ascii_digit, is_ascii_lowercase, bytes_eq, split, split_once, position,
  trim_matches, count, last_or,
}

abbrev pub Member : Type 0
Member = Bytes × Bytes

pub record TraceStateState : Type 0 where
  pub members : List Member

-- `Self::default()`.
abbrev pub empty_state : TraceStateState
empty_state = record { members = [] }

-- The closure `allowed`.
unfoldable pub allowed : ℕ → Bool
allowed byte =
    is_ascii_lowercase byte
    || is_ascii_digit byte
    || (byte == b'_' || byte == b'-' || byte == b'*' || byte == b'/')

-- The branch on a key with its first `@` at position `at`.
pub valid_tenant_key : Bytes → ℕ → ℕ → Bool
unfolding allowed
valid_tenant_key key first at =
    let vendor_start = at + 1 in
    elim (get_elem? key vendor_start) [
      | none ↦ false
      | some vendor_first ↦
          if not (count (λ byte. byte == b'@') key == 1)
            || at == 0
            || ltb 241 at
            || length key - vendor_start == 0
            || ltb 14 (length key - vendor_start)
            || not (is_ascii_lowercase first || is_ascii_digit first)
            || not (is_ascii_lowercase vendor_first)
          then false
          else all allowed (take at key) && all allowed (drop vendor_start key)
    ]

unfoldable pub valid_key : Bytes → Bool
unfolding valid_tenant_key
valid_key [] = false
valid_key (first ∷ rest) =
    let key = first ∷ rest in
    if ltb 256 (length key) then false else elim (position b'@' key) [
      | some at ↦ valid_tenant_key key first at
      | none ↦ is_ascii_lowercase first && all allowed key
    ]

unfoldable pub valid_value : Bytes → Bool
valid_value value =
    not (is_empty value)
    && leb (length value) 256
    && all (within 0x20 0x7e) value
    && within 0x21 0x7e (last_or value 0)
    && not (any (λ byte. byte == b',') value)
    && not (any (λ byte. byte == b'=') value)

-- `members.iter().any(|(existing, _)| existing == key)`.
abbrev pub has_member : List Member → Bytes → Bool
has_member [] key = false
has_member ((existing, _) ∷ rest) key = bytes_eq existing key || has_member rest key

unfoldable pub validate_member : List Member → Bytes → Bytes → Bool
validate_member members key value =
    let existing = has_member members key in
    (existing || valid_key key) && valid_value value && (ltb (length members) 32 || existing)

-- The separators that `trim_matches([' ', '\t'])` takes off.
abbrev pub is_blank : ℕ → Bool
is_blank c = c == b' ' || c == b'\t'

-- The loop body of `parse` from the `split_once` on; `none` is `return Self::default()`.
pub parse_pair : List Member → Option (Bytes × Bytes) → Option (List Member)
parse_pair members none = none
parse_pair members (some (key, value)) =
    if not (validate_member members key value)
    then none
    else if not (has_member members key)
    then some (members ++ (key, value) ∷ [])
    else some members

-- One round of the loop of `parse`, on a piece between commas.
unfoldable pub parse_member : List Member → Bytes → Option (List Member)
unfolding parse_pair
parse_member members raw =
    let member = trim_matches is_blank raw in
    if is_empty member then some members else parse_pair members (split_once b'=' member)

unfoldable pub parse_members : List Member → List Bytes → Option (List Member)
parse_members members [] = some members
parse_members members (raw ∷ rest) = do next ← parse_member members raw; parse_members next rest

unfoldable pub parse : Bytes → TraceStateState
unfolding parse_members parse_member split
parse raw = record { members = get_or (parse_members [] (split b',' raw)) [] }

-- `format!("{key}={value}")`.
abbrev pub print_member : Member → Bytes
print_member (key, value) = key ++ (b'=' ∷ value)

-- `collect::<Vec<_>>().join(",")`.
unfoldable pub join_members : Member → List Member → Bytes
join_members m [] = print_member m
join_members m (n ∷ rest) = print_member m ++ (b',' ∷ join_members n rest)

unfoldable pub header_of : List Member → Bytes
unfolding join_members
header_of [] = []
header_of (m ∷ rest) = join_members m rest

unfoldable pub header : TraceStateState → Bytes
unfolding header_of
header state = header_of state.members

-- `members.retain(|(existing, _)| existing != key)`.
unfoldable pub retain_other : Bytes → List Member → List Member
retain_other key [] = []
retain_other key ((existing, value) ∷ rest) =
    let kept = retain_other key rest in
    if not (bytes_eq existing key) then (existing, value) ∷ kept else kept

-- The PHP method `with`: an invalid member leaves the list as it was.
unfoldable pub with_member : TraceStateState → Bytes → Bytes → TraceStateState
unfolding retain_other
with_member this key value =
    if not (validate_member this.members key value)
    then this
    else record { members = (key, value) ∷ retain_other key this.members }

-- The PHP method `without`.
unfoldable pub without : TraceStateState → Bytes → TraceStateState
unfolding retain_other
without this key =
    if not (has_member this.members key)
    then this
    else record { members = retain_other key this.members }

unfoldable pub find_member : List Member → Bytes → Option Bytes
find_member [] key = none
find_member ((existing, value) ∷ rest) key =
    if bytes_eq existing key then some value else find_member rest key

-- The PHP method `get`.
unfoldable pub get : TraceStateState → Bytes → Option Bytes
unfolding find_member
get this key = find_member this.members key

-- The PHP method `getListMemberCount`.
unfoldable pub get_list_member_count : TraceStateState → ℕ
get_list_member_count this = length this.members
