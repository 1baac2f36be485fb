-- ===== src/Baggage/Parser.antt =====
-- otel/src/baggage/propagation/parser.rs: the parser of the `baggage` header.
use otel_php_rust.Prelude.{
  ℕ, ◌+◌, ◌-◌, ◌*◌, Bool, ◌||◌, Option, none, some, List, [], ◌∷◌, ltb, leb, ◌==◌, if◌then◌else◌,
  ◌>>=◌, length, is_empty, any,
}
use otel_php_rust.Prelude.Bytes.{
  Bytes, within, is_ascii_digit, bytes_eq, split, split_once, trim_matches,
}
use otel_php_rust.Baggage.{BaggageEntries, set}

abbrev pub is_trimmed : ℕ → Bool
is_trimmed c = c == b' ' || c == b'\n' || c == b'\r' || c == b'\t' || c == 0x0b || c == 0

abbrev pub trim_php : Bytes → Bytes
trim_php value = trim_matches is_trimmed value

unfoldable pub is_php_empty : Bytes → Bool
is_php_empty value = is_empty value || bytes_eq value (b'0' ∷ [])

unfoldable pub hex_value : ℕ → Option ℕ
hex_value byte =
    if is_ascii_digit byte
    then some (byte - b'0')
    else if within b'a' b'f' byte
    then some (byte - b'a' + 10)
    else if within b'A' b'F' byte
    then some (byte - b'A' + 10)
    else none

-- The byte that `%` and two hexadecimal digits stand for.
unfoldable pub escaped : ℕ → ℕ → ℕ → Option ℕ
unfolding hex_value
escaped byte high low =
    if byte == b'%' then (do h ← hex_value high; l ← hex_value low; some (h * 16 + l)) else none

abbrev pub plain : ℕ → ℕ
plain byte = if byte == b'+' then b' ' else byte

unfoldable pub url_decode : Bytes → Bytes
unfolding escaped
url_decode [] = []
url_decode (byte ∷ []) = plain byte ∷ []
url_decode (byte ∷ high ∷ []) = plain byte ∷ url_decode (high ∷ [])
url_decode (byte ∷ high ∷ low ∷ rest) =
    let next = url_decode (high ∷ low ∷ rest) in
    let behind = url_decode rest in
    if byte == b'+'
    then b' ' ∷ next
    else elim (escaped byte high low) [ some decoded ↦ decoded ∷ behind | none ↦ byte ∷ next ]

unfoldable pub key_has_excluded_character : Bytes → Bool
key_has_excluded_character = any λ byte.
    byte == b' '
    || byte == b'('
    || byte == b')'
    || byte == b'<'
    || byte == b'>'
    || byte == b'@'
    || byte == b','
    || byte == b';'
    || byte == b':'
    || byte == b'\\'
    || byte == b'"'
    || byte == b'/'
    || byte == b'['
    || byte == b']'
    || byte == b'?'
    || byte == b'='
    || byte == b'{'
    || byte == b'}'

unfoldable pub value_has_excluded_character : Bytes → Bool
value_has_excluded_character =
    any λ byte. byte == b' ' || byte == b'"' || byte == b',' || byte == b';' || byte == b'\\'

-- What a member of the header gives to `set`: a key, a value and the text of its metadata.
pub record Parsed : Type 0 where
  pub key : Bytes
  pub value : Bytes
  pub metadata : Option Bytes

-- `.map(trim_php).filter(|metadata| !is_php_empty(metadata))`.
unfoldable pub parse_metadata : Option Bytes → Option Bytes
parse_metadata none = none
parse_metadata (some text) =
    let metadata = trim_php text in if is_php_empty metadata then none else some metadata

-- The loop body from the slices at `=` on; `none` is `continue`.
unfoldable pub parse_entry : Bytes → Bytes → Option Bytes → Option Parsed
parse_entry raw_key raw_value metadata =
    let key = trim_php (url_decode (trim_php raw_key)) in
    let value = trim_php (url_decode (trim_php raw_value)) in
    if is_php_empty key || key_has_excluded_character key
    then none
    else if is_php_empty value || value_has_excluded_character value
    then none
    else some (record { key = key; value = value; metadata = parse_metadata metadata })

-- The loop body on the text in front of the semicolon and the one behind it.
unfoldable pub parse_pair_of : Bytes → Option Bytes → Option Parsed
parse_pair_of text metadata =
    let pair = trim_php text in
    if is_php_empty pair then none else elim (split_once b'=' pair) [
      | none ↦ none
      | some (raw_key, raw_value) ↦ parse_entry raw_key raw_value metadata
    ]

unfoldable pub parse_baggage_member : Bytes → Option Parsed
parse_baggage_member raw =
    let member = trim_php raw in
    if is_php_empty member then none else elim (split_once b';' member) [
      | none ↦ parse_pair_of member none
      | some (text, metadata) ↦ parse_pair_of text (some metadata)
    ]

-- The loop over the members, with the count of those accepted.
unfoldable pub parse_all : ℕ → List Bytes → BaggageEntries → BaggageEntries
parse_all accepted [] builder = builder
parse_all accepted (member ∷ rest) builder =
    let skipped = parse_all accepted rest builder in
    let taken =
      λ (p : Parsed). parse_all (accepted + 1) rest (set builder p.key p.value p.metadata) in
    if leb 180 accepted
    then builder
    else elim (parse_baggage_member member) [ none ↦ skipped | some p ↦ taken p ]

unfoldable pub parse_into_builder : Bytes → BaggageEntries → BaggageEntries
parse_into_builder header builder =
    if ltb 8_192 (length header) then builder else parse_all 0 (split b',' header) builder
