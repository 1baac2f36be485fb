-- ===== src/Transport/Headers.antt =====
-- `resolve_headers`, `parse_header_entry` and `percent_decode` of otel/src/trace/otlp_transport.rs.
use otel_php_rust.Prelude.{
  ℕ, ◌+◌, ◌*◌, Bool, not, Option, none, some, List, [], ◌∷◌, ◌==◌, ◌>>=◌, if◌then◌else◌, is_empty,
  option_map,
}
use otel_php_rust.Prelude.Bytes.{Bytes, codes, bytes_eq, split, split_once}
use otel_php_rust.Prelude.Results.{Result, ok, err}
use otel_php_rust.Attributes.Config.{trim}
use otel_php_rust.Baggage.Parser.{hex_value}
use otel_php_rust.Transport.{EnvOf, trace_or_generic}

-- What the program uses of the crate http: `HeaderName::from_str`, which normalises the name,
-- `HeaderValue::from_bytes` and whether `to_str` succeeds.
pub record HeaderCrate : Type 0 where
  pub name_from_str : Bytes → Option Bytes
  pub value_from_bytes : Bytes → Bool
  pub is_visible : Bytes → Bool

-- `u8::from_str_radix` with base 16 on two bytes; the first may be a plus sign.
unfoldable pub from_hex : ℕ → ℕ → Option ℕ
from_hex high low =
    if high == b'+'
    then hex_value low
    else (do h ← hex_value high; l ← hex_value low; some (h * 16 + l))

unfoldable pub percent_decode : Bytes → Option Bytes
percent_decode [] = some []
percent_decode (byte ∷ []) = if byte == b'%' then none else some (byte ∷ [])
percent_decode (byte ∷ high ∷ []) =
    let behind = percent_decode (high ∷ []) in
    if byte == b'%' then none else option_map (λ rest. byte ∷ rest) behind
percent_decode (byte ∷ high ∷ low ∷ rest) =
    let behind = percent_decode rest in
    let next = percent_decode (high ∷ low ∷ rest) in
    if byte == b'%'
    then (do decoded ← from_hex high low; others ← behind; some (decoded ∷ others))
    else option_map (λ others. byte ∷ others) next

pub data HeaderError : Type 0 where
  missing_equals empty_name invalid_name empty_value invalid_encoding : HeaderError
  invalid_value not_visible : HeaderError

module _ (http : HeaderCrate) where
  -- The tests of the decoded value.
  abbrev pub check_value : Bytes → Bytes → Result HeaderError (Bytes × Bytes)
  check_value name decoded =
      if not (http.value_from_bytes decoded)
      then err invalid_value
      else if not (http.is_visible decoded)
      then err not_visible
      else ok (name, decoded)

  unfoldable pub parse_header_value : Bytes → Bytes → Result HeaderError (Bytes × Bytes)
  parse_header_value name value =
      if is_empty value then err empty_value else elim (percent_decode value) [
        | none ↦ err invalid_encoding
        | some decoded ↦ check_value name decoded
      ]

  unfoldable pub parse_header_name : Bytes → Bytes → Result HeaderError (Bytes × Bytes)
  parse_header_name key value =
      if is_empty key then err empty_name else elim (http.name_from_str key) [
        | none ↦ err invalid_name
        | some name ↦ parse_header_value name (trim value)
      ]

  unfoldable pub parse_header_entry : Bytes → Result HeaderError (Bytes × Bytes)
  parse_header_entry entry = elim (split_once b'=' entry) [
    | none ↦ err missing_equals
    | some (key, value) ↦ parse_header_name (trim key) value
  ]

  -- A repeated key keeps its place and takes the last value.
  unfoldable pub set_header : Bytes → Bytes → List (Bytes × Bytes) → List (Bytes × Bytes)
  set_header key value [] = (key, value) ∷ []
  set_header key value ((existing, old) ∷ headers) =
      let others = set_header key value headers in
      if bytes_eq existing key then (existing, value) ∷ headers else (existing, old) ∷ others

  -- The loop over the entries; a malformed one is passed over.
  unfoldable pub add_entries : List (Bytes × Bytes) → List Bytes → List (Bytes × Bytes)
  add_entries headers [] = headers
  add_entries headers (piece ∷ pieces) =
      let skipped = add_entries headers pieces in
      if is_empty (trim piece) then skipped else elim (parse_header_entry (trim piece)) [
        | err _ ↦ skipped
        | ok (key, value) ↦ add_entries (set_header key value headers) pieces
      ]

  unfoldable pub resolve_headers : EnvOf → List (Bytes × Bytes)
  resolve_headers env = elim (trace_or_generic env (codes "HEADERS")) [
    | none ↦ []
    | some (_, raw) ↦ add_entries [] (split b',' raw)
  ]
