-- ===== src/Baggage/Propagator.antt =====
-- otel/src/baggage/propagation/baggage_propagator.rs: the printer of the `baggage` header and what
-- `extract` does with a header. Keys of an array that PHP turned into integers print as they were.
use otel_php_rust.Prelude.{
  ℕ, ◌+◌, ◌-◌, ◌/◌, ◌%◌, Bool, ◌||◌, Option, none, some, [], ◌∷◌, ◌++◌, leb, ◌==◌, if◌then◌else◌,
  is_empty,
}
use otel_php_rust.Prelude.Bytes.{Bytes, within, is_ascii_digit, is_ascii_lowercase}
use otel_php_rust.Baggage.{Entry, BaggageEntries}
use otel_php_rust.Baggage.Parser.{is_php_empty, parse_into_builder}

abbrev pub hex_digit : ℕ → ℕ
hex_digit value = if leb value 9 then b'0' + value else b'A' + (value - 10)

unfoldable pub is_unreserved : ℕ → Bool
is_unreserved byte =
    within b'A' b'Z' byte
    || is_ascii_lowercase byte
    || is_ascii_digit byte
    || (byte == b'-' || byte == b'_' || byte == b'.')

unfoldable pub encode_byte : ℕ → Bytes
unfolding is_unreserved
encode_byte byte =
    if is_unreserved byte
    then byte ∷ []
    else if byte == b' '
    then b'+' ∷ []
    else b'%' ∷ hex_digit (byte / 16) ∷ hex_digit (byte % 16) ∷ []

unfoldable pub url_encode : Bytes → Bytes
unfolding encode_byte
url_encode [] = []
url_encode (byte ∷ rest) = encode_byte byte ++ url_encode rest

-- `key=value;metadata`.
unfoldable pub print_entry : Bytes → Entry → Bytes
unfolding url_encode
print_entry key entry =
    let pair = key ++ (b'=' ∷ url_encode entry.value) in
    if is_php_empty entry.metadata then pair else pair ++ (b';' ∷ entry.metadata)

-- The loop over the entries, with the header built so far.
unfoldable pub print_entries : Bytes → BaggageEntries → Bytes
unfolding print_entry
print_entries header [] = header
print_entries header ((key, entry) ∷ rest) =
    print_entries ((if is_empty header then [] else header ++ (b',' ∷ [])) ++ print_entry key entry)
      rest

unfoldable pub baggage_header : BaggageEntries → Bytes
unfolding print_entries
baggage_header entries = print_entries [] entries

-- The header that `inject` sets, if any.
unfoldable pub inject : BaggageEntries → Option Bytes
unfolding baggage_header
inject entries =
    let header = baggage_header entries in if is_php_empty header then none else some header

-- The entries of the baggage that `extract` puts into the context; `none` leaves the context alone.
unfoldable pub extract : Option Bytes → Option BaggageEntries
extract none = none
extract (some header) = if is_php_empty header then none else some (parse_into_builder header [])
