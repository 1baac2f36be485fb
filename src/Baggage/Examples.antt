-- ===== src/Baggage/Examples.antt =====
-- Tests of the baggage header's parser and printer, and the theorems of the baggage at examples.
use otel_php_rust.Prelude.{◌≡◌, refl, [], ◌∷◌, arith}
use otel_php_rust.Prelude.Bytes.{Bytes, codes, split, split_once, trim_start, trim_end}
use otel_php_rust.Baggage.{BaggageEntries, put, set}
use otel_php_rust.Baggage.Parser.{
  hex_value, escaped, url_decode, is_php_empty, key_has_excluded_character,
  value_has_excluded_character, parse_metadata, parse_entry, parse_pair_of, parse_baggage_member,
  parse_all, parse_into_builder,
}
use otel_php_rust.Baggage.Propagator.{
  is_unreserved, encode_byte, url_encode, print_entry, print_entries, baggage_header,
}
use otel_php_rust.Baggage.Escapes.{url_decode-url_encode}
use otel_php_rust.Baggage.Clean.{IsClean, parse_into_builder-IsClean}

abbrev two_entries : BaggageEntries
two_entries =
    (codes "user", record { value = codes "a+b"; metadata = [] })
    ∷ (codes "tier", record { value = codes "1"; metadata = codes "p=q" })
    ∷ []

abbrev two_members : Bytes
two_members = codes " user=a%2Bb , bad , tier = 1;p=q"

parse_into_builder-two_members : parse_into_builder two_members [] ≡ two_entries
unfolding parse_into_builder parse_all parse_baggage_member parse_pair_of parse_entry parse_metadata
    is_php_empty key_has_excluded_character value_has_excluded_character url_decode escaped
    hex_value set put split split_once trim_start trim_end
parse_into_builder-two_members = refl

baggage_header-two_entries : baggage_header two_entries ≡ codes "user=a%2Bb,tier=1;p=q"
unfolding baggage_header print_entries print_entry url_encode encode_byte is_unreserved is_php_empty
baggage_header-two_entries = refl

url_decode-stray : url_decode (codes "%zz%2") ≡ codes "%zz%2"
unfolding url_decode escaped hex_value
url_decode-stray = refl

url_decode-url_encode_example : url_decode (url_encode (codes "a b%~")) ≡ codes "a b%~"
url_decode-url_encode_example =
    url_decode-url_encode (codes "a b%~")
      (omega arith, (omega arith, (omega arith, (omega arith, (omega arith, tt)))))

parse_into_builder-IsClean_example : IsClean 180 (parse_into_builder two_members [])
parse_into_builder-IsClean_example = parse_into_builder-IsClean two_members
