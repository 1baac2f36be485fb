-- ===== src/Baggage/Escapes.antt =====
-- The value escapes of the `baggage` header: `url_decode` on what `url_encode` writes.
use otel_php_rust.Prelude.{
  ℕ, ◌/◌, ◌%◌, ◌<◌, ◌≡◌, refl, ap, ◌∙◌, true, false, some, [], ◌∷◌, ◌++◌, arith, ◌==◌, Bool-cases,
  inl, inr, All,
}
use otel_php_rust.Prelude.Bytes.{Bytes}
use otel_php_rust.Baggage.Parser.{hex_value, escaped, plain, url_decode}
use otel_php_rust.Baggage.Propagator.{hex_digit, is_unreserved, encode_byte, url_encode}

url_decode-plain :
    (byte : ℕ) (rest : Bytes)
    → (byte == b'%') ≡ false
    → url_decode (byte ∷ rest) ≡ plain byte ∷ url_decode rest
unfolding url_decode escaped
url_decode-plain byte [] h = refl
url_decode-plain byte (high ∷ []) h = refl
url_decode-plain byte (high ∷ low ∷ rest) h = ground arith

hex_value-hex_digit : (d : ℕ) → d < 16 → hex_value (hex_digit d) ≡ some d
unfolding hex_value
hex_value-hex_digit d h = ground arith

escaped-hex :
    (byte : ℕ)
    → byte < 256
    → escaped b'%' (hex_digit (byte / 16)) (hex_digit (byte % 16)) ≡ some byte
unfolding escaped
escaped-hex byte h =
    rw
      (hex_value-hex_digit (byte / 16) (omega arith), hex_value-hex_digit (byte % 16) (omega arith))
      (ap some (omega arith))

unreserved-plain :
    (byte : ℕ) → is_unreserved byte ≡ true → ((byte == b'%') ≡ false) × (plain byte ≡ byte)
unfolding is_unreserved
unreserved-plain byte h = ground arith

is_space : (byte : ℕ) → (byte == b' ') ≡ true → b' ' ≡ byte
is_space byte h = ground arith

url_decode-encode_byte :
    (byte : ℕ) (rest : Bytes)
    → byte < 256
    → url_decode (encode_byte byte ++ rest) ≡ byte ∷ url_decode rest
unfolding encode_byte url_decode
url_decode-encode_byte byte rest h = elim (Bool-cases (is_unreserved byte)) [
  | inl un ↦ rw un (
      url_decode-plain byte rest (unreserved-plain byte un).0
      ∙ ap (λ b. b ∷ url_decode rest) (unreserved-plain byte un).1)
  | inr res ↦ elim (Bool-cases (byte == b' ')) [
    | inl space ↦
        rw (res, space)
          (url_decode-plain b'+' rest refl ∙ ap (λ b. b ∷ url_decode rest) (is_space byte space))
    | inr other ↦ rw (res, other) (rw (escaped-hex byte h) refl)
  ]
]

-- Every byte string is read back by `url_decode` from what `url_encode` writes.
pub url_decode-url_encode :
    (value : Bytes) → All (λ byte. byte < 256) value → url_decode (url_encode value) ≡ value
unfolding url_encode
url_decode-url_encode [] h = unfold url_decode in refl
url_decode-url_encode (byte ∷ rest) h =
    url_decode-encode_byte byte (url_encode rest) h.0
    ∙ ap (◌∷◌ byte) (url_decode-url_encode rest h.1)
