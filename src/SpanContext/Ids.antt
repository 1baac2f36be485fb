-- ===== src/SpanContext/Ids.antt =====
-- The ids of the contexts that `create_context` of otel/src/trace/span_context.rs creates.
use otel_php_rust.Prelude.{
  ℕ, zero, suc, ◌+◌, ◌-◌, ◌*◌, ◌/◌, ◌%◌, ◌<◌, Bool, true, false, not, ◌&&◌, some, [], ◌∷◌, ◌≡◌,
  refl, sym, ap, ◌∙◌, arith, ◌==◌, if◌then◌else◌, leb, length, all, any, get_or, inl, inr,
  option_map, eq_of_some, Option-cases, ==_iff,
}
use otel_php_rust.Prelude.Bytes.{Bytes}
use otel_php_rust.SpanContext.{is_hex_byte, digit, valid_hex_id, decode_hex, IdCrate, id_of}

-- The hexadecimal text of bytes, in lowercase.
abbrev pub hex_digit_of : ℕ → ℕ
hex_digit_of n = if leb n 9 then b'0' + n else b'a' + n - 10

abbrev pub hex_of : Bytes → Bytes
hex_of [] = []
hex_of (byte ∷ rest) = hex_digit_of (byte / 16) ∷ hex_digit_of (byte % 16) ∷ hex_of rest

pub hex_digit_of-digit : (byte : ℕ) → is_hex_byte byte ≡ true → hex_digit_of (digit byte) ≡ byte
hex_digit_of-digit byte h = ground arith

pub digit-lt : (byte : ℕ) → is_hex_byte byte ≡ true → digit byte < 16
digit-lt byte h = ground arith

pub high_digit : (a b : ℕ) → b < 16 → (a * 16 + b) / 16 ≡ a
high_digit a b h = omega arith

pub low_digit : (a b : ℕ) → b < 16 → (a * 16 + b) % 16 ≡ b
low_digit a b h = omega arith

pub and_left : (a b : Bool) → (a && b) ≡ true → a ≡ true
and_left a b h = ground arith

pub and_right : (a b : Bool) → (a && b) ≡ true → b ≡ true
and_right a b h = ground arith

-- The bytes of an even number of digits print as these digits.
pub hex_of-decode_hex :
    (n : ℕ) (s : Bytes) → length s ≡ n + n → all is_hex_byte s ≡ true → hex_of (decode_hex s) ≡ s
unfolding decode_hex
hex_of-decode_hex n [] e h = refl
hex_of-decode_hex n (x ∷ []) e h = absurd (omega (arith, e))
hex_of-decode_hex zero (x ∷ y ∷ s) e h = absurd (omega (arith, e))
hex_of-decode_hex (suc n) (x ∷ y ∷ s) e h =
    let x_hex = and_left (is_hex_byte x) _ h in
    let rest = and_right (is_hex_byte x) _ h in
    let y_hex = and_left (is_hex_byte y) _ rest in
    rw
      (
        high_digit (digit x) (digit y) (digit-lt y y_hex),
        low_digit (digit x) (digit y) (digit-lt y y_hex),
        hex_digit_of-digit x x_hex,
        hex_digit_of-digit y y_hex,
        hex_of-decode_hex n s (omega (arith, e)) (and_right (is_hex_byte y) _ rest),
      )
      refl

abbrev pub zeros : ℕ → Bytes
zeros zero = []
zeros (suc n) = b'0' ∷ zeros n

-- What the crate says of its ids: an id is read from the digits that it prints, and the invalid id
-- prints as zeros.
pub record IdLaws {I : Type 0} (size : ℕ) (ids : IdCrate I) : Type 0 where
  pub print_from_hex :
      (s : Bytes) → valid_hex_id s size ≡ true → option_map ids.to_string (ids.from_hex s) ≡ some s
  pub print_invalid : ids.to_string ids.invalid ≡ zeros size

pub any_digit-zeros : (n : ℕ) → any (λ byte. not (byte == b'0')) (zeros n) ≡ false
any_digit-zeros zero = refl
any_digit-zeros (suc n) = any_digit-zeros n

pub hex-zeros : (n : ℕ) → all is_hex_byte (zeros n) ≡ true
hex-zeros zero = refl
hex-zeros (suc n) = hex-zeros n

pub length-zeros : (n : ℕ) → length (zeros n) ≡ n
length-zeros zero = refl
length-zeros (suc n) = ap suc (length-zeros n)

pub and_false : (a b c : Bool) → c ≡ false → (a && (b && c)) ≡ false
and_false a b c h = ground arith

pub valid_hex_id-zeros : (n size : ℕ) → valid_hex_id (zeros n) size ≡ false
unfolding valid_hex_id
valid_hex_id-zeros n size = and_false _ _ _ (any_digit-zeros n)

module _ {I : Type 0} (size : ℕ) (ids : IdCrate I) (laws : IdLaws size ids) where
  -- A valid id is read back from its own text.
  pub print-from_hex :
      (s : Bytes)
      → valid_hex_id s size ≡ true
      → ids.to_string (get_or (ids.from_hex s) ids.invalid) ≡ s
  print-from_hex s h = elim (Option-cases (ids.from_hex s)) [
    | inl e ↦ absurd (cc (laws.print_from_hex s h, ap (option_map ids.to_string) e))
    | inr (i, e) ↦
        ap (λ o. ids.to_string (get_or o ids.invalid)) e
        ∙ eq_of_some (sym (ap (option_map ids.to_string) e) ∙ laws.print_from_hex s h)
  ]

  -- What the id of a context prints as.
  pub print-id_of :
      (valid : Bool) (s : Bytes)
      → (valid ≡ true → valid_hex_id s size ≡ true)
      → ids.to_string (id_of ids valid s) ≡ (if valid then s else zeros size)
  unfolding id_of
  print-id_of true s h = print-from_hex s (h refl)
  print-id_of false s h = laws.print_invalid

-- The text is that of the bytes, where an id or zeros are printed.
pub hex_of-decode_id :
    (n : ℕ) (valid : Bool) (s : Bytes)
    → (valid ≡ true → valid_hex_id s (n + n) ≡ true)
    → hex_of (decode_hex (if valid then s else zeros (n + n)))
      ≡ (if valid then s else zeros (n + n))
unfolding valid_hex_id
hex_of-decode_id n true s h =
    let valid = h refl in
    hex_of-decode_hex n s ((==_iff (length s) (n + n)).0 (and_left (length s == n + n) _ valid))
      (and_left (all is_hex_byte s) _ (and_right (length s == n + n) _ valid))
hex_of-decode_id n false s h =
    hex_of-decode_hex n (zeros (n + n)) (length-zeros (n + n)) (hex-zeros (n + n))
