-- ===== src/Baggage/Clean.antt =====
-- What the parser of the `baggage` header puts into an empty builder.
use otel_php_rust.Prelude.{
  ℕ, ◌+◌, ◌≤◌, ◌≡◌, refl, Bool, true, false, Option, none, some, List, [], ◌∷◌, arith, ltb, leb,
  if◌then◌else◌, Bool-cases, Option-cases, inl, inr, is_empty, get_or, length, All, ◌||◌, ◌⊎◌,
  if-either,
}
use otel_php_rust.Prelude.Bytes.{Bytes, bytes_eq, bytes_eq_iff, split, split_once}
use otel_php_rust.Baggage.{Entry, BaggageEntries, get_entry, put, set}
use otel_php_rust.Baggage.Methods.{get_entry-put}
use otel_php_rust.Baggage.Parser.{
  is_php_empty, key_has_excluded_character, value_has_excluded_character, Parsed, parse_metadata,
  parse_entry, parse_pair_of, parse_baggage_member, parse_all, parse_into_builder, url_decode,
  trim_php,
}

pub record IsCleanPair (key value : Bytes) : Type 0 where
  pub key_given : is_php_empty key ≡ false
  pub key_plain : key_has_excluded_character key ≡ false
  pub value_given : is_php_empty value ≡ false
  pub value_plain : value_has_excluded_character value ≡ false

abbrev pub IsCleanEntry : Bytes × Entry → Type 0
IsCleanEntry (key, entry) = IsCleanPair key entry.value

abbrev pub DistinctKeys : BaggageEntries → Type 0
DistinctKeys [] = Unit {0}
DistinctKeys ((key, _) ∷ rest) = (get_entry rest key ≡ none) × DistinctKeys rest

pub record IsClean (bound : ℕ) (entries : BaggageEntries) : Type 0 where
  pub clean : All IsCleanEntry entries
  pub distinct : DistinctKeys entries
  pub bounded : length entries ≤ bound

All-put :
    (entries : BaggageEntries) (key : Bytes) (entry : Entry)
    → All IsCleanEntry entries
    → IsCleanPair key entry.value
    → All IsCleanEntry (put entries key entry)
unfolding put
All-put [] key entry h k = (k, tt)
All-put ((candidate, existing) ∷ rest) key entry h k = elim (Bool-cases (bytes_eq candidate key)) [
  | inl same ↦ rw same (rw ((bytes_eq_iff candidate key).0 same) k, h.1)
  | inr other ↦ rw other (h.0, All-put rest key entry h.1 k)
]

DistinctKeys-put :
    (entries : BaggageEntries) (key : Bytes) (entry : Entry)
    → DistinctKeys entries
    → DistinctKeys (put entries key entry)
unfolding put
DistinctKeys-put [] key entry h = ((unfold get_entry in refl), tt)
DistinctKeys-put ((candidate, existing) ∷ rest) key entry h =
    elim (Bool-cases (bytes_eq candidate key)) [
      | inl same ↦ rw same h
      | inr other ↦
          let apart : bytes_eq key candidate ≡ false =
            ground (arith, bytes_eq_iff key candidate, bytes_eq_iff candidate key) in
          rw other (
            rw (get_entry-put rest key candidate entry, apart) h.0,
            DistinctKeys-put rest key entry h.1,
          )
    ]

length-put-le :
    (entries : BaggageEntries) (key : Bytes) (entry : Entry)
    → length (put entries key entry) ≤ length entries + 1
unfolding put
length-put-le [] key entry = omega arith
length-put-le ((candidate, existing) ∷ rest) key entry =
    ground (arith, length-put-le rest key entry)

set-IsClean :
    (bound : ℕ) (entries : BaggageEntries) (p : Parsed)
    → IsClean bound entries
    → IsCleanPair p.key p.value
    → IsClean (bound + 1) (set entries p.key p.value p.metadata)
unfolding set
set-IsClean bound entries p h k =
    let entry : Entry = record { value = p.value; metadata = get_or p.metadata [] } in
    elim (Bool-cases (is_empty p.key)) [
      | inl none_given ↦
          rw none_given
            (record { clean = h.clean; distinct = h.distinct; bounded = omega (arith, h.bounded) })
      | inr given ↦ rw given (record {
        clean = All-put entries p.key entry h.clean k;
        distinct = DistinctKeys-put entries p.key entry h.distinct;
        bounded = omega (arith, h.bounded, length-put-le entries p.key entry);
      })
    ]

accepted_pair :
    (key value : Bytes) (metadata : Option Bytes) (p : Parsed)
    → (if is_php_empty key || key_has_excluded_character key
        then none
        else if is_php_empty value || value_has_excluded_character value
        then none
        else some (record { key = key; value = value; metadata = metadata }))
      ≡ some p
    → IsCleanPair p.key p.value
accepted_pair key value metadata p h = ground arith

parse_entry-IsCleanPair :
    (raw_key raw_value : Bytes) (metadata : Option Bytes) (p : Parsed)
    → parse_entry raw_key raw_value metadata ≡ some p
    → IsCleanPair p.key p.value
unfolding parse_entry
parse_entry-IsCleanPair raw_key raw_value metadata p h =
    let key = trim_php (url_decode (trim_php raw_key)) in
    let value = trim_php (url_decode (trim_php raw_value)) in
    accepted_pair key value (parse_metadata metadata) p h

split_off :
    (sep : ℕ) (text : Bytes) (whole : Option Parsed) (parts : Bytes × Bytes → Option Parsed)
    (p : Parsed)
    → (elim (split_once sep text) [ none ↦ whole | some q ↦ parts q ]) ≡ some p
    → (whole ≡ some p) ⊎ ((q : Bytes × Bytes) × (parts q ≡ some p))
split_off sep text whole parts p h = elim (Option-cases (split_once sep text)) [
  | inl e ↦ inl (rw e at h)
  | inr (q, e) ↦ inr (q, rw e at h)
]

of_given :
    (c : Bool) (o : Option Parsed) (p : Parsed) → (if c then none else o) ≡ some p → o ≡ some p
of_given true o p h = absurd (cc h)
of_given false o p h = h

parse_pair_of-IsCleanPair :
    (text : Bytes) (metadata : Option Bytes) (p : Parsed)
    → parse_pair_of text metadata ≡ some p
    → IsCleanPair p.key p.value
unfolding parse_pair_of
parse_pair_of-IsCleanPair text metadata p h =
    let pair = trim_php text in
    elim (split_off b'=' pair none (λ q. parse_entry q.0 q.1 metadata) p
      (of_given (is_php_empty pair) _ p h)) [
        | inl e ↦ absurd (cc e)
        | inr (q, e) ↦ parse_entry-IsCleanPair q.0 q.1 metadata p e
      ]

parse_baggage_member-IsCleanPair :
    (raw : Bytes) (p : Parsed) → parse_baggage_member raw ≡ some p → IsCleanPair p.key p.value
unfolding parse_baggage_member
parse_baggage_member-IsCleanPair raw p h =
    let member = trim_php raw in
    elim (split_off b';' member (parse_pair_of member none) (λ q. parse_pair_of q.0 (some q.1)) p
      (of_given (is_php_empty member) _ p h)) [
        | inl e ↦ parse_pair_of-IsCleanPair member none p e
        | inr (q, e) ↦ parse_pair_of-IsCleanPair q.0 (some q.1) p e
      ]

parse_all-IsClean :
    (members : List Bytes) (accepted : ℕ) (builder : BaggageEntries)
    → accepted ≤ 180
    → IsClean accepted builder
    → IsClean 180 (parse_all accepted members builder)
unfolding parse_all
parse_all-IsClean [] accepted builder le h = record {
  clean = h.clean;
  distinct = h.distinct;
  bounded = omega (arith, h.bounded);
}
parse_all-IsClean (member ∷ rest) accepted builder le h = elim (Bool-cases (leb 180 accepted)) [
  | inl all_taken ↦
      rw all_taken
        (record { clean = h.clean; distinct = h.distinct; bounded = omega (arith, h.bounded) })
  | inr more ↦ elim (Option-cases (parse_baggage_member member)) [
    | inl e ↦ rw (more, e) (parse_all-IsClean rest accepted builder le h)
    | inr (p, e) ↦
        rw (more, e)
          (parse_all-IsClean rest (accepted + 1) (set builder p.key p.value p.metadata)
            (ground arith)
            (set-IsClean accepted builder p h (parse_baggage_member-IsCleanPair member p e)))
  ]
]

-- Whatever the header, the parser puts at most 180 entries into an empty builder, under distinct
-- keys, and each has a key and a value that PHP does not call empty and that hold no excluded
-- character.
pub parse_into_builder-IsClean : (header : Bytes) → IsClean 180 (parse_into_builder header [])
unfolding parse_into_builder
parse_into_builder-IsClean header =
    let none_yet : IsClean 0 [] = record { clean = tt; distinct = tt; bounded = omega arith } in
    if-either (IsClean 180) (ltb 8_192 (length header))
      (record { clean = tt; distinct = tt; bounded = omega arith })
      (parse_all-IsClean (split b',' header) 0 [] (omega arith) none_yet)
