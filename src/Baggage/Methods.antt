-- ===== src/Baggage/Methods.antt =====
-- The baggage builder against the view of the entries as a map.
use otel_php_rust.Prelude.{
  ◌≡◌, refl, not, ◌&&◌, Option, none, some, [], ◌∷◌, arith, if◌then◌else◌, Bool-cases, inl, inr,
  is_empty, get_or,
}
use otel_php_rust.Prelude.Bytes.{Bytes, bytes_eq, bytes_eq_iff}
use otel_php_rust.Baggage.{Entry, BaggageEntries, get_entry, put, set, remove}

pub get_entry-put :
    (entries : BaggageEntries) (key other : Bytes) (entry : Entry)
    → get_entry (put entries key entry) other
      ≡ (if bytes_eq key other then some entry else get_entry entries other)
unfolding get_entry put
get_entry-put [] key other entry = refl
get_entry-put ((candidate, existing) ∷ rest) key other entry = ground (
  arith,
  bytes_eq_iff candidate key,
  bytes_eq_iff candidate other,
  bytes_eq_iff key other,
  get_entry-put rest key other entry,
)

-- After `set` with a key that is not empty, the key has the new entry and every other key its old
-- one; `set` with an empty key changes nothing.
pub get_entry-set :
    (entries : BaggageEntries) (key value : Bytes) (metadata : Option Bytes) (other : Bytes)
    → get_entry (set entries key value metadata) other ≡ (
        if not (is_empty key) && bytes_eq key other
        then some (record { value = value; metadata = get_or metadata [] })
        else get_entry entries other)
unfolding set
get_entry-set entries key value metadata other = elim (Bool-cases (is_empty key)) [
  | inl none_given ↦ rw none_given refl
  | inr given ↦
      rw given
        (get_entry-put entries key other (record { value = value; metadata = get_or metadata [] }))
]

-- After `remove`, the key is gone and every other key has its old entry.
pub get_entry-remove :
    (entries : BaggageEntries) (key other : Bytes)
    → get_entry (remove entries key) other
      ≡ (if bytes_eq key other then none else get_entry entries other)
unfolding get_entry remove
get_entry-remove [] key other = ground arith
get_entry-remove ((candidate, entry) ∷ rest) key other = ground (
  arith,
  bytes_eq_iff candidate key,
  bytes_eq_iff candidate other,
  bytes_eq_iff key other,
  get_entry-remove rest key other,
)
