-- ===== src/Baggage.antt =====
-- otel/src/baggage: the entries of a baggage with the methods of its builder (baggage_builder.rs)
-- and of itself (baggage.rs), the header's parser and its printer. A value is a byte string, as the
-- parser sets it; an absent metadata object is the empty text.
pub mod Parser
pub mod Propagator
pub mod Methods
pub mod Escapes
pub mod Clean
mod Examples
use otel_php_rust.Prelude.{
  ℕ, Bool, not, Option, none, some, List, [], ◌∷◌, if◌then◌else◌, is_empty, get_or, option_map,
}
use otel_php_rust.Prelude.Bytes.{Bytes, bytes_eq}

pub record Entry : Type 0 where
  pub value : Bytes
  pub metadata : Bytes

abbrev pub BaggageEntries : Type 0
BaggageEntries = List (Bytes × Entry)

-- `find` on the key.
unfoldable pub get_entry : BaggageEntries → Bytes → Option Entry
get_entry [] key = none
get_entry ((candidate, entry) ∷ rest) key =
    if bytes_eq candidate key then some entry else get_entry rest key

unfoldable pub get_value : BaggageEntries → Bytes → Option Bytes
unfolding get_entry
get_value entries key = option_map (λ (e : Entry). e.value) (get_entry entries key)

-- The entry found is replaced in place, and a new one pushed.
unfoldable pub put : BaggageEntries → Bytes → Entry → BaggageEntries
put [] key entry = (key, entry) ∷ []
put ((candidate, existing) ∷ rest) key entry =
    let later = put rest key entry in
    if bytes_eq candidate key then (candidate, entry) ∷ rest else (candidate, existing) ∷ later

-- The PHP method `set` of the builder.
unfoldable pub set : BaggageEntries → Bytes → Bytes → Option Bytes → BaggageEntries
unfolding put
set entries key value metadata =
    if is_empty key
    then entries
    else put entries key (record { value = value; metadata = get_or metadata [] })

-- The PHP method `remove` of the builder.
unfoldable pub remove : BaggageEntries → Bytes → BaggageEntries
remove [] key = []
remove ((candidate, entry) ∷ rest) key =
    let kept = remove rest key in
    if not (bytes_eq candidate key) then (candidate, entry) ∷ kept else kept
