-- ===== src/Request/Urls.antt =====
-- `is_excluded_url` and `is_disabled` of otel/src/request.rs. The position in the text is the text
-- behind it.
use otel_php_rust.Prelude.{
  Bool, true, false, ◌||◌, Option, none, some, List, [], ◌∷◌, ◌==◌, if◌then◌else◌, is_empty, any,
}
use otel_php_rust.Prelude.Bytes.{Bytes, bytes_eq, split}
use otel_php_rust.Batch.Config.{EnvVar, present, not_present, not_unicode}
use otel_php_rust.Batch.Classify.{strip_prefix, find_behind}
use otel_php_rust.Attributes.Config.{trim}
use otel_php_rust.Request.Values.{sdk_disabled}

unfoldable pub ends_with : Bytes → Bytes → Bool
ends_with part [] = is_empty part
ends_with part (c ∷ cs) = let shorter = ends_with part cs in bytes_eq part (c ∷ cs) || shorter

-- The loop over the parts behind the first star; the last part is looked for at the end of the URI.
unfoldable pub match_rest : Bytes → List Bytes → Bytes → Bool
match_rest uri [] rest = true
match_rest uri (part ∷ []) rest = is_empty part || ends_with part uri
match_rest uri (part ∷ next ∷ parts) rest =
    let skipped = match_rest uri (next ∷ parts) rest in
    if is_empty part then skipped else elim (find_behind part rest) [
      | none ↦ false
      | some behind ↦ match_rest uri (next ∷ parts) behind
    ]

unfoldable pub match_parts : Bytes → List Bytes → Bool
match_parts uri [] = true
match_parts uri (part ∷ parts) =
    if is_empty part
    then match_rest uri parts uri
    else elim (strip_prefix part uri) [ none ↦ false | some rest ↦ match_rest uri parts rest ]

unfoldable pub matches_pattern : Bytes → Bytes → Bool
matches_pattern uri pattern =
    if any (λ c. c == b'*') pattern
    then match_parts uri (split b'*' pattern)
    else bytes_eq uri pattern

-- `.map(|s| s.trim()).filter(|s| !s.is_empty())`.
unfoldable pub excluded_patterns : List Bytes → List Bytes
excluded_patterns [] = []
excluded_patterns (piece ∷ pieces) =
    let others = excluded_patterns pieces in
    if is_empty (trim piece) then others else trim piece ∷ others

unfoldable pub is_excluded_url : EnvVar → Bytes → Bool
is_excluded_url (present list) uri = any (matches_pattern uri) (excluded_patterns (split b',' list))
is_excluded_url not_present uri = false
is_excluded_url not_unicode uri = false

-- `is_disabled`, with the request's URI and the two variables.
unfoldable pub is_disabled : Option Bytes → EnvVar → EnvVar → Bool
is_disabled none excluded_urls otel_sdk_disabled = sdk_disabled otel_sdk_disabled
is_disabled (some uri) excluded_urls otel_sdk_disabled =
    if is_excluded_url excluded_urls uri then true else sdk_disabled otel_sdk_disabled
