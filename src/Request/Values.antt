-- ===== src/Request/Values.antt =====
-- The texts that otel/src/request.rs reads: $_SERVER, resource attributes, request headers and the
-- variable that disables the SDK. A text is a list of bytes here, also inside of a PHP value.
use otel_php_rust.Prelude.{
  ℕ, zero, suc, Bool, false, not, ◌&&◌, Option, none, some, List, [], ◌∷◌, ◌==◌, if◌then◌else◌,
  is_empty, map, length, ◌>>=◌,
}
use otel_php_rust.Prelude.Bytes.{Bytes, codes, bytes_eq, split, split_once}
use otel_php_rust.Prelude.Maps.{Map, insert}
use otel_php_rust.Batch.Config.{EnvVar, present, not_present, not_unicode}
use otel_php_rust.Batch.Classify.{strip_prefix, starts_with}
use otel_php_rust.SensitiveData.{eq_ignore_ascii_case, to_ascii_lowercase}
use otel_php_rust.Attributes.{ZVal, string, ZArr, end, entry, index, zstr, text, binary, to_str}
use otel_php_rust.Attributes.Config.{trim}

-- A hash map from texts to texts; the environment of the process is one.
abbrev pub Environ : Type 0
Environ = Map Bytes Bytes

-- `collect` into a hash map: a later pair replaces an earlier one.
unfoldable pub collect_map : Environ → List (Bytes × Bytes) → Environ
collect_map acc [] = acc
collect_map acc ((k, v) ∷ rest) = collect_map (insert bytes_eq k v acc) rest

unfoldable pub z_val_to_string : ZVal → Option Bytes
z_val_to_string (string z) = to_str z
z_val_to_string _ = none

-- `server.get(key)`.
unfoldable pub server_get : ZArr → Bytes → Option ZVal
server_get end key = none
server_get (entry (index _) value rest) key = server_get rest key
server_get (entry (zstr (binary _)) value rest) key = server_get rest key
server_get (entry (zstr (text name)) value rest) key =
    let others = server_get rest key in if bytes_eq name key then some value else others

unfoldable pub get_server_var : Option ZArr → Bytes → Option Bytes
get_server_var server key = do arr ← server; value ← server_get arr key; z_val_to_string value

-- The pairs of `filter_map` over $_SERVER.
unfoldable pub vars_with_prefix : ZArr → Bytes → List (Bytes × Bytes)
vars_with_prefix end prefix = []
vars_with_prefix (entry (index _) value rest) prefix = vars_with_prefix rest prefix
vars_with_prefix (entry (zstr (binary _)) value rest) prefix = vars_with_prefix rest prefix
vars_with_prefix (entry (zstr (text name)) value rest) prefix =
    let others = vars_with_prefix rest prefix in
    if starts_with prefix name
    then elim (z_val_to_string value) [ none ↦ others | some v ↦ (name, v) ∷ others ]
    else others

unfoldable pub get_server_vars_with_prefix : Option ZArr → Bytes → Environ
get_server_vars_with_prefix none prefix = []
get_server_vars_with_prefix (some arr) prefix = collect_map [] (vars_with_prefix arr prefix)

-- `trim_start_matches(prefix)`: the prefix is taken off again and again; `fuel` is the text's length.
unfoldable pub trim_start_matches : ℕ → Bytes → Bytes → Bytes
trim_start_matches zero prefix s = s
trim_start_matches (suc fuel) prefix s = elim (strip_prefix prefix s) [
  | none ↦ s
  | some rest ↦ trim_start_matches fuel prefix rest
]

-- `.replace('_', "-").to_ascii_lowercase()`.
unfoldable pub header_name : Bytes → Bytes
header_name key =
    map (λ c. to_ascii_lowercase (if c == b'_' then b'-' else c))
      (trim_start_matches (length key) (codes "HTTP_") key)

unfoldable pub request_headers : ZArr → List (Bytes × Bytes)
request_headers end = []
request_headers (entry (index _) value rest) = request_headers rest
request_headers (entry (zstr (binary _)) value rest) = request_headers rest
request_headers (entry (zstr (text name)) value rest) =
    let others = request_headers rest in
    if starts_with (codes "HTTP_") name
    then elim (z_val_to_string value) [ none ↦ others | some v ↦ (header_name name, v) ∷ others ]
    else others

unfoldable pub extract_request_headers : ZArr → Environ
extract_request_headers server = collect_map [] (request_headers server)

-- One pair of `parse_resource_attributes`; the trimming follows the tests.
unfoldable pub resource_pair : Bytes → Option (Bytes × Bytes)
resource_pair pair = do
  (key, value) ← split_once b'=' pair
  if not (is_empty key) && not (is_empty value) then some (trim key, trim value) else none

unfoldable pub resource_pairs : List Bytes → List (Bytes × Bytes)
resource_pairs [] = []
resource_pairs (piece ∷ pieces) =
    let others = resource_pairs pieces in
    elim (resource_pair piece) [ none ↦ others | some pair ↦ pair ∷ others ]

unfoldable pub parse_resource_attributes : Bytes → Environ
parse_resource_attributes s = collect_map [] (resource_pairs (split b',' s))

-- The test of OTEL_SDK_DISABLED.
unfoldable pub sdk_disabled : EnvVar → Bool
sdk_disabled (present value) = eq_ignore_ascii_case value (codes "true")
sdk_disabled not_present = false
sdk_disabled not_unicode = false
