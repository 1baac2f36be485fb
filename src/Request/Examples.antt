-- ===== src/Request/Examples.antt =====
-- Tests of a request's environment and its excluded URLs, and the theorems at examples.
use otel_php_rust.Prelude.{true, Option, none, some, List, [], ◌∷◌, ◌++◌, ◌≡◌, refl, if◌then◌else◌}
use otel_php_rust.Prelude.Bytes.{Bytes, codes, bytes_eq, split, split_once}
use otel_php_rust.Prelude.Maps.{find, insert, erase}
use otel_php_rust.Batch.Config.{present, not_present}
use otel_php_rust.Batch.Classify.{strip_prefix, trim_space}
use otel_php_rust.Context.Storage.{id_eq}
use otel_php_rust.Attributes.{string, long, ZArr, end, entry, index, zstr, text, to_str}
use otel_php_rust.Attributes.Config.{trim, trim_end_space}
use otel_php_rust.Prelude.Signed.{pos}
use otel_php_rust.Request.Values.{
  collect_map, z_val_to_string, vars_with_prefix, get_server_vars_with_prefix, trim_start_matches,
  header_name, request_headers, extract_request_headers, resource_pair, resource_pairs,
  parse_resource_attributes,
}
use otel_php_rust.Request.Urls.{
  ends_with, match_rest, match_parts, matches_pattern, excluded_patterns, is_excluded_url,
  is_disabled,
}
use otel_php_rust.Request.Environment.{
  Process, set_vars, backup_env, restore_env, set_env_from_server, read_item, read_items, key_le,
  insert_sorted, sort_items, join_items, merge_attributes, merged_attributes, dotenv_map,
  set_request_dotenv, process_dotenv, init_environment,
}
use otel_php_rust.Request.Variables.{is_otel}
use otel_php_rust.Request.Globs.{Glob, is_disabled-Glob}
use otel_php_rust.Request.Restoring.{restore_env-backup_env, restore_env-init_environment}

abbrev server : ZArr
server = entry (zstr (text (codes "OTEL_SERVICE_NAME"))) (string (text (codes "shop"))) (
    entry (index 3) (string (text (codes "x"))) (
      entry (zstr (text (codes "HTTP_USER_AGENT"))) (string (text (codes "curl"))) (
        entry (zstr (text (codes "HTTP_HTTP_TRACEPARENT"))) (string (text (codes "t")))
          (entry (zstr (text (codes "OTEL_PORT"))) (long (pos 80)) end))))

abbrev dotenv_items : List (Option (Bytes × Bytes))
dotenv_items =
    some (codes "OTEL_RESOURCE_ATTRIBUTES", codes "b=2, a = 3")
    ∷ none
    ∷ some (codes "PATH", codes "/x")
    ∷ []

abbrev process : Process
process = record {
  environ = (codes "PATH", codes "/bin") ∷ (codes "OTEL_RESOURCE_ATTRIBUTES", codes "a=1,c=4") ∷ [];
  env_backup = [];
}

-- The names are in lower case, and the prefix goes twice.
extract_request_headers-server :
    extract_request_headers server
    ≡ (codes "traceparent", codes "t") ∷ (codes "user-agent", codes "curl") ∷ []
unfolding extract_request_headers request_headers collect_map insert erase header_name
    trim_start_matches strip_prefix z_val_to_string to_str
extract_request_headers-server = refl

abbrev begun : Process
begun = init_environment true true 7 (some server) (some dotenv_items) process

find-begun_attributes :
    find bytes_eq (codes "OTEL_RESOURCE_ATTRIBUTES") begun.environ ≡ some (codes "a=3,b=2,c=4")
unfolding find init_environment backup_env set_env_from_server process_dotenv set_request_dotenv
    dotenv_map merged_attributes merge_attributes join_items sort_items insert_sorted key_le
    read_items read_item set_vars insert erase parse_resource_attributes resource_pairs
    resource_pair collect_map get_server_vars_with_prefix vars_with_prefix z_val_to_string to_str
    strip_prefix split split_once trim trim_end_space trim_space
find-begun_attributes = refl

find-begun_service : find bytes_eq (codes "OTEL_SERVICE_NAME") begun.environ ≡ some (codes "shop")
unfolding find init_environment backup_env set_env_from_server process_dotenv set_request_dotenv
    dotenv_map merged_attributes merge_attributes join_items sort_items insert_sorted key_le
    read_items read_item set_vars insert erase parse_resource_attributes resource_pairs
    resource_pair collect_map get_server_vars_with_prefix vars_with_prefix z_val_to_string to_str
    strip_prefix split split_once trim trim_end_space trim_space
find-begun_service = refl

no_backup : find id_eq 7 process.env_backup ≡ none
unfolding find
no_backup = refl

restore_env-init_environment_example :
    let ended =
      restore_env 7 (init_environment true true 7 (some server) (some dotenv_items) process) in
    ((name : Bytes) → find bytes_eq name ended.environ ≡ find bytes_eq name process.environ)
    × (find id_eq 7 ended.env_backup ≡ none)
restore_env-init_environment_example =
    restore_env-init_environment true true 7 (some server) (some dotenv_items) process no_backup

restore_env-backup_env_example :
    let ended = restore_env 7 (record (backup_env 7 process) { environ = [] }) in
    find bytes_eq (codes "PATH") ended.environ ≡ (
      if is_otel (codes "PATH")
      then find bytes_eq (codes "PATH") process.environ
      else find bytes_eq (codes "PATH") [])
restore_env-backup_env_example = restore_env-backup_env 7 process [] (codes "PATH")

-- A pattern whose last part overlaps the first one.
is_excluded_url-overlap : is_excluded_url (present (codes "/a*/a")) (codes "/a") ≡ true
unfolding is_excluded_url excluded_patterns matches_pattern match_parts match_rest ends_with
    strip_prefix split trim trim_end_space trim_space
is_excluded_url-overlap = refl

abbrev excluded : Bytes
excluded = codes " /x , /api/*/health* "

excluded_patterns-excluded :
    excluded_patterns (split b',' excluded) ≡ (codes "/x" ∷ []) ++ codes "/api/*/health*" ∷ []
unfolding excluded_patterns split trim trim_end_space trim_space
excluded_patterns-excluded = refl

Glob-health : Glob (split b'*' (codes "/api/*/health*")) (codes "/api/v1/healthz")
unfolding split
Glob-health = (codes "v1/healthz", refl, (codes "v1", codes "z", refl, (codes "z", refl)))

is_disabled-Glob_example :
    is_disabled (some (codes "/api/v1/healthz")) (present excluded) not_present ≡ true
is_disabled-Glob_example =
    is_disabled-Glob (codes "/api/v1/healthz") excluded not_present (codes "/x" ∷ [])
      (codes "/api/*/health*") [] excluded_patterns-excluded refl Glob-health
