-- ===== src/Request/Environment.antt =====
-- The environment of a request in otel/src/request.rs: the backup, what $_SERVER and the .env file
-- set, and the restoration. A hash map has no order; where the code walks over one, it is read
-- from its end here. `env::vars` is used on an environment that is all UTF-8.
use otel_php_rust.Prelude.{
  ℕ, Bool, true, false, not, ◌&&◌, ◌||◌, Option, none, some, List, [], ◌∷◌, ◌++◌, ◌==◌,
  if◌then◌else◌, option_map, ltb,
}
use otel_php_rust.Prelude.Bytes.{Bytes, codes, bytes_eq}
use otel_php_rust.Prelude.Maps.{Map, find, insert, erase}
use otel_php_rust.Batch.Classify.{starts_with}
use otel_php_rust.Context.Storage.{id_eq}
use otel_php_rust.Attributes.{ZArr}
use otel_php_rust.Request.Values.{Environ, get_server_vars_with_prefix, parse_resource_attributes}

abbrev pub otel_prefix : Bytes
otel_prefix = codes "OTEL_"

-- The process: its environment and `ENV_BACKUP`, by process id.
pub record Process : Type 0 where
  pub environ : Environ
  pub env_backup : Map ℕ Environ

-- `set_var` for each pair of a hash map.
unfoldable pub set_vars : Environ → Environ → Environ
set_vars [] environ = environ
set_vars ((k, v) ∷ rest) environ = insert bytes_eq k v (set_vars rest environ)

unfoldable pub otel_vars : Environ → Environ
otel_vars [] = []
otel_vars ((k, v) ∷ rest) =
    let others = otel_vars rest in if starts_with otel_prefix k then (k, v) ∷ others else others

unfoldable pub backup_env : ℕ → Process → Process
backup_env pid p = record p { env_backup = insert id_eq pid (otel_vars p.environ) p.env_backup }

-- `backup.contains_key(k)`.
abbrev pub has_key : Environ → Bytes → Bool
has_key backup k = elim (find bytes_eq k backup) [ none ↦ false | some _ ↦ true ]

-- The loop that removes what the request added; it walks over `vars`, a copy of the environment.
unfoldable pub remove_added : Environ → Environ → Environ → Environ
remove_added backup [] environ = environ
remove_added backup ((k, v) ∷ vars) environ =
    let others = remove_added backup vars environ in
    if not (has_key backup k) && starts_with otel_prefix k then erase bytes_eq k others else others

unfoldable pub restore_env : ℕ → Process → Process
restore_env pid p = elim (find id_eq pid p.env_backup) [
  | none ↦ p
  | some backup ↦ record {
    environ = set_vars backup (remove_added backup p.environ p.environ);
    env_backup = erase id_eq pid p.env_backup;
  }
]

unfoldable pub set_env_from_server : Option ZArr → Process → Process
set_env_from_server server p = record p {
  environ = set_vars (get_server_vars_with_prefix server otel_prefix) p.environ;
}

-- The variables that a .env file may set.
pub record DotenvVars : Type 0 where
  pub service_name : Option Bytes
  pub resource_attributes : Option Bytes
  pub otel_disabled : Option Bytes

unfoldable pub read_item : DotenvVars → Bytes × Bytes → DotenvVars
read_item vars (name, value) =
    if bytes_eq name (codes "OTEL_SERVICE_NAME")
    then record vars { service_name = some value }
    else if bytes_eq name (codes "OTEL_RESOURCE_ATTRIBUTES")
    then record vars { resource_attributes = some value }
    else if bytes_eq name (codes "OTEL_SDK_DISABLED")
    then record vars { otel_disabled = some value }
    else vars

-- The loop over `iter.flatten()`: a line that cannot be read is passed over.
unfoldable pub read_items : DotenvVars → List (Option (Bytes × Bytes)) → DotenvVars
read_items vars [] = vars
read_items vars (none ∷ items) = read_items vars items
read_items vars (some item ∷ items) = read_items (read_item vars item) items

-- `a.0.cmp(&b.0)` is not greater.
unfoldable pub key_le : Bytes → Bytes → Bool
key_le [] b = true
key_le (x ∷ a) [] = false
key_le (x ∷ a) (y ∷ b) = ltb x y || x == y && key_le a b

unfoldable pub insert_sorted : Bytes × Bytes → List (Bytes × Bytes) → List (Bytes × Bytes)
insert_sorted pair [] = pair ∷ []
insert_sorted pair (other ∷ rest) =
    let others = insert_sorted pair rest in
    if key_le pair.0 other.0 then pair ∷ other ∷ rest else other ∷ others

-- `items.sort_by(|a, b| a.0.cmp(&b.0))`.
unfoldable pub sort_items : List (Bytes × Bytes) → List (Bytes × Bytes)
sort_items [] = []
sort_items (pair ∷ rest) = insert_sorted pair (sort_items rest)

-- `.map(|(k, v)| format!("{}={}", k, v)).collect::<Vec<_>>().join(",")`.
unfoldable pub join_items : List (Bytes × Bytes) → Bytes
join_items [] = []
join_items ((k, v) ∷ []) = k ++ b'=' ∷ v
join_items ((k, v) ∷ pair ∷ rest) = k ++ b'=' ∷ (v ++ b',' ∷ join_items (pair ∷ rest))

-- The attributes of the environment, overwritten with those of the .env file.
unfoldable pub merge_attributes : Option Bytes → Bytes → Environ
merge_attributes none dotenv = set_vars (parse_resource_attributes dotenv) []
merge_attributes (some existing) dotenv =
    set_vars (parse_resource_attributes dotenv) (parse_resource_attributes existing)

-- `if let Some(value) = ... { env.insert(name, value); }`.
abbrev pub insert_some : Bytes → Option Bytes → Environ → Environ
insert_some name none env = env
insert_some name (some value) env = insert bytes_eq name value env

-- The text of the merged attributes, where the .env file has some.
unfoldable pub merged_attributes : DotenvVars → Environ → Option Bytes
merged_attributes vars environ =
    option_map
      (λ attributes. join_items (
        sort_items
          (merge_attributes (find bytes_eq (codes "OTEL_RESOURCE_ATTRIBUTES") environ) attributes)))
      vars.resource_attributes

-- The hash map that `process_dotenv` hands to `set_request_dotenv`.
unfoldable pub dotenv_map : DotenvVars → Environ → Environ
dotenv_map vars environ =
    insert_some (codes "OTEL_RESOURCE_ATTRIBUTES") (merged_attributes vars environ) (
      insert_some (codes "OTEL_SDK_DISABLED") vars.otel_disabled
        (insert_some (codes "OTEL_SERVICE_NAME") vars.service_name []))

unfoldable pub set_request_dotenv : Environ → Process → Process
set_request_dotenv env p = record p { environ = set_vars env p.environ }

-- `process_dotenv` on the file that was found: what dotenvy reads of it, or nothing.
unfoldable pub process_dotenv : Option (List (Option (Bytes × Bytes))) → Process → Process
process_dotenv none p = p
process_dotenv (some items) p =
    let vars =
      read_items (record { service_name = none; resource_attributes = none; otel_disabled = none })
        items in
    set_request_dotenv (dotenv_map vars p.environ) p

-- The settings are those of the php.ini file.
unfoldable pub init_environment :
    Bool → Bool → ℕ → Option ZArr → Option (List (Option (Bytes × Bytes))) → Process → Process
init_environment dotenv_enabled env_from_server pid server items p =
    let backed = if dotenv_enabled || env_from_server then backup_env pid p else p in
    let served = if env_from_server then set_env_from_server server backed else backed in
    if dotenv_enabled then process_dotenv items served else served
