-- ===== src/Request/Restoring.antt =====
-- The end of a request restores the variables that its start has set.
use otel_php_rust.Prelude.{
  ℕ, Bool, true, false, ◌||◌, Option, none, some, List, [], ◌≡◌, refl, ◌∙◌, if◌then◌else◌, inl, inr,
  Bool-cases, Option-cases,
}
use otel_php_rust.Prelude.Bytes.{Bytes, codes, bytes_eq}
use otel_php_rust.Prelude.Maps.{find, find-insert, find-erase_same}
use otel_php_rust.Batch.Classify.{strip_prefix}
use otel_php_rust.Context.Storage.{id_eq}
use otel_php_rust.Attributes.{ZArr}
use otel_php_rust.Request.Values.{
  Environ, get_server_vars_with_prefix, vars_with_prefix, collect_map,
}
use otel_php_rust.Request.Environment.{
  otel_prefix, Process, set_vars, otel_vars, backup_env, has_key, remove_added, restore_env,
  set_env_from_server, DotenvVars, insert_some, dotenv_map, merged_attributes, set_request_dotenv,
  process_dotenv, read_items, init_environment,
}
use otel_php_rust.Request.Variables.{
  is_otel, AllOtel, id_eq-IsTest, find-set_vars, find-otel_vars, find-remove_added, insert-AllOtel,
  find-AllOtel, collect_map-AllOtel, vars_with_prefix-AllOtel,
}

find-added :
    (name : Bytes) (before after : Environ)
    → find bytes_eq name (set_vars (otel_vars before) (remove_added (otel_vars before) after after))
      ≡ (if is_otel name then find bytes_eq name before else find bytes_eq name after)
find-added name before after =
    rw
      (
        find-set_vars name (otel_vars before) (remove_added (otel_vars before) after after),
        find-remove_added (otel_vars before) after after name,
        has_key,
        find-otel_vars name before,
      )
      (elim (Bool-cases (is_otel name)) [
        | inl o ↦ rw o (elim (Option-cases (find bytes_eq name before)) [
          | inr (v, e) ↦ rw e refl
          | inl e ↦ rw e (elim (Option-cases (find bytes_eq name after)) [
            | inr (v, f) ↦ rw (has_key, f) refl
            | inl f ↦ rw (has_key, f) refl
          ])
        ])
        | inr o ↦ rw o refl
      ])

if_agree :
    (name : Bytes) (before after : Environ)
    → (is_otel name ≡ false → find bytes_eq name after ≡ find bytes_eq name before)
    → (if is_otel name then find bytes_eq name before else find bytes_eq name after)
      ≡ find bytes_eq name before
if_agree name before after h = elim (Bool-cases (is_otel name)) [
  | inl o ↦ rw o refl
  | inr o ↦ rw o (h o)
]

-- A process whose backup was taken in the environment `before`.
restore_env-ended :
    (pid : ℕ) (q : Process) (before : Environ)
    → find id_eq pid q.env_backup ≡ some (otel_vars before)
    → ((name : Bytes)
        → find bytes_eq name (restore_env pid q).environ
          ≡ (if is_otel name then find bytes_eq name before else find bytes_eq name q.environ))
      × (find id_eq pid (restore_env pid q).env_backup ≡ none)
unfolding restore_env
restore_env-ended pid q before h =
    rw (restore_env, h)
      (
        λ name. find-added name before q.environ,
        find-erase_same id_eq id_eq-IsTest pid q.env_backup,
      )

-- Whatever the request does to the environment behind the backup, the restoration gives every
-- OTEL_ variable its old value, or removes it, and leaves every other variable as the request left
-- it.
pub restore_env-backup_env :
    (pid : ℕ) (p : Process) (later : Environ) (name : Bytes)
    → let ended = restore_env pid (record (backup_env pid p) { environ = later }) in
      find bytes_eq name ended.environ
      ≡ (if is_otel name then find bytes_eq name p.environ else find bytes_eq name later)
unfolding backup_env
restore_env-backup_env pid p later name =
    (restore_env-ended pid (record (backup_env pid p) { environ = later }) p.environ
        (find-insert id_eq id_eq-IsTest pid (otel_vars p.environ) p.env_backup)).0
      name

-- Only variables with the prefix change between the two environments.
abbrev Agree : Environ → Environ → Type 0
Agree e e' = (name : Bytes) → is_otel name ≡ false → find bytes_eq name e' ≡ find bytes_eq name e

set_vars-Agree : (vars e : Environ) → AllOtel vars → Agree e (set_vars vars e)
set_vars-Agree vars e h name o = rw (find-set_vars name vars e, find-AllOtel name vars h o) refl

set_env_from_server-Agree :
    (server : Option ZArr) (p : Process) → Agree p.environ (set_env_from_server server p).environ
unfolding set_env_from_server get_server_vars_with_prefix
set_env_from_server-Agree none p = set_vars-Agree [] p.environ tt
set_env_from_server-Agree (some server) p =
    set_vars-Agree (collect_map [] (vars_with_prefix server otel_prefix)) p.environ (
      collect_map-AllOtel [] (vars_with_prefix server otel_prefix) tt
        (vars_with_prefix-AllOtel server))

insert_some-AllOtel :
    (name : Bytes) (value : Option Bytes) (vars : Environ)
    → is_otel name ≡ true
    → AllOtel vars
    → AllOtel (insert_some name value vars)
insert_some-AllOtel name none vars o h = h
insert_some-AllOtel name (some v) vars o h = insert-AllOtel name v vars o h

process_dotenv-Agree :
    (items : Option (List (Option (Bytes × Bytes)))) (p : Process)
    → Agree p.environ (process_dotenv items p).environ
unfolding process_dotenv set_request_dotenv dotenv_map strip_prefix
process_dotenv-Agree none p = λ name o. refl
process_dotenv-Agree (some items) p =
    let none_set : DotenvVars = record {
      service_name = none;
      resource_attributes = none;
      otel_disabled = none;
    } in
    let vars = read_items none_set items in
    set_vars-Agree (dotenv_map vars p.environ) p.environ (
      insert_some-AllOtel (codes "OTEL_RESOURCE_ATTRIBUTES") (merged_attributes vars p.environ)
        (insert_some (codes "OTEL_SDK_DISABLED") vars.otel_disabled
          (insert_some (codes "OTEL_SERVICE_NAME") vars.service_name []))
        refl
        (insert_some-AllOtel (codes "OTEL_SDK_DISABLED") vars.otel_disabled
          (insert_some (codes "OTEL_SERVICE_NAME") vars.service_name []) refl
          (insert_some-AllOtel (codes "OTEL_SERVICE_NAME") vars.service_name [] refl tt)))

process_dotenv-env_backup :
    (items : Option (List (Option (Bytes × Bytes)))) (p : Process)
    → (process_dotenv items p).env_backup ≡ p.env_backup
unfolding process_dotenv set_request_dotenv
process_dotenv-env_backup none p = refl
process_dotenv-env_backup (some items) p = refl

-- A start that takes the backup: it keeps it, and sets variables with the prefix alone.
init_environment-backed :
    (dotenv_enabled env_from_server : Bool) (pid : ℕ) (server : Option ZArr)
    (items : Option (List (Option (Bytes × Bytes)))) (p : Process)
    → dotenv_enabled || env_from_server ≡ true
    → let begun = init_environment dotenv_enabled env_from_server pid server items p in
      (find id_eq pid begun.env_backup ≡ some (otel_vars p.environ)) × Agree p.environ begun.environ
unfolding init_environment backup_env set_env_from_server
init_environment-backed false false pid server items p h = absurd (cc h)
init_environment-backed false true pid server items p h = (
  find-insert id_eq id_eq-IsTest pid (otel_vars p.environ) p.env_backup,
  set_env_from_server-Agree server (backup_env pid p),
)
init_environment-backed true false pid server items p h = (
  rw (process_dotenv-env_backup items (backup_env pid p))
      (find-insert id_eq id_eq-IsTest pid (otel_vars p.environ) p.env_backup),
  process_dotenv-Agree items (backup_env pid p),
)
init_environment-backed true true pid server items p h =
    let served = set_env_from_server server (backup_env pid p) in
    (
      rw (process_dotenv-env_backup items served)
          (find-insert id_eq id_eq-IsTest pid (otel_vars p.environ) p.env_backup),
      λ name o.
          process_dotenv-Agree items served name o
          ∙ set_env_from_server-Agree server (backup_env pid p) name o,
    )

init_environment-idle :
    (dotenv_enabled env_from_server : Bool) (pid : ℕ) (server : Option ZArr)
    (items : Option (List (Option (Bytes × Bytes)))) (p : Process)
    → dotenv_enabled || env_from_server ≡ false
    → init_environment dotenv_enabled env_from_server pid server items p ≡ p
unfolding init_environment
init_environment-idle false false pid server items p h = refl
init_environment-idle false true pid server items p h = absurd (cc h)
init_environment-idle true e pid server items p h = absurd (cc h)

restore_env-none :
    (pid : ℕ) (p : Process) → find id_eq pid p.env_backup ≡ none → restore_env pid p ≡ p
unfolding restore_env
restore_env-none pid p h = rw (restore_env, h) refl

-- Where no backup is stored for the process id, a request's start, with either or both of its
-- settings and whatever $_SERVER and the .env file hold, and its restoration leave every variable
-- as it was, and no backup behind.
pub restore_env-init_environment :
    (dotenv_enabled env_from_server : Bool) (pid : ℕ) (server : Option ZArr)
    (items : Option (List (Option (Bytes × Bytes)))) (p : Process)
    → find id_eq pid p.env_backup ≡ none
    → let ended =
        restore_env pid (init_environment dotenv_enabled env_from_server pid server items p) in
      ((name : Bytes) → find bytes_eq name ended.environ ≡ find bytes_eq name p.environ)
      × (find id_eq pid ended.env_backup ≡ none)
restore_env-init_environment dotenv_enabled env_from_server pid server items p h =
    elim (Bool-cases (dotenv_enabled || env_from_server)) [
      | inl backed ↦
          let begun = init_environment dotenv_enabled env_from_server pid server items p in
          let (kept, agree) =
            init_environment-backed dotenv_enabled env_from_server pid server items p backed in
          let (ended, gone) = restore_env-ended pid begun p.environ kept in
          (λ name. ended name ∙ if_agree name p.environ begun.environ (agree name), gone)
      | inr idle ↦
          rw
            (
              init_environment-idle dotenv_enabled env_from_server pid server items p idle,
              restore_env-none pid p h,
            )
            (λ name. refl, h)
    ]
