-- ===== src/Request/Variables.antt =====
-- The environment's variables through the backup and the restoration, one at a time.
use otel_php_rust.Prelude.{
  Bool, true, false, not, ◌&&◌, none, List, [], ◌∷◌, ◌≡◌, refl, ◌∙◌, arith, All, ==_iff,
  if◌then◌else◌, inl, inr, Bool-cases, Option-cases, or_else, if-either,
}
use otel_php_rust.Prelude.Bytes.{Bytes, bytes_eq, bytes_eq_refl, bytes_eq_iff}
use otel_php_rust.Prelude.Maps.{
  IsTest, find, insert, erase, find-insert, find-insert_other, find-erase, find-erase_same,
  bytes_eq-IsTest,
}
use otel_php_rust.Batch.Classify.{starts_with}
use otel_php_rust.Context.Storage.{id_eq}
use otel_php_rust.Attributes.{ZArr, end, entry, index, zstr, text, binary}
use otel_php_rust.Request.Values.{Environ, collect_map, z_val_to_string, vars_with_prefix}
use otel_php_rust.Request.Environment.{otel_prefix, set_vars, otel_vars, has_key, remove_added}

pub id_eq-IsTest : IsTest id_eq
id_eq-IsTest = record { same_refl = λ k. ground arith; same_iff = λ j k. ==_iff j k }

abbrev pub is_otel : Bytes → Bool
is_otel name = starts_with otel_prefix name

-- The variables that are set, and else those that were there.
pub find-set_vars :
    (name : Bytes) (vars environ : Environ)
    → find bytes_eq name (set_vars vars environ)
      ≡ or_else (find bytes_eq name vars) (find bytes_eq name environ)
unfolding set_vars find
find-set_vars name [] environ = refl
find-set_vars name ((k, v) ∷ vars) environ = elim (Bool-cases (bytes_eq k name)) [
  | inl this ↦
      let same : k ≡ name = (bytes_eq_iff k name).0 this in
      rw (this, same) (find-insert bytes_eq bytes_eq-IsTest name v (set_vars vars environ))
  | inr that ↦ rw that (
      find-insert_other bytes_eq bytes_eq-IsTest k name v (set_vars vars environ) that
      ∙ find-set_vars name vars environ)
]

pub find-otel_vars :
    (name : Bytes) (environ : Environ)
    → find bytes_eq name (otel_vars environ)
      ≡ (if is_otel name then find bytes_eq name environ else none)
unfolding otel_vars find
find-otel_vars name [] = ground arith
find-otel_vars name ((k, v) ∷ environ) = elim (Bool-cases (bytes_eq k name)) [
  | inl this ↦
      let same : k ≡ name = (bytes_eq_iff k name).0 this in
      rw (this, same)
        (elim (Bool-cases (is_otel name)) [
          | inl o ↦ rw (o, bytes_eq_refl name) refl
          | inr o ↦ rw o (find-otel_vars name environ ∙ (rw o refl))
        ])
  | inr that ↦ elim (Bool-cases (is_otel k)) [
    | inl o ↦ rw (o, that) (find-otel_vars name environ)
    | inr o ↦ rw (o, that) (find-otel_vars name environ)
  ]
]

-- Whether the end of the request removes the variable, if it is set.
abbrev pub is_added : Environ → Bytes → Bool
is_added backup name = not (has_key backup name) && is_otel name

pub has_key_same : (name v : Bytes) (vars : Environ) → has_key ((name, v) ∷ vars) name ≡ true
unfolding find
has_key_same name v vars = rw (has_key, bytes_eq_refl name) refl

pub has_key_other :
    (k v name : Bytes) (vars : Environ)
    → bytes_eq k name ≡ false
    → has_key ((k, v) ∷ vars) name ≡ has_key vars name
unfolding find
has_key_other k v name vars that = rw (has_key, that) refl

pub find-remove_added :
    (backup vars environ : Environ) (name : Bytes)
    → find bytes_eq name (remove_added backup vars environ)
      ≡ (if is_added backup name && has_key vars name then none else find bytes_eq name environ)
unfolding remove_added find
find-remove_added backup [] environ name = elim (Bool-cases (is_added backup name)) [
  | inl e ↦ rw e refl
  | inr e ↦ rw e refl
]
find-remove_added backup ((k, v) ∷ vars) environ name =
    let others = remove_added backup vars environ in
    let ih = find-remove_added backup vars environ name in
    elim (Bool-cases (bytes_eq k name)) [
      | inl this ↦
          let same : k ≡ name = (bytes_eq_iff k name).0 this in
          rw (same, has_key_same name v vars)
            (elim (Bool-cases (is_added backup name)) [
              | inl a ↦ rw a (find-erase_same bytes_eq bytes_eq-IsTest name others)
              | inr a ↦ rw a (ih ∙ (rw a refl))
            ])
      | inr that ↦ elim (Bool-cases (is_added backup k)) [
        | inl a ↦
            rw (a, has_key_other k v name vars that)
              (find-erase bytes_eq bytes_eq-IsTest k name others that ∙ ih)
        | inr a ↦ rw (a, has_key_other k v name vars that) ih
      ]
    ]

-- All variables of the map have the prefix.
abbrev pub AllOtel : Environ → Type 0
AllOtel vars = All (λ (e : Bytes × Bytes). is_otel e.0 ≡ true) vars

erase-AllOtel : (k : Bytes) (vars : Environ) → AllOtel vars → AllOtel (erase bytes_eq k vars)
unfolding erase
erase-AllOtel k [] h = tt
erase-AllOtel k ((j, w) ∷ vars) h =
    if-either AllOtel (bytes_eq j k) (erase-AllOtel k vars h.1) (h.0, erase-AllOtel k vars h.1)

pub insert-AllOtel :
    (k v : Bytes) (vars : Environ)
    → is_otel k ≡ true
    → AllOtel vars
    → AllOtel (insert bytes_eq k v vars)
unfolding insert
insert-AllOtel k v vars o h = (o, erase-AllOtel k vars h)

pub find-AllOtel :
    (name : Bytes) (vars : Environ)
    → AllOtel vars
    → is_otel name ≡ false
    → find bytes_eq name vars ≡ none
unfolding find
find-AllOtel name [] h o = refl
find-AllOtel name ((k, v) ∷ vars) h o = elim (Bool-cases (bytes_eq k name)) [
  | inl this ↦ absurd (cc (h.0, o, (bytes_eq_iff k name).0 this))
  | inr that ↦ rw that (find-AllOtel name vars h.1 o)
]

pub collect_map-AllOtel :
    (acc : Environ) (pairs : List (Bytes × Bytes))
    → AllOtel acc
    → AllOtel pairs
    → AllOtel (collect_map acc pairs)
unfolding collect_map
collect_map-AllOtel acc [] h k = h
collect_map-AllOtel acc ((name, v) ∷ pairs) h k =
    collect_map-AllOtel (insert bytes_eq name v acc) pairs (insert-AllOtel name v acc k.0 h) k.1

pub vars_with_prefix-AllOtel : (server : ZArr) → AllOtel (vars_with_prefix server otel_prefix)
unfolding vars_with_prefix
vars_with_prefix-AllOtel end = tt
vars_with_prefix-AllOtel (entry (index i) value rest) = vars_with_prefix-AllOtel rest
vars_with_prefix-AllOtel (entry (zstr (binary s)) value rest) = vars_with_prefix-AllOtel rest
vars_with_prefix-AllOtel (entry (zstr (text name)) value rest) = elim (Bool-cases (is_otel name)) [
  | inr o ↦ rw o (vars_with_prefix-AllOtel rest)
  | inl o ↦ elim (Option-cases (z_val_to_string value)) [
    | inl e ↦ rw (o, e) (vars_with_prefix-AllOtel rest)
    | inr (v, e) ↦ rw (o, e) (o, vars_with_prefix-AllOtel rest)
  ]
]
