-- ===== src/Metrics/Callbacks.antt =====
-- The operations of otel/src/metrics/observable.rs on the registry. `call` runs a PHP callable, which
-- may itself use the registry: it gives the new registry, and an error if it throws. Objects are
-- created without failure.
use otel_php_rust.Prelude.{
  ℕ, ◌+◌, ◌^◌, ◌%◌, Option, none, some, List, [], ◌∷◌, if◌then◌else◌, is_empty,
}
use otel_php_rust.Prelude.Results.{Result, ok, err}
use otel_php_rust.Prelude.Maps.{Map, find, insert, erase}
use otel_php_rust.Context.Storage.{id_eq}
use otel_php_rust.Metrics.{
  CallbackTarget, CallbackRegistration, Registry, ObserverState, cache_replace, cache_remove,
}

unfoldable pub observers_of : List CallbackTarget → List ObserverState
observers_of [] = []
observers_of (target ∷ targets) =
    record { observer_cache = some target.cache; observer_id = target.target_id }
    ∷ observers_of targets

unfoldable pub targets_of : ℕ → List ℕ → List CallbackTarget
targets_of id [] = []
targets_of id (c ∷ caches) = record { cache = c; target_id = id } ∷ targets_of id caches

-- `callbacks.keys()`.
unfoldable pub keys_of {ℓ} : {F : Type ℓ} → Map ℕ (CallbackRegistration F) → List ℕ
keys_of [] = []
keys_of ((id, _) ∷ rest) = id ∷ keys_of rest

module _ {ℓ κ} {F : Type ℓ} {O : Type κ} where
  -- `target.cache.replace(target.registration_id, Vec::new())` for each target.
  unfoldable pub clear_targets : List CallbackTarget → Registry F O → Registry F O
  clear_targets [] r = r
  clear_targets (target ∷ targets) r =
      clear_targets targets (cache_replace target.cache target.target_id [] r)

  unfoldable pub remove_targets : List CallbackTarget → Registry F O → Registry F O
  remove_targets [] r = r
  remove_targets (target ∷ targets) r =
      remove_targets targets (cache_remove target.cache target.target_id r)

  unfoldable pub detach_callback : ℕ → Registry F O → Registry F O
  detach_callback id r = elim (find id_eq id r.callbacks) [
    | none ↦ r
    | some registration ↦
        remove_targets registration.targets (record r { callbacks = erase id_eq id r.callbacks })
  ]

  -- The method `detach` of a token, which forgets its registration.
  unfoldable pub token_detach : Option ℕ → Registry F O → Option ℕ × Registry F O
  token_detach none r = (none, r)
  token_detach (some id) r = (none, detach_callback id r)

  -- The registration is there before its first call.
  unfoldable pub insert_callback : F → List ℕ → Registry F O → Registry F O
  insert_callback callback caches r =
      let id = r.next_callback_id in
      record r {
        callbacks =
            insert id_eq id (record { callback = callback; targets = targets_of id caches })
              r.callbacks;
        next_callback_id = (id + 1) % 2 ^ 64;
      }

  unfoldable pub detach_all : List ℕ → Registry F O → Registry F O
  detach_all [] r = r
  detach_all (id ∷ ids) r = detach_all ids (detach_callback id r)

  module _ {E : Type 0}
      (call : F → List ObserverState → Registry F O → Result E (Unit {0}) × Registry F O) where
    unfoldable pub invoke_callback : ℕ → Registry F O → Result E (Unit {0}) × Registry F O
    invoke_callback id r = elim (find id_eq id r.callbacks) [
      | none ↦ (ok tt, r)
      | some registration ↦
          call registration.callback (observers_of registration.targets)
            (clear_targets registration.targets r)
    ]

    unfoldable pub register_callback : F → List ℕ → Registry F O → Result E ℕ × Registry F O
    register_callback callback caches r =
        let id = r.next_callback_id in
        let (result, called) = invoke_callback id (insert_callback callback caches r) in
        elim result [ err e ↦ (err e, detach_callback id called) | ok _ ↦ (ok id, called) ]

    unfoldable pub invoke_all : List ℕ → Registry F O → Registry F O
    invoke_all [] r = r
    invoke_all (id ∷ ids) r = invoke_all ids (invoke_callback id r).1

    -- The registry that the flush of the meter provider reads, and the one at the end.
    unfoldable pub flush_and_clear_request_callbacks :
        Registry F O → Option (Registry F O) × Registry F O
    flush_and_clear_request_callbacks r =
        let ids = keys_of r.callbacks in
        let refreshed = invoke_all ids r in
        if is_empty ids then (none, r) else (some refreshed, detach_all ids refreshed)
