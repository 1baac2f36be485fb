-- ===== src/Metrics/Cleared.antt =====
-- The end of a request drops its callbacks, and a callback that fails at once is not registered.
use otel_php_rust.Prelude.{
  ℕ, true, false, none, some, List, [], ◌∷◌, ◌≡◌, refl, ap, ◌∙◌, inl, inr, Bool-cases, Option-cases,
  any, is_empty,
}
use mathlib.Core.Path.{subst}
use otel_php_rust.Prelude.Results.{Result, ok, err}
use otel_php_rust.Prelude.Maps.{find, find-insert}
use otel_php_rust.Context.Storage.{id_eq}
use otel_php_rust.Request.Variables.{id_eq-IsTest}
use otel_php_rust.Metrics.{
  CallbackTarget, CallbackRegistration, Registry, ObserverState, cache_replace,
}
use otel_php_rust.Metrics.Callbacks.{
  clear_targets, detach_callback, observers_of, targets_of, keys_of, invoke_callback,
  insert_callback, register_callback, invoke_all, flush_and_clear_request_callbacks,
}
use otel_php_rust.Metrics.Detached.{
  observations, callbacks-detach_callback, observations-detach_callback, any-targets_of,
  callbacks-detach_all, find-keys_of,
}

none_in : (ids : List ℕ) (id : ℕ) → is_empty ids ≡ true → any (λ k. id_eq k id) ids ≡ false
none_in [] id h = refl
none_in (k ∷ ids) id h = absurd (cc h)

module _ {ℓ κ} {F : Type ℓ} {O : Type κ} {E : Type 0}
    (call : F → List ObserverState → Registry F O → Result E (Unit {0}) × Registry F O) where
  -- A call registers nothing.
  abbrev pub RegistersNothing : Type (ℓ ⊔ κ)
  RegistersNothing =
      (f : F) (observers : List ObserverState) (r : Registry F O) (id : ℕ)
      → find id_eq id r.callbacks ≡ none
      → find id_eq id (call f observers r).1.callbacks ≡ none

  clear_targets-callbacks :
      (targets : List CallbackTarget) (r : Registry F O)
      → (clear_targets targets r).callbacks ≡ r.callbacks
  unfolding clear_targets cache_replace
  clear_targets-callbacks [] r = refl
  clear_targets-callbacks (target ∷ targets) r =
      clear_targets-callbacks targets (cache_replace target.cache target.target_id [] r)

  invoke_callback-none :
      RegistersNothing
      → (k : ℕ) (r : Registry F O) (id : ℕ) → find id_eq id r.callbacks ≡ none
      → find id_eq id (invoke_callback call k r).1.callbacks ≡ none
  unfolding invoke_callback
  invoke_callback-none quiet k r id h = elim (Option-cases (find id_eq k r.callbacks)) [
    | inl e ↦ rw (invoke_callback, e) h
    | inr (registration, e) ↦
        let cleared = clear_targets registration.targets r in
        rw (invoke_callback, e)
          (quiet registration.callback (observers_of registration.targets) cleared id
            (ap (λ m. find id_eq id m) (clear_targets-callbacks registration.targets r) ∙ h))
  ]

  invoke_all-none :
      RegistersNothing
      → (ids : List ℕ) (r : Registry F O) (id : ℕ) → find id_eq id r.callbacks ≡ none
      → find id_eq id (invoke_all call ids r).callbacks ≡ none
  unfolding invoke_all
  invoke_all-none quiet [] r id h = h
  invoke_all-none quiet (k ∷ ids) r id h =
      invoke_all-none quiet ids (invoke_callback call k r).1 id
        (invoke_callback-none quiet k r id h)

  -- If the calls of PHP register nothing, no callback is registered behind the flush at the
  -- request's end, whatever else the calls do and whether they throw.
  pub flush_and_clear_request_callbacks-empty :
      RegistersNothing
      → (r : Registry F O) (id : ℕ)
      → find id_eq id (flush_and_clear_request_callbacks call r).1.callbacks ≡ none
  unfolding flush_and_clear_request_callbacks
  flush_and_clear_request_callbacks-empty quiet r id =
      let ids = keys_of r.callbacks in
      let refreshed = invoke_all call ids r in
      let gone = callbacks-detach_all ids refreshed id in
      elim (Bool-cases (is_empty ids)) [
        | inl e ↦
            rw (flush_and_clear_request_callbacks, e)
              (find-keys_of r.callbacks id (none_in ids id e))
        | inr e ↦
            rw (flush_and_clear_request_callbacks, e)
              (elim (Bool-cases (any (λ k. id_eq k id) ids)) [
                | inl listed ↦ rw listed at gone
                | inr other ↦
                    (rw other at gone)
                    ∙ invoke_all-none quiet ids r id (find-keys_of r.callbacks id other)
              ])
      ]

  -- The registration outlives its first call.
  registered :
      (callback : F) (caches : List ℕ) (r : Registry F O)
      → let id = r.next_callback_id in
        let registration : CallbackRegistration F = record {
          callback = callback;
          targets = targets_of id caches;
        } in
        ((during : Registry F O)
          → find id_eq id during.callbacks ≡ some registration
          → find id_eq id (call callback (observers_of registration.targets) during).1.callbacks
            ≡ some registration)
        → find id_eq id (invoke_callback call id (insert_callback callback caches r)).1.callbacks
          ≡ some registration
  unfolding invoke_callback insert_callback
  registered callback caches r kept =
      let id = r.next_callback_id in
      let registration : CallbackRegistration F = record {
        callback = callback;
        targets = targets_of id caches;
      } in
      let begun = insert_callback callback caches r in
      let found = find-insert id_eq id_eq-IsTest id registration r.callbacks in
      rw (invoke_callback, found)
        (kept (clear_targets registration.targets begun)
          (ap (λ m. find id_eq id m) (clear_targets-callbacks registration.targets begun) ∙ found))

  left_by :
      (id : ℕ) (result : Result E (Unit {0})) (called : Registry F O) (e : E) (after : Registry F O)
      → (elim result as (λ _. Result E ℕ × Registry F O) [
        | err e' ↦ (err e', detach_callback id called)
        | ok _ ↦ (ok id, called)
      ])
        ≡ (err e, after)
      → detach_callback id called ≡ after
  left_by id (err e') called e after h = ap (λ p. p.1) h
  left_by id (ok _) called e after h = absurd (cc (ap (λ p. p.0) h))

  -- If the first call of a new callback throws, and its registration is still there then, the
  -- callback is not registered and none of its caches has an observation of it.
  pub register_callback-failed :
      (callback : F) (caches : List ℕ) (r : Registry F O)
      → let id = r.next_callback_id in
        let registration : CallbackRegistration F = record {
          callback = callback;
          targets = targets_of id caches;
        } in
        ((during : Registry F O)
          → find id_eq id during.callbacks ≡ some registration
          → find id_eq id (call callback (observers_of registration.targets) during).1.callbacks
            ≡ some registration)
        → (e : E) (after : Registry F O) → register_callback call callback caches r ≡ (err e, after)
        → (find id_eq id after.callbacks ≡ none)
          × ((c : ℕ) → any (λ k. id_eq k c) caches ≡ true → observations after c id ≡ none)
  unfolding register_callback
  register_callback-failed callback caches r kept e after failed =
      let id = r.next_callback_id in
      let registration : CallbackRegistration F = record {
        callback = callback;
        targets = targets_of id caches;
      } in
      let begun = insert_callback callback caches r in
      let (result, called) = invoke_callback call id begun in
      let there = registered callback caches r kept in
      let same : detach_callback id called ≡ after = left_by id result called e after failed in
      subst
        (λ (w : Registry F O).
          (find id_eq id w.callbacks ≡ none)
          × ((c : ℕ) → any (λ k. id_eq k c) caches ≡ true → observations w c id ≡ none))
        same
        (
          callbacks-detach_callback called id id ∙ (rw (id_eq-IsTest.same_refl id) refl),
          λ c listed.
              observations-detach_callback called id registration c id there
              ∙ (rw (any-targets_of id c id caches, id_eq-IsTest.same_refl id, listed) refl),
        )
