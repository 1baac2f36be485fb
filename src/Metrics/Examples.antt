-- ===== src/Metrics/Examples.antt =====
-- Tests of the registry of callbacks, and the theorems at examples. A callable is a number, an
-- observation too.
use otel_php_rust.Prelude.{
  ℕ, zero, suc, true, none, some, List, [], ◌∷◌, ◌≡◌, refl, ap, ◌∙◌, inl, inr, Option-cases, any,
}
use otel_php_rust.Prelude.Results.{Result, ok, err}
use otel_php_rust.Prelude.Maps.{find, insert, erase}
use otel_php_rust.Context.Storage.{id_eq}
use otel_php_rust.Metrics.{
  Registry, ObserverState, cache_replace, cache_remove, cache_push, concat, snapshot, observe,
}
use otel_php_rust.Metrics.Callbacks.{
  clear_targets, remove_targets, detach_callback, observers_of, targets_of, keys_of,
  invoke_callback, insert_callback, register_callback, invoke_all, detach_all,
  flush_and_clear_request_callbacks,
}
use otel_php_rust.Metrics.Detached.{observations}
use otel_php_rust.Metrics.Cleared.{
  RegistersNothing, flush_and_clear_request_callbacks-empty, register_callback-failed,
}

abbrev Numbers : Type 0
Numbers = Registry ℕ ℕ

abbrev fresh : Numbers
fresh = record { callbacks = []; next_callback_id = 1; caches = [] }

abbrev observe_all : List ObserverState → ℕ → Numbers → Numbers
observe_all [] n r = r
observe_all (observer ∷ observers) n r = observe_all observers n (observe observer n r)

-- Callable 0 throws; any other one observes its number.
abbrev call : ℕ → List ObserverState → Numbers → Result ℕ (Unit {0}) × Numbers
call zero observers r = (err 7, r)
call (suc n) observers r = (ok tt, observe_all observers (suc n) r)

abbrev registered : Numbers
registered = (register_callback call 5 (10 ∷ 11 ∷ []) fresh).1

snapshot-registered : snapshot registered 11 ≡ 5 ∷ []
unfolding register_callback insert_callback invoke_callback clear_targets cache_replace cache_push
    observers_of targets_of observe snapshot concat find insert erase
snapshot-registered = refl

-- An observer that is kept writes into the cache after its callback was detached.
snapshot-detached_observer :
    snapshot
      (observe
        (record { observer_cache = some 11; observer_id = 1 })
        9
        (detach_callback 1 registered))
      11
    ≡ 9 ∷ []
unfolding register_callback insert_callback invoke_callback clear_targets cache_replace cache_push
    cache_remove remove_targets detach_callback observers_of targets_of observe snapshot concat find
    insert erase
snapshot-detached_observer = refl

-- A callable that registers one more when it is called again.
abbrev call_registering : ℕ → List ObserverState → Numbers → Result ℕ (Unit {0}) × Numbers
call_registering n observers r = (ok tt, insert_callback n [] r)

-- A callback that is registered while the request's callbacks are refreshed stays.
keys_of-flush :
    keys_of
      (flush_and_clear_request_callbacks call_registering (insert_callback 3 [] fresh)).1.callbacks
    ≡ 2 ∷ []
unfolding flush_and_clear_request_callbacks insert_callback invoke_all invoke_callback clear_targets
    detach_all detach_callback remove_targets observers_of targets_of keys_of find insert erase
keys_of-flush = refl

observe-callbacks :
    (observer : ObserverState) (n : ℕ) (r : Numbers)
    → (observe observer n r).callbacks ≡ r.callbacks
unfolding observe cache_push
observe-callbacks observer n r = elim (Option-cases (observer.observer_cache)) [
  | inl e ↦ rw (observe, e) refl
  | inr (c, e) ↦ rw (observe, e) refl
]

observe_all-callbacks :
    (observers : List ObserverState) (n : ℕ) (r : Numbers)
    → (observe_all observers n r).callbacks ≡ r.callbacks
observe_all-callbacks [] n r = refl
observe_all-callbacks (observer ∷ observers) n r =
    observe_all-callbacks observers n (observe observer n r) ∙ observe-callbacks observer n r

call-RegistersNothing : RegistersNothing call
call-RegistersNothing zero observers r id h = h
call-RegistersNothing (suc n) observers r id h =
    ap (λ m. find id_eq id m) (observe_all-callbacks observers (suc n) r) ∙ h

flush_and_clear_request_callbacks-empty_example :
    find id_eq 1 (flush_and_clear_request_callbacks call registered).1.callbacks ≡ none
flush_and_clear_request_callbacks-empty_example =
    flush_and_clear_request_callbacks-empty call call-RegistersNothing registered 1

abbrev after_failure : Numbers
after_failure = (register_callback call 0 (10 ∷ []) fresh).1

register_callback-failure : register_callback call 0 (10 ∷ []) fresh ≡ (err 7, after_failure)
unfolding register_callback insert_callback invoke_callback find insert erase
register_callback-failure = refl

register_callback-failed_example :
    (find id_eq 1 after_failure.callbacks ≡ none)
    × ((c : ℕ) → any (λ k. id_eq k c) (10 ∷ []) ≡ true → observations after_failure c 1 ≡ none)
register_callback-failed_example =
    register_callback-failed call 0 (10 ∷ []) fresh (λ during h. h) 7 after_failure
      register_callback-failure

registration_one :
    find id_eq 1 registered.callbacks
    ≡ some (record { callback = 5; targets = targets_of 1 (10 ∷ 11 ∷ []) })
unfolding register_callback insert_callback invoke_callback clear_targets cache_replace cache_push
    observers_of targets_of observe find insert erase
registration_one = refl
