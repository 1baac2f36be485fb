-- ===== src/Metrics.antt =====
-- otel/src/metrics/observable.rs and the cache of otel/src/metrics/instrument.rs: the registry of
-- observable callbacks of a thread. An `Arc<AsyncCache>` is the number of its cache, the observed
-- amount with its attributes is a value of a type `O`, and a PHP callable one of a type `F`.
pub mod Callbacks
pub mod Detached
pub mod Cleared
mod Examples
use otel_php_rust.Prelude.{ℕ, ◌+◌, ◌^◌, ◌%◌, Option, none, some, List, [], ◌∷◌, ◌++◌, get_or, map}
use otel_php_rust.Prelude.Maps.{Map, find, insert, erase}
use otel_php_rust.Context.Storage.{id_eq}

-- `AsyncCache`: the observations by registration.
abbrev pub AsyncCache {ℓ} : Type ℓ → Type ℓ
AsyncCache O = Map ℕ (List O)

pub record CallbackTarget : Type 0 where
  pub cache : ℕ
  pub target_id : ℕ

pub record CallbackRegistration {ℓ} (F : Type ℓ) : Type ℓ where
  pub callback : F
  pub targets : List CallbackTarget

-- `CALLBACKS`, `NEXT_CALLBACK_ID` and the caches.
pub record Registry {ℓ κ} (F : Type ℓ) (O : Type κ) : Type (ℓ ⊔ κ) where
  pub callbacks : Map ℕ (CallbackRegistration F)
  pub next_callback_id : ℕ
  pub caches : Map ℕ (AsyncCache O)

-- The state of an observer object.
pub record ObserverState : Type 0 where
  pub observer_cache : Option ℕ
  pub observer_id : ℕ

unfoldable pub concat {ℓ} : {O : Type ℓ} → AsyncCache O → List O
concat [] = []
concat ((_, observations) ∷ rest) = observations ++ concat rest

module _ {ℓ κ} {F : Type ℓ} {O : Type κ} where
  -- A cache that was never written to is empty.
  abbrev pub cache_of : Registry F O → ℕ → AsyncCache O
  cache_of r c = get_or (find id_eq c r.caches) []

  abbrev pub set_cache : ℕ → AsyncCache O → Registry F O → Registry F O
  set_cache c observations r = record r { caches = insert id_eq c observations r.caches }

  unfoldable pub cache_replace : ℕ → ℕ → List O → Registry F O → Registry F O
  cache_replace c id observations r = set_cache c (insert id_eq id observations (cache_of r c)) r

  unfoldable pub cache_remove : ℕ → ℕ → Registry F O → Registry F O
  cache_remove c id r = set_cache c (erase id_eq id (cache_of r c)) r

  -- `entry(registration_id).or_default().push(observation)`.
  unfoldable pub cache_push : ℕ → ℕ → O → Registry F O → Registry F O
  cache_push c id observation r =
      let old = get_or (find id_eq id (cache_of r c)) [] in
      set_cache c (insert id_eq id (old ++ observation ∷ []) (cache_of r c)) r

  unfoldable pub snapshot : Registry F O → ℕ → List O
  snapshot r c = concat (cache_of r c)

  -- The method `observe` behind the conversion of its arguments.
  unfoldable pub observe : ObserverState → O → Registry F O → Registry F O
  observe observer observation r = elim (observer.observer_cache) [
    | none ↦ r
    | some c ↦ cache_push c observer.observer_id observation r
  ]
