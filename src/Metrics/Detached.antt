-- ===== src/Metrics/Detached.antt =====
-- What a detached callback leaves behind: nothing of its own, and all of the others.
use otel_php_rust.Prelude.{
  ℕ, Bool, false, ◌&&◌, Option, none, some, List, [], ◌∷◌, ◌≡◌, refl, ap, ◌∙◌, arith, if◌then◌else◌,
  inl, inr, Bool-cases, Option-cases, any, ==_iff,
}
use otel_php_rust.Prelude.Maps.{Map, find, erase, find-insert_any, find-erase_any}
use otel_php_rust.Context.Storage.{id_eq}
use otel_php_rust.Request.Variables.{id_eq-IsTest}
use otel_php_rust.Metrics.{
  CallbackTarget, CallbackRegistration, Registry, cache_of, set_cache, cache_remove,
}
use otel_php_rust.Metrics.Callbacks.{
  remove_targets, detach_callback, targets_of, keys_of, detach_all,
}

-- Whether the target is that registration in that cache.
abbrev pub is_target : ℕ → ℕ → CallbackTarget → Bool
is_target c id target = id_eq target.cache c && id_eq target.target_id id

-- The targets of a registration are its own, one for each of its caches.
pub any-targets_of :
    (id c other : ℕ) (caches : List ℕ)
    → any (is_target c other) (targets_of id caches)
      ≡ (id_eq id other && any (λ k. id_eq k c) caches)
unfolding targets_of
any-targets_of id c other [] = ground arith
any-targets_of id c other (k ∷ caches) = ground (arith, any-targets_of id c other caches)

module _ {ℓ κ} {F : Type ℓ} {O : Type κ} where
  -- The observations of a registration in a cache.
  abbrev pub observations : Registry F O → ℕ → ℕ → Option (List O)
  observations r c id = find id_eq id (cache_of r c)

  cache_of-set_cache :
      (r : Registry F O) (c c' : ℕ) (m : Map ℕ (List O))
      → cache_of (set_cache c m r) c' ≡ (if id_eq c c' then m else cache_of r c')
  cache_of-set_cache r c c' m =
      rw (find-insert_any id_eq id_eq-IsTest c c' m r.caches)
        (elim (Bool-cases (id_eq c c')) [ inl e ↦ rw e refl | inr e ↦ rw e refl ])

  observations-cache_remove :
      (r : Registry F O) (c id c' id' : ℕ)
      → observations (cache_remove c id r) c' id'
        ≡ (if id_eq c c' && id_eq id id' then none else observations r c' id')
  unfolding cache_remove
  observations-cache_remove r c id c' id' =
      rw (cache_of-set_cache r c c' (erase id_eq id (cache_of r c)))
        (elim (Bool-cases (id_eq c c')) [
          | inr e ↦ rw e refl
          | inl e ↦
              let same : c ≡ c' = (==_iff c c').0 e in
              rw (e, same) (find-erase_any id_eq id_eq-IsTest id id' (cache_of r c'))
        ])

  observations-remove_targets :
      (targets : List CallbackTarget) (r : Registry F O) (c id : ℕ)
      → observations (remove_targets targets r) c id
        ≡ (if any (is_target c id) targets then none else observations r c id)
  unfolding remove_targets
  observations-remove_targets [] r c id = refl
  observations-remove_targets (target ∷ targets) r c id =
      observations-remove_targets targets (cache_remove target.cache target.target_id r) c id
      ∙ (rw (observations-cache_remove r target.cache target.target_id c id)
          (elim (Bool-cases (is_target c id target)) [
            | inr e ↦ rw e refl
            | inl e ↦ rw e (elim (Bool-cases (any (is_target c id) targets)) [
              | inl f ↦ rw f refl
              | inr f ↦ rw f refl
            ])
          ]))

  remove_targets-callbacks :
      (targets : List CallbackTarget) (r : Registry F O)
      → (remove_targets targets r).callbacks ≡ r.callbacks
  unfolding remove_targets cache_remove
  remove_targets-callbacks [] r = refl
  remove_targets-callbacks (target ∷ targets) r =
      remove_targets-callbacks targets (cache_remove target.cache target.target_id r)

  -- What `detach_callback` leaves of the registry, whatever it holds.
  pub callbacks-detach_callback :
      (r : Registry F O) (id other : ℕ)
      → find id_eq other (detach_callback id r).callbacks
        ≡ (if id_eq id other then none else find id_eq other r.callbacks)
  unfolding detach_callback
  callbacks-detach_callback r id other = elim (Option-cases (find id_eq id r.callbacks)) [
    | inl e ↦
        rw (detach_callback, e)
          (elim (Bool-cases (id_eq id other)) [
            | inl same ↦ rw same (rw ((==_iff id other).0 same) at e)
            | inr apart ↦ rw apart refl
          ])
    | inr (registration, e) ↦
        let rest = record r { callbacks = erase id_eq id r.callbacks } in
        rw (detach_callback, e)
          (ap (λ m. find id_eq other m) (remove_targets-callbacks registration.targets rest)
            ∙ find-erase_any id_eq id_eq-IsTest id other r.callbacks)
  ]

  -- The observations of its targets go, and no others.
  pub observations-detach_callback :
      (r : Registry F O) (id : ℕ) (registration : CallbackRegistration F) (c other : ℕ)
      → find id_eq id r.callbacks ≡ some registration
      → observations (detach_callback id r) c other
        ≡ (if any (is_target c other) registration.targets then none else observations r c other)
  unfolding detach_callback
  observations-detach_callback r id registration c other e =
      rw (detach_callback, e)
        (observations-remove_targets registration.targets
          (record r { callbacks = erase id_eq id r.callbacks }) c other)

  pub callbacks-detach_all :
      (ids : List ℕ) (r : Registry F O) (id : ℕ)
      → find id_eq id (detach_all ids r).callbacks
        ≡ (if any (λ k. id_eq k id) ids then none else find id_eq id r.callbacks)
  unfolding detach_all
  callbacks-detach_all [] r id = refl
  callbacks-detach_all (k ∷ ids) r id =
      callbacks-detach_all ids (detach_callback k r) id
      ∙ (rw (callbacks-detach_callback r k id) (elim (Bool-cases (id_eq k id)) [
        | inr e ↦ rw e refl
        | inl e ↦ rw e (elim (Bool-cases (any (λ j. id_eq j id) ids)) [
          | inl f ↦ rw f refl
          | inr f ↦ rw f refl
        ])
      ]))

pub find-keys_of {ℓ} :
    {F : Type ℓ} (m : Map ℕ (CallbackRegistration F)) (id : ℕ)
    → any (λ k. id_eq k id) (keys_of m) ≡ false
    → find id_eq id m ≡ none
unfolding keys_of find
find-keys_of [] id h = refl
find-keys_of ((k, registration) ∷ m) id h = elim (Bool-cases (id_eq k id)) [
  | inl e ↦ absurd (cc (rw e at h))
  | inr e ↦ rw e (find-keys_of m id (rw e at h))
]
