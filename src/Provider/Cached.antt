-- ===== src/Provider/Cached.antt =====
-- A request keeps the provider that it has got, and the shutdown of a process drops its own ones.
use otel_php_rust.Prelude.{
  ℕ, false, none, some, List, [], ◌∷◌, ◌≡◌, refl, ◌∙◌, arith, ◌==◌, inl, inr, if◌then◌else◌,
  Bool-cases, Option-cases,
}
use otel_php_rust.Prelude.Bytes.{Bytes, bytes_eq_iff, bytes_eq_refl}
use otel_php_rust.Prelude.Maps.{Map, IsTest, find, insert, find-insert}
use otel_php_rust.Attributes.Config.{Locals}
use otel_php_rust.Transport.{EnvOf}
use otel_php_rust.Provider.{ProviderEntry, Outside, new_entry}
use otel_php_rust.Provider.Registry.{
  ProviderKey, key_eq, Providers, compute_config_hash, begin_provider_request,
  get_tracer_provider_key, remove_pid, shutdown_providers, init_once, get_tracer_provider,
}

key_eq-IsTest : IsTest key_eq
key_eq-IsTest = record {
  same_refl = λ k. rw (bytes_eq_refl k.1) (ground arith);
  same_iff = λ j k. (
    λ h.
        let pids : j.0 ≡ k.0 = ground arith in
        let hashes : j.1 ≡ k.1 = (bytes_eq_iff j.1 k.1).0 (ground arith) in λ i. (pids i, hashes i),
    λ h. rw (h, bytes_eq_refl k.1) (ground arith),
  );
}

module _ {ℓ} (digest : List (Bytes × Bytes) → Bytes) {X : Type ℓ} {U K : Type 0}
    (outside : Outside X U K) where
  -- The key of a request that has begun does not depend on the environment.
  key-begun :
      (pid : ℕ) (env : EnvOf) (s : Providers X) {hash : Bytes}
      → s.request_config_hash ≡ some hash
      → get_tracer_provider_key digest pid env s ≡ (pid, hash)
  unfolding get_tracer_provider_key
  key-begun pid env s h = rw (get_tracer_provider_key, h) refl

  found :
      (pid : ℕ) (env : EnvOf) (locals : Locals) (s : Providers X) {hash : Bytes}
      {entry : ProviderEntry X}
      → s.request_config_hash ≡ some hash
      → find key_eq (pid, hash) s.tracer_providers ≡ some entry
      → get_tracer_provider digest outside false pid env locals s ≡ (entry.provider, s)
  unfolding get_tracer_provider
  found pid env locals s h e = rw (get_tracer_provider, key-begun pid env s h, e) refl

  -- The providers with a new one.
  abbrev inserted : ProviderKey → EnvOf → Locals → Providers X → Providers X
  inserted key env locals s = record s {
    tracer_providers = insert key_eq key (new_entry outside env locals) s.tracer_providers;
  }

  init_once-none :
      (pid : ℕ) (env : EnvOf) (locals : Locals) (s : Providers X) {hash : Bytes}
      → s.request_config_hash ≡ some hash
      → find key_eq (pid, hash) s.tracer_providers ≡ none
      → init_once digest outside pid env locals s ≡ inserted (pid, hash) env locals s
  unfolding init_once
  init_once-none pid env locals s h e =
      rw (init_once, key-begun pid env s h, e, key-begun pid env s h) refl

  created :
      (pid : ℕ) (env : EnvOf) (locals : Locals) (s : Providers X) {hash : Bytes}
      → s.request_config_hash ≡ some hash
      → find key_eq (pid, hash) s.tracer_providers ≡ none
      → get_tracer_provider digest outside false pid env locals s
        ≡ ((new_entry outside env locals).provider, inserted (pid, hash) env locals s)
  unfolding get_tracer_provider
  created pid env locals s {hash = hash} h e =
      rw
        (
          get_tracer_provider,
          key-begun pid env s h,
          e,
          init_once-none pid env locals s h e,
          key-begun pid env s h,
          find-insert key_eq key_eq-IsTest (pid, hash) (new_entry outside env locals)
              s.tracer_providers,
        )
        refl

  -- A request that has begun and is not disabled gets, in the same process, the same provider
  -- again whatever the environment holds later, and the second call changes nothing.
  pub get_tracer_provider-again :
      (pid : ℕ) (start env later : EnvOf) (locals locals' : Locals) (s : Providers X)
      → let (provider, s') =
          get_tracer_provider digest outside false pid env locals
            (begin_provider_request digest start s) in
        get_tracer_provider digest outside false pid later locals' s' ≡ (provider, s')
  unfolding begin_provider_request
  get_tracer_provider-again pid start env later locals locals' s =
      let hash = compute_config_hash digest start in
      let begun = begin_provider_request digest start s in
      elim (Option-cases (find key_eq (pid, hash) s.tracer_providers)) [
        | inr (entry, e) ↦
            rw (found pid env locals begun refl e) (found pid later locals' begun refl e)
        | inl e ↦ rw (created pid env locals begun refl e) (
            found pid later locals' (inserted (pid, hash) env locals begun) refl (
              find-insert key_eq key_eq-IsTest (pid, hash) (new_entry outside env locals)
                s.tracer_providers))
      ]

find-remove_pid {ℓ} :
    {X : Type ℓ} (pid other : ℕ) (hash : Bytes) (entries : Map ProviderKey (ProviderEntry X))
    → find key_eq (other, hash) (remove_pid pid entries)
      ≡ (if other == pid then none else find key_eq (other, hash) entries)
unfolding remove_pid find
find-remove_pid pid other hash [] = ground arith
find-remove_pid pid other hash (((k, h), entry) ∷ rest) =
    let ih = find-remove_pid pid other hash rest in
    elim (Bool-cases (k == pid)) [
      | inl gone ↦
          rw (remove_pid, gone)
            (ih ∙ (elim (Bool-cases (other == pid)) [
              | inl e ↦ rw e refl
              | inr e ↦
                  let apart : key_eq (k, h) (other, hash) ≡ false = ground arith in
                  rw (e, apart) refl
            ]))
      | inr kept ↦
          rw (remove_pid, kept)
            (elim (Bool-cases (key_eq (k, h) (other, hash))) [
              | inl same ↦ let e : (other == pid) ≡ false = ground arith in rw (same, e) refl
              | inr apart ↦ rw apart ih
            ])
    ]

-- After `shutdown`, no provider of the process id is left, and those of other ones are as they
-- were.
pub find-shutdown_providers {ℓ} :
    {X : Type ℓ} (pid other : ℕ) (hash : Bytes) (s : Providers X)
    → find key_eq (other, hash) (shutdown_providers pid s).tracer_providers
      ≡ (if other == pid then none else find key_eq (other, hash) s.tracer_providers)
unfolding shutdown_providers
find-shutdown_providers pid other hash s = find-remove_pid pid other hash s.tracer_providers
