-- ===== src/Transport/Masking.antt =====
-- `with_exporter_env_masked` of otel/src/trace/otlp_transport.rs, and that it leaves the
-- environment as it was. The environment holds values of any encoding here.
use otel_php_rust.Prelude.{
  Bool, none, some, List, [], ◌∷◌, ◌≡◌, refl, ◌∙◌, if◌then◌else◌, any, inl, inr, Bool-cases,
  Option-cases,
}
use otel_php_rust.Prelude.Bytes.{Bytes, codes, bytes_eq, bytes_eq_iff, bytes_eq_refl}
use otel_php_rust.Prelude.Maps.{find, erase, find-erase, find-erase_same, bytes_eq-IsTest}
use otel_php_rust.Request.Values.{Environ}
use otel_php_rust.Request.Environment.{set_vars, has_key}
use otel_php_rust.Request.Variables.{find-set_vars, has_key_same, has_key_other}

-- `MASKED`.
abbrev pub masked_names : List Bytes
masked_names =
    codes "OTEL_EXPORTER_OTLP_TRACES_HEADERS"
    ∷ codes "OTEL_EXPORTER_OTLP_HEADERS"
    ∷ codes "OTEL_EXPORTER_OTLP_TRACES_COMPRESSION"
    ∷ codes "OTEL_EXPORTER_OTLP_COMPRESSION"
    ∷ []

-- `filter_map(|name| env::var_os(name).map(|value| (*name, value)))`.
unfoldable pub saved_vars : List Bytes → Environ → Environ
saved_vars [] environ = []
saved_vars (name ∷ names) environ =
    let others = saved_vars names environ in
    elim (find bytes_eq name environ) [ none ↦ others | some value ↦ (name, value) ∷ others ]

unfoldable pub remove_vars : Environ → Environ → Environ
remove_vars [] environ = environ
remove_vars ((name, _) ∷ saved) environ = erase bytes_eq name (remove_vars saved environ)

-- `build` runs in the masked environment; dropping `Restore` sets the variables again.
unfoldable pub with_exporter_env_masked {ℓ} :
    {T : Type ℓ} → (Environ → T × Environ) → Environ → T × Environ
with_exporter_env_masked build environ =
    let saved = saved_vars masked_names environ in
    let (built, after) = build (remove_vars saved environ) in (built, set_vars saved after)

abbrev pub is_named : List Bytes → Bytes → Bool
is_named names name = any (λ n. bytes_eq n name) names

find-saved_vars :
    (name : Bytes) (names : List Bytes) (environ : Environ)
    → find bytes_eq name (saved_vars names environ)
      ≡ (if is_named names name then find bytes_eq name environ else none)
unfolding saved_vars find
find-saved_vars name [] environ = refl
find-saved_vars name (n ∷ names) environ =
    let ih = find-saved_vars name names environ in
    elim (Bool-cases (bytes_eq n name)) [
      | inl this ↦
          let same : n ≡ name = (bytes_eq_iff n name).0 this in
          rw same (elim (Option-cases (find bytes_eq name environ)) [
            | inl e ↦
                rw (saved_vars, e, bytes_eq_refl name)
                  (elim (Bool-cases (is_named names name)) [
                    | inl b ↦ rw (b, e) at ih
                    | inr b ↦ rw b at ih
                  ])
            | inr (v, e) ↦ rw (saved_vars, e, find, bytes_eq_refl name) refl
          ])
      | inr that ↦ elim (Option-cases (find bytes_eq n environ)) [
        | inl e ↦ rw (saved_vars, e, that) ih
        | inr (v, e) ↦ rw (saved_vars, e, find, that) ih
      ]
    ]

find-remove_vars :
    (name : Bytes) (saved environ : Environ)
    → find bytes_eq name (remove_vars saved environ)
      ≡ (if has_key saved name then none else find bytes_eq name environ)
unfolding remove_vars find
find-remove_vars name [] environ = refl
find-remove_vars name ((n, v) ∷ saved) environ = elim (Bool-cases (bytes_eq n name)) [
  | inl this ↦
      let same : n ≡ name = (bytes_eq_iff n name).0 this in
      rw (same, has_key_same name v saved)
        (find-erase_same bytes_eq bytes_eq-IsTest name (remove_vars saved environ))
  | inr that ↦ rw (has_key_other n v name saved that) (
      find-erase bytes_eq bytes_eq-IsTest n name (remove_vars saved environ) that
      ∙ find-remove_vars name saved environ)
]

module _ {ℓ} {T : Type ℓ} (build : Environ → T × Environ) (environ : Environ) where
  -- What `build` sees.
  abbrev pub masked : Environ
  masked = remove_vars (saved_vars masked_names environ) environ

  find-masked :
      (name : Bytes)
      → find bytes_eq name masked
        ≡ (if is_named masked_names name then none else find bytes_eq name environ)
  find-masked name =
      let saved = saved_vars masked_names environ in
      rw (find-remove_vars name saved environ, has_key, find-saved_vars name masked_names environ)
        (elim (Bool-cases (is_named masked_names name)) [
          | inr e ↦ rw e refl
          | inl e ↦ rw e (elim (Option-cases (find bytes_eq name environ)) [
            | inl f ↦ rw f refl
            | inr (_, f) ↦ rw f refl
          ])
        ])

  -- If `build` leaves the environment's variables as they are, its result is that of a run in
  -- which the four masked variables are absent and every other one is there as before, and
  -- afterwards every variable is as it was.
  pub with_exporter_env_masked-environ :
      ((e : Environ) (name : Bytes) → find bytes_eq name (build e).1 ≡ find bytes_eq name e)
      → let (built, after) = with_exporter_env_masked build environ in
        (built ≡ (build masked).0)
        × ((name : Bytes)
            → find bytes_eq name masked
              ≡ (if is_named masked_names name then none else find bytes_eq name environ))
        × ((name : Bytes) → find bytes_eq name after ≡ find bytes_eq name environ)
  unfolding with_exporter_env_masked
  with_exporter_env_masked-environ quiet = (
    refl,
    find-masked,
    λ name.
        let saved = saved_vars masked_names environ in
        rw
          (
            find-set_vars name saved (build masked).1,
            quiet masked name,
            find-masked name,
            find-saved_vars name masked_names environ,
          )
          (elim (Bool-cases (is_named masked_names name)) [
            | inr e ↦ rw e refl
            | inl e ↦ rw e (elim (Option-cases (find bytes_eq name environ)) [
              | inl f ↦ rw f refl
              | inr (_, f) ↦ rw f refl
            ])
          ]),
  )
