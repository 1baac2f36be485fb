-- ===== src/SensitiveData/Capture.antt =====
-- The decision of a request to capture sensitive data, and a URL written without it.
use otel_php_rust.Prelude.{
  ℕ, ◌≡◌, refl, ap, Bool, true, false, none, some, List, [], ◌∷◌, ◌++◌, any, Bool-cases, inl, inr,
  ◌⊎◌,
}
use otel_php_rust.Prelude.Bytes.{Bytes}
use otel_php_rust.Batch.Config.{EnvVar}
use otel_php_rust.Batch.Classify.{take_until}
use otel_php_rust.SensitiveData.{
  RequestCapture, capture_from_env, begin_request, capture, is_url_separator, sanitize_url_value,
  sanitize_url, UrlSetters,
}

-- The URLs that a request writes one after the other, the variable changing meanwhile.
pub sanitize_all : {U : Type 0} → UrlSetters U → RequestCapture → List (EnvVar × Bytes) → List Bytes
unfolding sanitize_url
sanitize_all crate slot [] = []
sanitize_all crate slot ((env, value) ∷ rest) =
    let (url, slot') = sanitize_url crate env slot value in url ∷ sanitize_all crate slot' rest

pub sanitize_each : {U : Type 0} → UrlSetters U → Bool → List (EnvVar × Bytes) → List Bytes
sanitize_each crate allowed [] = []
sanitize_each crate allowed ((env, value) ∷ rest) =
    sanitize_url_value crate value allowed ∷ sanitize_each crate allowed rest

sanitize_all-decided :
    {U : Type 0} (crate : UrlSetters U) (allowed : Bool) (urls : List (EnvVar × Bytes))
    → sanitize_all crate (some allowed) urls ≡ sanitize_each crate allowed urls
unfolding sanitize_all sanitize_each sanitize_url capture
sanitize_all-decided crate allowed [] = refl
sanitize_all-decided crate allowed ((env, value) ∷ rest) =
    ap (◌∷◌ (sanitize_url_value crate value allowed)) (sanitize_all-decided crate allowed rest)

take_until-stops :
    (p : ℕ → Bool) (value : Bytes)
    → (rest : Bytes) × (value ≡ take_until p value ++ rest)
      × (any p (take_until p value) ≡ false)
      × ((rest ≡ []) ⊎ ((c : ℕ) × (behind : Bytes) × (rest ≡ c ∷ behind) × (p c ≡ true)))
unfolding take_until
take_until-stops p [] = ([], refl, refl, inl refl)
take_until-stops p (c ∷ value) = elim (Bool-cases (p c)) [
  | inl stop ↦ rw stop (c ∷ value, refl, refl, inr (c, value, refl, stop))
  | inr on ↦
      let (rest, whole, free, ends) = take_until-stops p value in
      rw on (rest, ap (◌∷◌ c) whole, rw on free, ends)
]

-- Without capture, a text that is no URL is cut in front of its first question mark or number
-- sign, and is whole if it has none.
pub sanitize_url_value-cut :
    {U : Type 0} (crate : UrlSetters U) (value : Bytes)
    → crate.parse value ≡ none
    → let url = sanitize_url_value crate value false in
      (rest : Bytes) × (value ≡ url ++ rest)
      × (any is_url_separator url ≡ false)
      × ((rest ≡ [])
          ⊎ ((c : ℕ) × (behind : Bytes) × (rest ≡ c ∷ behind) × (is_url_separator c ≡ true)))
unfolding sanitize_url_value
sanitize_url_value-cut crate value h =
    rw (h, sanitize_url_value) (take_until-stops is_url_separator value)

-- All URLs that a request writes after `begin_request` follow the one decision that the variable
-- gave at its start, whatever the variable holds later.
pub sanitize_all-begin_request :
    {U : Type 0} (crate : UrlSetters U) (env : EnvVar) (slot : RequestCapture)
    (urls : List (EnvVar × Bytes))
    → sanitize_all crate (begin_request env slot) urls
      ≡ sanitize_each crate (capture_from_env env) urls
unfolding begin_request
sanitize_all-begin_request crate env slot urls =
    sanitize_all-decided crate (capture_from_env env) urls
