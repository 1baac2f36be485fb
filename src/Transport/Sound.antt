-- ===== src/Transport/Sound.antt =====
-- What the settings promise where they are found: the endpoint, the TLS material and its PEM texts.
use otel_php_rust.Prelude.{
  Bool, true, false, Option, none, some, ◌≡◌, refl, inl, inr, Bool-cases, Option-cases,
}
use otel_php_rust.Prelude.Bytes.{Bytes, codes, bytes_eq}
use otel_php_rust.Prelude.Results.{ok, Ensures, >>=-Ensures, Ensures-any, Ensures-eq}
use otel_php_rust.Transport.{EnvOf, trace_or_generic}
use otel_php_rust.Transport.Headers.{HeaderCrate}
use otel_php_rust.Transport.Settings.{
  Protocol, PemKind, certificate, private_key, ClientIdentity, TlsMaterial, UrlCrate, PemFiles,
  Endpoint, TransportSettings, is_some, default_endpoint, endpoint_text, resolve_compression,
  is_pem, read_file, read_pem, identity_of, tls_material, is_acceptable, parse_endpoint,
  resolve_endpoint, resolve_tls, settings_from_env,
}

-- Whether one of the two forms of a variable is set.
abbrev pub is_set : EnvOf → Bytes → Bool
is_set env suffix = is_some (trace_or_generic env suffix)

module _ (files : PemFiles) (env : EnvOf) where
  abbrev pub IsPem : PemKind → Option Bytes → Type 0
  IsPem kind none = Unit
  IsPem kind (some bytes) = is_pem files kind bytes ≡ true

  abbrev pub IdentityIsPem : Option ClientIdentity → Type 0
  IdentityIsPem none = Unit
  IdentityIsPem (some identity) =
      (files.has_certificates identity.certificate_pem ≡ true)
      × (files.has_private_key identity.key_pem ≡ true)

  -- The material is that of the variables, and what was read is PEM.
  abbrev pub IsComplete : TlsMaterial → Type 0
  IsComplete material =
      (is_some material.ca_pem ≡ is_set env (codes "CERTIFICATE"))
      × (is_some material.client_identity ≡ is_set env (codes "CLIENT_CERTIFICATE"))
      × (is_some material.client_identity ≡ is_set env (codes "CLIENT_KEY"))
      × IsPem certificate material.ca_pem
      × IdentityIsPem material.client_identity

  abbrev IsRead : Bytes → PemKind → Option Bytes → Type 0
  IsRead suffix kind o = (is_some o ≡ is_set env suffix) × IsPem kind o

  read_pem-IsRead :
      (suffix : Bytes) (kind : PemKind)
      → Ensures (IsRead suffix kind) (read_pem files env suffix kind)
  unfolding read_pem read_file
  read_pem-IsRead suffix kind = elim (Option-cases (trace_or_generic env suffix)) [
    | inl e ↦ rw (Ensures, read_pem, e) (rw (is_set, e) refl, tt)
    | inr ((name, path), e) ↦
        rw (Ensures, read_pem, e)
          (elim (Option-cases (files.read path)) [
            | inl f ↦ rw (read_file, f) tt
            | inr (bytes, f) ↦
                rw (read_file, f)
                  (elim (Bool-cases (is_pem files kind bytes)) [
                    | inl g ↦ rw g (rw (is_set, e) refl, g)
                    | inr g ↦ rw g tt
                  ])
          ])
  ]

  abbrev IsIdentity : Option ClientIdentity → Type 0
  IsIdentity identity =
      (is_some identity ≡ is_set env (codes "CLIENT_CERTIFICATE"))
      × (is_some identity ≡ is_set env (codes "CLIENT_KEY"))
      × IdentityIsPem identity

  identity_of-IsRead :
      (cert key : Option Bytes)
      → IsRead (codes "CLIENT_CERTIFICATE") certificate cert
      → IsRead (codes "CLIENT_KEY") private_key key
      → Ensures IsIdentity (identity_of files cert key)
  unfolding identity_of
  identity_of-IsRead (some cert) (some key) (h, p) (k, q) = (h, k, (p, q))
  identity_of-IsRead none none (h, p) (k, q) = (h, k, tt)
  identity_of-IsRead (some cert) none h k = tt
  identity_of-IsRead none (some key) h k = tt

  tls_material-IsComplete : Ensures IsComplete (tls_material files env)
  unfolding tls_material
  tls_material-IsComplete =
      >>=-Ensures (IsRead (codes "CERTIFICATE") certificate) IsComplete _ _
        (read_pem-IsRead (codes "CERTIFICATE") certificate)
        (λ ca h.
          >>=-Ensures (IsRead (codes "CLIENT_CERTIFICATE") certificate) IsComplete _ _
            (read_pem-IsRead (codes "CLIENT_CERTIFICATE") certificate)
            (λ cert i.
              >>=-Ensures (IsRead (codes "CLIENT_KEY") private_key) IsComplete _ _
                (read_pem-IsRead (codes "CLIENT_KEY") private_key)
                (λ key j.
                  >>=-Ensures IsIdentity IsComplete _ _ (identity_of-IsRead cert key i j)
                    (λ identity k. (h.0, k.0, k.1, h.1, k.2)))))

  module _ {U : Type 0} (urls : UrlCrate U) where
    -- The endpoint parses; one that is configured has http or https, a host and no credentials.
    abbrev IsEndpoint : Endpoint U → Type 0
    IsEndpoint endpoint =
        (urls.parse endpoint.raw ≡ some endpoint.url)
        × (is_set env (codes "ENDPOINT") ≡ true → is_acceptable files urls endpoint.url ≡ true)

    parse_endpoint-IsEndpoint :
        (name raw : Bytes) → Ensures IsEndpoint (parse_endpoint files urls name raw)
    unfolding parse_endpoint
    parse_endpoint-IsEndpoint name raw = elim (Option-cases (urls.parse raw)) [
      | inl e ↦ rw (Ensures, parse_endpoint, e) tt
      | inr (url, e) ↦
          rw (Ensures, parse_endpoint, e)
            (elim (Bool-cases (is_acceptable files urls url)) [
              | inl f ↦ rw f (e, λ _. f)
              | inr f ↦ rw f tt
            ])
    ]

    resolve_endpoint-IsEndpoint :
        (protocol : Protocol) → Ensures IsEndpoint (resolve_endpoint files urls env protocol)
    unfolding resolve_endpoint
    resolve_endpoint-IsEndpoint protocol =
        elim (Option-cases (trace_or_generic env (codes "ENDPOINT"))) [
          | inl e ↦
              rw (resolve_endpoint, e)
                (elim (Option-cases (urls.parse (default_endpoint protocol))) [
                  | inl f ↦ rw (Ensures, f) tt
                  | inr (url, f) ↦ rw (Ensures, f) (f, λ s. absurd (cc (rw (is_set, e) at s)))
                ])
          | inr ((name, configured), e) ↦
              rw (resolve_endpoint, e)
                (>>=-Ensures (λ _. Unit {0}) IsEndpoint _ _
                  (Ensures-any (endpoint_text env protocol name configured))
                  (λ raw _. parse_endpoint-IsEndpoint name raw))
        ]

    -- An endpoint has TLS material exactly if its scheme is https.
    abbrev TlsIsComplete : Endpoint U → Option TlsMaterial → Type 0
    TlsIsComplete endpoint none = bytes_eq (urls.scheme endpoint.url) (codes "https") ≡ false
    TlsIsComplete endpoint (some material) =
        (bytes_eq (urls.scheme endpoint.url) (codes "https") ≡ true) × IsComplete material

    resolve_tls-TlsIsComplete :
        (endpoint : Endpoint U)
        → Ensures (TlsIsComplete endpoint) (resolve_tls files urls env endpoint)
    unfolding resolve_tls
    resolve_tls-TlsIsComplete endpoint =
        elim (Bool-cases (bytes_eq (urls.scheme endpoint.url) (codes "https"))) [
          | inr e ↦ rw (resolve_tls, e) e
          | inl e ↦
              rw (resolve_tls, e)
                (>>=-Ensures IsComplete (TlsIsComplete endpoint) _ _ tls_material-IsComplete
                  (λ material h. (e, h)))
        ]

    abbrev pub IsSound : TransportSettings → Type 0
    IsSound settings =
        (url : U) × (urls.parse settings.endpoint ≡ some url)
        × (is_set env (codes "ENDPOINT") ≡ true → is_acceptable files urls url ≡ true)
        × TlsIsComplete (record { raw = settings.endpoint; url = url }) settings.tls

    -- Settings are found only if: the endpoint parses, and has http or https as its scheme, a host
    -- and no credentials if it is configured; there is TLS material exactly if the scheme is
    -- https; and that material holds a CA exactly if one is configured, a client's identity
    -- exactly if its certificate is configured and exactly if its key is, and what was read is PEM
    -- of its kind. One of certificate and key without the other is an error then.
    pub settings_from_env-IsSound :
        (http : HeaderCrate) (protocol : Protocol) (settings : TransportSettings)
        → settings_from_env files urls http env protocol ≡ ok settings
        → IsSound settings
    unfolding settings_from_env
    settings_from_env-IsSound http protocol settings =
        Ensures-eq IsSound (settings_from_env files urls http env protocol) (
          >>=-Ensures IsEndpoint IsSound _ _ (resolve_endpoint-IsEndpoint protocol) (λ endpoint h.
            >>=-Ensures (TlsIsComplete endpoint) IsSound _ _ (resolve_tls-TlsIsComplete endpoint)
              (λ tls i.
                >>=-Ensures (λ _. Unit {0}) IsSound _ _ (Ensures-any (resolve_compression env))
                  (λ compression _. (endpoint.url, h.0, h.1, i)))))
