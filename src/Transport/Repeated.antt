-- ===== src/Transport/Repeated.antt =====
-- Repeated headers: the last well-formed entry of a key counts, and no key comes twice.
use otel_php_rust.Prelude.{
  false, Option, none, some, List, [], ◌∷◌, ◌≡◌, refl, sym, ◌∙◌, if◌then◌else◌, is_empty, inl, inr,
  Bool-cases, Option-cases, or_else,
}
use otel_php_rust.Prelude.Bytes.{Bytes, codes, bytes_eq, bytes_eq_iff, bytes_eq_refl, split}
use otel_php_rust.Prelude.Maps.{find}
use otel_php_rust.Prelude.Results.{Result, ok, err}
use otel_php_rust.Attributes.Config.{trim}
use otel_php_rust.Transport.{EnvOf, trace_or_generic}
use otel_php_rust.Transport.Headers.{
  HeaderCrate, HeaderError, parse_header_entry, set_header, add_entries, resolve_headers,
}

-- No key twice.
abbrev pub DistinctKeys : List (Bytes × Bytes) → Type 0
DistinctKeys [] = Unit
DistinctKeys ((key, _) ∷ headers) = (find bytes_eq key headers ≡ none) × DistinctKeys headers

-- The value of the last pair with the key.
unfoldable pub last_value : Bytes → List (Bytes × Bytes) → Option Bytes
last_value key [] = none
last_value key ((k, v) ∷ rest) =
    let later = last_value key rest in or_else later (if bytes_eq k key then some v else none)

or_else-none {ℓ} : {A : Type ℓ} (o : Option A) → or_else o none ≡ o
or_else-none none = refl
or_else-none (some a) = refl

bytes_eq_other : (j k : Bytes) → bytes_eq k j ≡ false → bytes_eq j k ≡ false
bytes_eq_other j k h = elim (Bool-cases (bytes_eq j k)) [
  | inr e ↦ e
  | inl e ↦
      let same : j ≡ k = (bytes_eq_iff j k).0 e in absurd (cc ((bytes_eq_iff k j).1 (sym same), h))
]

module _ (http : HeaderCrate) where
  -- The entries that can be read.
  unfoldable pub readable : List Bytes → List (Bytes × Bytes)
  readable [] = []
  readable (piece ∷ pieces) =
      let others = readable pieces in
      if is_empty (trim piece)
      then others
      else elim (parse_header_entry http (trim piece)) [ err _ ↦ others | ok pair ↦ pair ∷ others ]

  find-set_header :
      (key k v : Bytes) (headers : List (Bytes × Bytes))
      → find bytes_eq key (set_header http k v headers)
        ≡ (if bytes_eq k key then some v else find bytes_eq key headers)
  unfolding set_header find
  find-set_header key k v [] = refl
  find-set_header key k v ((j, w) ∷ headers) = elim (Bool-cases (bytes_eq j k)) [
    | inl this ↦
        let same : j ≡ k = (bytes_eq_iff j k).0 this in
        rw (same, bytes_eq_refl k)
          (elim (Bool-cases (bytes_eq k key)) [ inl e ↦ rw e refl | inr e ↦ rw e refl ])
    | inr that ↦ elim (Bool-cases (bytes_eq j key)) [
      | inl e ↦
          let same : j ≡ key = (bytes_eq_iff j key).0 e in
          let other : bytes_eq k key ≡ false = bytes_eq_other k key (rw same at that) in
          rw (set_header, that, e, other) refl
      | inr e ↦ rw (set_header, that, e) (find-set_header key k v headers)
    ]
  ]

  set_header-DistinctKeys :
      (k v : Bytes) (headers : List (Bytes × Bytes))
      → DistinctKeys headers
      → DistinctKeys (set_header http k v headers)
  unfolding set_header find
  set_header-DistinctKeys k v [] h = (refl, tt)
  set_header-DistinctKeys k v ((j, w) ∷ headers) h = elim (Bool-cases (bytes_eq j k)) [
    | inl this ↦ rw (set_header, this) h
    | inr that ↦
        rw (set_header, that)
          (
            find-set_header j k v headers ∙ (rw (bytes_eq_other k j that) h.0),
            set_header-DistinctKeys k v headers h.1,
          )
  ]

  -- One entry, read or not, in front of others that are read as `ih` says.
  find-parsed :
      (key : Bytes) (headers : List (Bytes × Bytes)) (pieces : List Bytes)
      → ((hs : List (Bytes × Bytes))
          → find bytes_eq key (add_entries http hs pieces)
            ≡ or_else (last_value key (readable pieces)) (find bytes_eq key hs))
      → (parsed : Result HeaderError (Bytes × Bytes))
      → find bytes_eq key (elim parsed [
        | err _ ↦ add_entries http headers pieces
        | ok (k, v) ↦ add_entries http (set_header http k v headers) pieces
      ])
        ≡ or_else
            (last_value key
              (elim parsed [ err _ ↦ readable pieces | ok pair ↦ pair ∷ readable pieces ]))
            (find bytes_eq key headers)
  unfolding last_value
  find-parsed key headers pieces ih (err e) = ih headers
  find-parsed key headers pieces ih (ok (k, v)) =
      rw (ih (set_header http k v headers), find-set_header key k v headers)
        (elim (Option-cases (last_value key (readable pieces))) [
          | inr (_, l) ↦ rw l refl
          | inl l ↦
              rw l (elim (Bool-cases (bytes_eq k key)) [ inl e ↦ rw e refl | inr e ↦ rw e refl ])
        ])

  find-add_entries :
      (key : Bytes) (headers : List (Bytes × Bytes)) (pieces : List Bytes)
      → find bytes_eq key (add_entries http headers pieces)
        ≡ or_else (last_value key (readable pieces)) (find bytes_eq key headers)
  unfolding add_entries readable last_value
  find-add_entries key headers [] = refl
  find-add_entries key headers (piece ∷ pieces) = elim (Bool-cases (is_empty (trim piece))) [
    | inl e ↦ rw (add_entries, readable, e) (find-add_entries key headers pieces)
    | inr e ↦
        rw (add_entries, readable, e)
          (find-parsed key headers pieces (λ hs. find-add_entries key hs pieces)
            (parse_header_entry http (trim piece)))
  ]

  parsed-DistinctKeys :
      (headers : List (Bytes × Bytes)) (pieces : List Bytes)
      → ((hs : List (Bytes × Bytes)) → DistinctKeys hs → DistinctKeys (add_entries http hs pieces))
      → (parsed : Result HeaderError (Bytes × Bytes)) → DistinctKeys headers
      → DistinctKeys (elim parsed [
        | err _ ↦ add_entries http headers pieces
        | ok (k, v) ↦ add_entries http (set_header http k v headers) pieces
      ])
  parsed-DistinctKeys headers pieces ih (err e) h = ih headers h
  parsed-DistinctKeys headers pieces ih (ok (k, v)) h =
      ih (set_header http k v headers) (set_header-DistinctKeys k v headers h)

  add_entries-DistinctKeys :
      (headers : List (Bytes × Bytes)) (pieces : List Bytes)
      → DistinctKeys headers
      → DistinctKeys (add_entries http headers pieces)
  unfolding add_entries
  add_entries-DistinctKeys headers [] h = h
  add_entries-DistinctKeys headers (piece ∷ pieces) h = elim (Bool-cases (is_empty (trim piece))) [
    | inl e ↦ rw (add_entries, e) (add_entries-DistinctKeys headers pieces h)
    | inr e ↦
        rw (add_entries, e)
          (parsed-DistinctKeys headers pieces (λ hs. add_entries-DistinctKeys hs pieces)
            (parse_header_entry http (trim piece)) h)
  ]

  -- Where the variable is set, no header comes twice, and each key has the value of its last well-
  -- formed entry.
  pub resolve_headers-last_value :
      (env : EnvOf) (name raw : Bytes)
      → trace_or_generic env (codes "HEADERS") ≡ some (name, raw)
      → DistinctKeys (resolve_headers http env)
        × ((key : Bytes)
            → find bytes_eq key (resolve_headers http env)
              ≡ last_value key (readable (split b',' raw)))
  unfolding resolve_headers find last_value
  resolve_headers-last_value env name raw h =
      rw (resolve_headers, h)
        (
          add_entries-DistinctKeys [] (split b',' raw) tt,
          λ key.
              find-add_entries key [] (split b',' raw)
              ∙ or_else-none (last_value key (readable (split b',' raw))),
        )
