-- ===== src/Request/Globs.antt =====
-- A URI that a pattern's parts make up, with any texts for the stars, is excluded.
use otel_php_rust.Prelude.{
  ◌≤◌, Bool, true, some, List, [], ◌∷◌, ◌++◌, ◌≡◌, refl, sym, ap, ◌∙◌, arith, ◌==◌, is_empty, any,
  length, inl, inr, Bool-cases, Option-cases, append_assoc, eq_of_some,
}
use otel_php_rust.Prelude.Bytes.{Bytes, bytes_eq_refl, split}
use otel_php_rust.Batch.Config.{EnvVar, present}
use otel_php_rust.Batch.Classify.{strip_prefix, find_behind}
use otel_php_rust.Request.Urls.{
  ends_with, match_rest, match_parts, matches_pattern, excluded_patterns, is_excluded_url,
  is_disabled,
}

-- The text is made up of any text, the next part, any text, and so on, up to the last part.
abbrev pub GlobRest : List Bytes → Bytes → Type 0
GlobRest [] s = Unit
GlobRest (part ∷ []) s = (x : Bytes) × (s ≡ x ++ part)
GlobRest (part ∷ next ∷ parts) s =
    (x : Bytes) × (y : Bytes) × (s ≡ x ++ (part ++ y)) × GlobRest (next ∷ parts) y

-- The first part stands at the start.
abbrev pub Glob : List Bytes → Bytes → Type 0
Glob [] s = Unit
Glob (part ∷ parts) s = (y : Bytes) × (s ≡ part ++ y) × GlobRest parts y

strip_prefix-append : (p s : Bytes) → strip_prefix p (p ++ s) ≡ some s
unfolding strip_prefix
strip_prefix-append [] s = refl
strip_prefix-append (c ∷ p) s = ground (arith, strip_prefix-append p s)

-- What is behind a shorter prefix ends with what is behind a longer one.
strip_prefix_suffix :
    (p a p' y : Bytes) {b : Bytes}
    → length p ≤ length p'
    → strip_prefix p (a ++ (p' ++ y)) ≡ some b
    → (z : Bytes) × (b ≡ z ++ y)
unfolding strip_prefix
strip_prefix_suffix [] a p' y h e = (a ++ p', sym (eq_of_some e) ∙ sym (append_assoc a p' y))
strip_prefix_suffix (q ∷ p) [] [] y h e = absurd (omega arith)
strip_prefix_suffix (q ∷ p) [] (c ∷ p') y h e = elim (Bool-cases (c == q)) [
  | inl this ↦ strip_prefix_suffix p [] p' y (omega arith) (rw this at e)
  | inr that ↦ absurd (cc (rw that at e))
]
strip_prefix_suffix (q ∷ p) (c ∷ a) p' y h e = elim (Bool-cases (c == q)) [
  | inl this ↦ strip_prefix_suffix p a p' y (omega arith) (rw this at e)
  | inr that ↦ absurd (cc (rw that at e))
]

strip_prefix-some : (p s : Bytes) {b : Bytes} → strip_prefix p s ≡ some b → s ≡ p ++ b
unfolding strip_prefix
strip_prefix-some [] s e = eq_of_some e
strip_prefix-some (q ∷ p) [] e = absurd (cc e)
strip_prefix-some (q ∷ p) (c ∷ s) e = elim (Bool-cases (c == q)) [
  | inl this ↦
      let tail = strip_prefix-some p s (rw this at e) in
      let same : c ≡ q = ground arith in rw (same, tail) refl
  | inr that ↦ absurd (cc (rw that at e))
]

find_behind-strip_prefix :
    (p s : Bytes) {b : Bytes} → strip_prefix p s ≡ some b → find_behind p s ≡ some b
unfolding find_behind
find_behind-strip_prefix p [] e = e
find_behind-strip_prefix p (c ∷ s) e = rw (find_behind, e) refl

-- What the search leaves is the end of the text.
find_behind-suffix :
    (p s : Bytes) {b : Bytes} → find_behind p s ≡ some b → (w : Bytes) × (s ≡ w ++ b)
unfolding find_behind
find_behind-suffix p [] e = (p, strip_prefix-some p [] e)
find_behind-suffix p (c ∷ s) e = elim (Option-cases (strip_prefix p (c ∷ s))) [
  | inr (b, this) ↦ (p, strip_prefix-some p (c ∷ s) (this ∙ (rw (find_behind, this) at e)))
  | inl this ↦
      let (w, tail) = find_behind-suffix p s (rw (find_behind, this) at e) in
      (c ∷ w, ap (λ z. c ∷ z) tail)
]

-- It goes no further than behind an occurrence.
find_behind-occurs :
    (p a y : Bytes)
    → (b : Bytes) × (z : Bytes) × (find_behind p (a ++ (p ++ y)) ≡ some b) × (b ≡ z ++ y)
unfolding find_behind
find_behind-occurs p [] y =
    (y, [], find_behind-strip_prefix p (p ++ y) (strip_prefix-append p y), refl)
find_behind-occurs p (c ∷ a) y = elim (Option-cases (strip_prefix p (c ∷ (a ++ (p ++ y))))) [
  | inr (b, this) ↦
      let (z, e) = strip_prefix_suffix p (c ∷ a) p y (omega arith) this in
      (b, z, rw (find_behind, this) refl, e)
  | inl this ↦
      let (b, z, found, e) = find_behind-occurs p a y in (b, z, rw (find_behind, this) found, e)
]

ends_with-append : (x p : Bytes) → ends_with p (x ++ p) ≡ true
unfolding ends_with
ends_with-append [] [] = refl
ends_with-append [] (c ∷ p) = rw (ends_with, bytes_eq_refl (c ∷ p)) refl
ends_with-append (c ∷ x) p = ground (arith, ends_with-append x p)

is_empty-nil : (p : Bytes) → is_empty p ≡ true → p ≡ []
is_empty-nil [] h = refl
is_empty-nil (c ∷ p) h = absurd (cc h)

-- The search of the rest finds what is there, from wherever it starts in front of it.
match_rest-GlobRest :
    (uri rest : Bytes) (parts : List Bytes) (w z y : Bytes)
    → uri ≡ w ++ rest
    → rest ≡ z ++ y
    → GlobRest parts y
    → match_rest uri parts rest ≡ true
unfolding match_rest
match_rest-GlobRest uri rest [] w z y u r h = refl
match_rest-GlobRest uri rest (part ∷ []) w z y u r (x, e) =
    let whole : uri ≡ ((w ++ z) ++ x) ++ part =
      rw (u, r, e, append_assoc (w ++ z) x part, append_assoc w z (x ++ part)) refl in
    let found : ends_with part uri ≡ true = rw whole (ends_with-append ((w ++ z) ++ x) part) in
    ground (arith, found)
match_rest-GlobRest uri rest (part ∷ next ∷ parts) w z y u r (x, y', e, h) =
    let here : rest ≡ (z ++ x) ++ (part ++ y') = rw (r, e, append_assoc z x (part ++ y')) refl in
    elim (Bool-cases (is_empty part)) [
      | inl nothing ↦
          let behind : rest ≡ (z ++ x) ++ y' = rw (is_empty-nil part nothing) at here in
          rw nothing (match_rest-GlobRest uri rest (next ∷ parts) w (z ++ x) y' u behind h)
      | inr something ↦
          let (b, z', occurs, end) = find_behind-occurs part (z ++ x) y' in
          let found : find_behind part rest ≡ some b = rw here occurs in
          let (w', shorter) = find_behind-suffix part rest found in
          let uri_b : uri ≡ (w ++ w') ++ b =
            u ∙ ap (λ s. w ++ s) shorter ∙ sym (append_assoc w w' b) in
          rw (something, found)
            (match_rest-GlobRest uri b (next ∷ parts) (w ++ w') z' y' uri_b end h)
    ]

match_parts-Glob :
    (uri : Bytes) (parts : List Bytes) → Glob parts uri → match_parts uri parts ≡ true
unfolding match_parts
match_parts-Glob uri [] h = refl
match_parts-Glob uri (part ∷ parts) (y, e, h) =
    let found : strip_prefix part uri ≡ some y = rw e (strip_prefix-append part y) in
    elim (Bool-cases (is_empty part)) [
      | inl nothing ↦ rw nothing (match_rest-GlobRest uri uri parts [] part y refl e h)
      | inr something ↦ rw (something, found) (match_rest-GlobRest uri y parts part [] y e refl h)
    ]

any-append :
    {A : Type 0} (p : A → Bool) (front : List A) (a : A) (back : List A)
    → p a ≡ true
    → any p (front ++ a ∷ back) ≡ true
any-append p [] a back h = ground (arith, h)
any-append p (b ∷ front) a back h = ground (arith, any-append p front a back h)

-- A request is disabled if one of the excluded patterns has a star and its URI is made up of the
-- pattern's parts in their order, with any texts in the places of the stars.
pub is_disabled-Glob :
    (uri list : Bytes) (otel_sdk_disabled : EnvVar) (front : List Bytes) (pattern : Bytes)
    (back : List Bytes)
    → excluded_patterns (split b',' list) ≡ front ++ pattern ∷ back
    → any (λ c. c == b'*') pattern ≡ true
    → Glob (split b'*' pattern) uri
    → is_disabled (some uri) (present list) otel_sdk_disabled ≡ true
unfolding is_disabled is_excluded_url matches_pattern
is_disabled-Glob uri list otel_sdk_disabled front pattern back listed star h =
    let matched : matches_pattern uri pattern ≡ true =
      rw star (match_parts-Glob uri (split b'*' pattern) h) in
    rw (listed, any-append (matches_pattern uri) front pattern back matched) refl
