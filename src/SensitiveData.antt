-- ===== src/SensitiveData.antt =====
-- otel/src/config/sensitive_data.rs: whether a request may capture sensitive data, and the URLs that
-- it writes if not. The crate `url` is a parameter. The warnings are left out.
pub mod Capture
mod Examples
use otel_php_rust.Prelude.{
  ℕ, ◌+◌, Bool, true, false, ◌&&◌, ◌||◌, Option, none, some, List, [], ◌∷◌, ◌==◌, if◌then◌else◌,
}
use otel_php_rust.Prelude.Bytes.{Bytes, codes, within}
use otel_php_rust.Batch.Config.{EnvVar, present, not_present, not_unicode}
use otel_php_rust.Batch.Classify.{take_until}

abbrev pub to_ascii_lowercase : ℕ → ℕ
to_ascii_lowercase c = if within b'A' b'Z' c then c + 32 else c

unfoldable pub eq_ignore_ascii_case : Bytes → Bytes → Bool
eq_ignore_ascii_case [] [] = true
eq_ignore_ascii_case (x ∷ xs) (y ∷ ys) =
    to_ascii_lowercase x == to_ascii_lowercase y && eq_ignore_ascii_case xs ys
eq_ignore_ascii_case [] (y ∷ ys) = false
eq_ignore_ascii_case (x ∷ xs) [] = false

-- `from_env`, with what the variable holds.
unfoldable pub capture_from_env : EnvVar → Bool
capture_from_env (present value) = eq_ignore_ascii_case value (codes "true")
capture_from_env not_present = false
capture_from_env not_unicode = false

-- `REQUEST_CAPTURE`.
abbrev pub RequestCapture : Type 0
RequestCapture = Option Bool

unfoldable pub begin_request : EnvVar → RequestCapture → RequestCapture
begin_request env slot = some (capture_from_env env)

unfoldable pub end_request : RequestCapture → RequestCapture
end_request slot = none

unfoldable pub capture : EnvVar → RequestCapture → Bool × RequestCapture
capture env (some value) = (value, some value)
capture env none = (capture_from_env env, some (capture_from_env env))

abbrev pub is_url_separator : ℕ → Bool
is_url_separator c = c == b'?' || c == b'#'

-- What the program uses of the crate url. A setter that fails leaves the URL as it is.
pub record UrlSetters (U : Type 0) : Type 0 where
  pub parse : Bytes → Option U
  pub set_username : Bytes → U → U
  pub set_password : Option Bytes → U → U
  pub set_query : Option Bytes → U → U
  pub set_fragment : Option Bytes → U → U
  pub to_string : U → Bytes

module _ {U : Type 0} (crate : UrlSetters U) where
  -- A URL without its user, password, query and fragment.
  abbrev pub stripped : U → Bytes
  stripped url = crate.to_string (
      crate.set_fragment none
        (crate.set_query none (crate.set_password none (crate.set_username [] url))))

  unfoldable pub sanitize_url_value : Bytes → Bool → Bytes
  sanitize_url_value value true = value
  sanitize_url_value value false = elim (crate.parse value) [
    | some url ↦ stripped url
    | none ↦ take_until is_url_separator value
  ]

  unfoldable pub sanitize_url : EnvVar → RequestCapture → Bytes → Bytes × RequestCapture
  unfolding capture sanitize_url_value
  sanitize_url env slot value =
      let (allowed, slot') = capture env slot in (sanitize_url_value value allowed, slot')
