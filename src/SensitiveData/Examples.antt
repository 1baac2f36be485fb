-- ===== src/SensitiveData/Examples.antt =====
-- Tests of the capture of sensitive data, and its theorems at examples.
use otel_php_rust.Prelude.{◌==◌, if◌then◌else◌, ◌≡◌, refl, true, Option, none, some, List, [], ◌∷◌}
use otel_php_rust.Prelude.Bytes.{Bytes, codes}
use otel_php_rust.Batch.Config.{EnvVar, present, not_present, not_unicode}
use otel_php_rust.Batch.Classify.{take_until}
use otel_php_rust.SensitiveData.{eq_ignore_ascii_case, capture_from_env, begin_request, UrlSetters}
use otel_php_rust.SensitiveData.Capture.{sanitize_all, sanitize_each, sanitize_all-begin_request}

-- A crate whose URLs are texts that do not begin with a slash; what is set is ignored but the query.
abbrev parse_text : Bytes → Option Bytes
parse_text [] = none
parse_text (c ∷ value) = if c == b'/' then none else some (c ∷ value)

abbrev text_urls : UrlSetters Bytes
text_urls = record {
  parse = parse_text;
  set_username = λ name url. url;
  set_password = λ password url. url;
  set_query = λ query url. take_until (λ c. c == b'?') url;
  set_fragment = λ fragment url. url;
  to_string = λ url. url;
}

abbrev secret_path : Bytes
secret_path = codes "/path?token=secret#part"

abbrev two_urls : List (EnvVar × Bytes)
two_urls = (present (codes "true"), secret_path) ∷ (not_present, codes "http://a/other?b=c") ∷ []

capture_from_env-mixed_case : capture_from_env (present (codes "TrUe")) ≡ true
unfolding capture_from_env eq_ignore_ascii_case
capture_from_env-mixed_case = refl

sanitize_all-begin_request_example :
    sanitize_all text_urls (begin_request not_unicode (some true)) two_urls
    ≡ sanitize_each text_urls (capture_from_env not_unicode) two_urls
sanitize_all-begin_request_example =
    sanitize_all-begin_request text_urls not_unicode (some true) two_urls
