-- ===== src/Transport.antt =====
-- otel/src/trace/otlp_transport.rs: the settings of the OTLP exporter that the extension reads from
-- the environment. The crates url and http, the file system and the PEM readers are parameters.
pub mod Headers
pub mod Settings
pub mod Sound
pub mod Repeated
pub mod Masking
pub mod Client
mod Examples
use otel_php_rust.Prelude.{Bool, Option, none, some, or_else, ◌++◌, if◌then◌else◌, is_empty}
use otel_php_rust.Prelude.Bytes.{Bytes, codes}
use otel_php_rust.Batch.Config.{EnvVar, present, not_present, not_unicode}
use otel_php_rust.Attributes.Config.{trim}

-- The environment, by the bytes of a name.
abbrev pub EnvOf : Type 0
EnvOf = Bytes → EnvVar

-- What a variable holds behind `trim`, if it is not empty.
abbrev pub trimmed : EnvVar → Option Bytes
trimmed (present value) = if is_empty (trim value) then none else some (trim value)
trimmed not_present = none
trimmed not_unicode = none

abbrev pub named : Bytes → Option Bytes → Option (Bytes × Bytes)
named name none = none
named name (some value) = some (name, value)

unfoldable pub trace_or_generic : EnvOf → Bytes → Option (Bytes × Bytes)
trace_or_generic env suffix =
    let specific = codes "OTEL_EXPORTER_OTLP_TRACES_" ++ suffix in
    let generic = codes "OTEL_EXPORTER_OTLP_" ++ suffix in
    or_else (named specific (trimmed (env specific))) (named generic (trimmed (env generic)))
