-- ===== src/Batch/Classify.antt =====
-- `classify_export_error` of otel/src/trace/batch_processor.rs: which export failures are retried.
use otel_php_rust.Prelude.{
  ℕ, ◌^◌, Bool, true, false, not, ◌&&◌, ◌||◌, Option, none, some, List, [], ◌∷◌, ◌++◌, ◌==◌,
  if◌then◌else◌, any, ◌>>=◌, or_else,
}
use otel_php_rust.Prelude.Bytes.{Bytes, codes, bytes_eq, is_ascii_digit, within, trim_start}
use otel_php_rust.Batch.Config.{parse_unsigned}

-- `OTelSdkError` of opentelemetry_sdk; a timeout holds its duration.
pub data OTelSdkError : Type 0 where
  already_shutdown : OTelSdkError
  timeout : ℕ → OTelSdkError
  internal_failure : Bytes → OTelSdkError

pub data ExportErrorKind : Type 0 where
  retryable terminal : ExportErrorKind

-- `strip_prefix(prefix)`.
unfoldable pub strip_prefix : Bytes → Bytes → Option Bytes
strip_prefix [] s = some s
strip_prefix (p ∷ ps) [] = none
strip_prefix (p ∷ ps) (c ∷ cs) = if c == p then strip_prefix ps cs else none

abbrev pub starts_with : Bytes → Bytes → Bool
starts_with prefix s = elim (strip_prefix prefix s) [ none ↦ false | some _ ↦ true ]

-- What follows the first occurrence: `find(pattern)` and the slice behind it.
unfoldable pub find_behind : Bytes → Bytes → Option Bytes
unfolding strip_prefix
find_behind pattern [] = strip_prefix pattern []
find_behind pattern (c ∷ cs) =
    let rest = find_behind pattern cs in
    elim (strip_prefix pattern (c ∷ cs)) [ none ↦ rest | some behind ↦ some behind ]

abbrev pub contains : Bytes → Bytes → Bool
contains s pattern = elim (find_behind pattern s) [ none ↦ false | some _ ↦ true ]

-- The bytes in front of the first byte of the set.
unfoldable pub take_until : (ℕ → Bool) → Bytes → Bytes
take_until p [] = []
take_until p (c ∷ cs) = if p c then [] else c ∷ take_until p cs

-- White space of one, two and three bytes in UTF-8, as `char::is_whitespace` has it.
abbrev pub space1 : ℕ → Bool
space1 c = c == 0x20 || within 0x09 0x0d c

abbrev pub space2 : ℕ → ℕ → Bool
space2 c d = c == 0xc2 && (d == 0x85 || d == 0xa0)

abbrev pub space3 : ℕ → ℕ → ℕ → Bool
space3 c d e =
    c == 0xe1 && d == 0x9a && e == 0x80
    || c == 0xe2 && d == 0x80 && (within 0x80 0x8a e || e == 0xa8 || e == 0xa9 || e == 0xaf)
    || c == 0xe2 && d == 0x81 && e == 0x9f
    || c == 0xe3 && d == 0x80 && e == 0x80

-- `str::trim_start`.
unfoldable pub trim_space : Bytes → Bytes
trim_space [] = []
trim_space (c ∷ []) = if space1 c then [] else c ∷ []
trim_space (c ∷ d ∷ []) =
    let behind = trim_space (d ∷ []) in
    if space1 c then behind else if space2 c d then [] else c ∷ d ∷ []
trim_space (c ∷ d ∷ e ∷ cs) =
    let behind1 = trim_space (d ∷ e ∷ cs) in
    let behind2 = trim_space (e ∷ cs) in
    let behind3 = trim_space cs in
    if space1 c
    then behind1
    else if space2 c d
    then behind2
    else if space3 c d e
    then behind3
    else c ∷ d ∷ e ∷ cs

-- `MARKERS`.
abbrev pub transport_markers : List Bytes
transport_markers =
    codes "transport error"
    ∷ codes "error trying to connect"
    ∷ codes "tcp connect error"
    ∷ codes "connection refused"
    ∷ codes "ConnectionRefused"
    ∷ codes "connection reset"
    ∷ codes "ConnectionReset"
    ∷ codes "connection aborted"
    ∷ codes "ConnectionAborted"
    ∷ codes "broken pipe"
    ∷ codes "BrokenPipe"
    ∷ codes "dns error"
    ∷ codes "failed to lookup address"
    ∷ codes "timed out"
    ∷ codes "TimedOut"
    ∷ codes "Timeout expired"
    ∷ codes "deadline"
    ∷ codes "connection closed"
    ∷ codes "channel closed"
    ∷ codes "operation was canceled"
    ∷ []

unfoldable pub is_transport_failure : Bytes → Bool
unfolding find_behind
is_transport_failure message = any (contains message) transport_markers

-- `RETRYABLE`.
abbrev pub retryable_codes : List Bytes
retryable_codes =
    codes "The operation was cancelled"
    ∷ codes "Cancelled"
    ∷ codes "Deadline expired before operation could complete"
    ∷ codes "DeadlineExceeded"
    ∷ codes "The operation was aborted"
    ∷ codes "Aborted"
    ∷ codes "Operation was attempted past the valid range"
    ∷ codes "OutOfRange"
    ∷ codes "The service is currently unavailable"
    ∷ codes "Unavailable"
    ∷ codes "Unrecoverable data loss or corruption"
    ∷ codes "DataLoss"
    ∷ codes "Some resource has been exhausted"
    ∷ codes "ResourceExhausted"
    ∷ []

-- `UNKNOWN`.
abbrev pub unknown_codes : List Bytes
unknown_codes = codes "Unknown error" ∷ codes "Unknown" ∷ []

-- `RETRYABLE.contains(&code)`.
unfoldable pub is_retryable_code : Bytes → Bool
is_retryable_code code = any (bytes_eq code) retryable_codes

-- `UNKNOWN.contains(&code)`.
unfoldable pub is_unknown_code : Bytes → Bool
is_unknown_code code = any (bytes_eq code) unknown_codes

-- The decision on the code that a gRPC status names.
unfoldable pub classify_code : Bytes → Bytes → ExportErrorKind
unfolding is_retryable_code is_unknown_code
classify_code message code =
    if is_retryable_code code
    then retryable
    else if is_unknown_code code
    then (if is_transport_failure message then retryable else terminal)
    else terminal

unfoldable pub classify_grpc_status : Bytes → Option ExportErrorKind
unfolding classify_code strip_prefix take_until trim_start
classify_grpc_status message = do
  behind ← or_else (strip_prefix (codes "code: ") message) (strip_prefix (codes "status: ") message)
  let code = take_until (λ c. c == b'\'' || c == b',') (trim_start (λ c. c == b'\'') behind)
  some (classify_code message code)

-- The closure `digits`: the leading number as a `u16`.
unfoldable pub digits : Bytes → Option ℕ
unfolding trim_space take_until
digits rest = parse_unsigned (2 ^ 16) (take_until (λ c. not (is_ascii_digit c)) (trim_space rest))

unfoldable pub http_status_code : Bytes → Option ℕ
unfolding digits find_behind
http_status_code message = elim (find_behind (codes "kind: Status(") message) [
  | some behind ↦ digits behind
  | none ↦ do behind ← find_behind (codes "Status Code: ") message; digits behind
]

abbrev pub classify_status : ℕ → ExportErrorKind
classify_status status =
    if status == 429 || status == 502 || status == 503 || status == 504 then retryable else terminal

unfoldable pub classify_export_message : Bytes → ExportErrorKind
unfolding strip_prefix
classify_export_message message = elim (classify_grpc_status message) [
  | some kind ↦ kind
  | none ↦ elim (http_status_code message) [
    | some status ↦ classify_status status
    | none ↦
        if starts_with (codes "reqwest::Error { kind: Request") message
          || is_transport_failure message
        then retryable
        else terminal
  ]
]

unfoldable pub classify_export_error : OTelSdkError → ExportErrorKind
classify_export_error (timeout _) = retryable
classify_export_error already_shutdown = terminal
classify_export_error (internal_failure message) = classify_export_message message

-- The status line that tonic writes, `code: '<code>'` and whatever follows.
abbrev pub grpc_message : Bytes → Bytes → Bytes
grpc_message code rest = codes "code: '" ++ (code ++ (b'\'' ∷ rest))
