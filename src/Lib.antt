-- ===== src/Lib.antt =====
-- A model of the core of the OpenTelemetry extension for PHP (otel/src), with the theorems that
-- make it correct. The extension is a Rust library that PHP loads. When a request begins, the
-- extension takes variables from $_SERVER and a .env file into the environment, resolves the limits
-- on attributes, and chooses the tracer provider that the environment describes: its exporter, its
-- transport and its batch processor. Spans that end are handed to the batch processor, whose worker
-- thread exports them; contexts are attached to and detached from the stacks of the context
-- storage; the values that PHP gives become attributes within the limits; trace state and baggage
-- travel between services as text headers; a request decides whether it may capture sensitive data;
-- observable callbacks are invoked, and dropped, when it ends, and its environment is restored.
--
-- Files and the code that they model, from the repository's root:
--   Prelude           shared names: tests, lists, bytes, results, association lists, byte-string laws
--   TraceState        otel/src/trace/trace_state.rs: parse, valid_key, valid_value, validate_member,
--                     header and the PHP methods with, without, get and getListMemberCount
--     Limit           limited_header, that is toString with a limit
--     WellFormed, RoundTrip, Methods, Dropping, Shortened    the theorems and their lemmas
--   Batch             otel/src/trace/batch_processor.rs
--     Config          RetryPolicy, BatchProcessorConfig and the parsers of environment variables
--     Classify        classify_export_error and what it calls
--     Metrics         BatchMetricsInner and the span channel
--     Processor       the request side: new, on_start, on_end, force_flush, shutdown_with_timeout,
--                     set_resource, notify_export, wait_for_control
--     Attempt         record_terminal_failure, jittered, wait_backoff, and what an attempt reads
--     Take            take_batch, the loop that collects batches, discard_remaining
--     Round           export_round
--     Worker          export_available
--     Run             one round of the loop of run_worker
--     Bounds, GrpcStatus, Waiting, Taking, Tallying, Settling, Drained, Draining, Accounting, Steps,
--     Shutdown        theorems and their lemmas
--   Context           otel/src/context
--     Storage         storage.rs
--     LocalRoot       otel/src/trace/local_root_span.rs: the removal and the lookup of the local root
--     Scope           the methods attach and scope of storage.rs, detach of scope.rs, get_instance_id of
--                     context_class.rs
--     Values          native_context.rs; with, get and activate of context_class.rs
--     Mirror, Forks, Stacks, Detaching, Switching, Scopes, Entries    theorems
--   Baggage           otel/src/baggage: baggage_builder.rs (set, remove), baggage.rs (getEntry, getValue)
--     Parser          propagation/parser.rs
--     Propagator      propagation/baggage_propagator.rs: url_encode, baggage_header, inject, extract
--     Methods, Escapes, Clean    theorems
--   SensitiveData     otel/src/config/sensitive_data.rs
--     Capture         theorems
--   Attributes        otel/src/util.rs: PHP values, attributes, truncate_string, limit_value, the tables
--                     of attribute keys
--     Config          configured_limit, AttributeLimitConfig and the limits of a request
--     Arrays          zval_to_vec
--     Conversion      zval_to_key_value, zval_arr_to_key_value_vec, limit_key_values and what they call
--     Homogeneous, Bounded, Settled, Limits    theorems
--   Request           otel/src/request.rs
--     Values          z_val_to_string, parse_resource_attributes, sdk_disabled, request headers
--     Urls            is_excluded_url and is_disabled
--     Environment     backup_env, set_env_from_server, process_dotenv, init_environment, restore_env
--     Globs, Variables, Restoring    theorems
--   Transport         otel/src/trace/otlp_transport.rs: with_exporter_env_masked
--     Headers         parse_header_entry, add_entries, resolve_headers
--     Settings        settings_from_env, the endpoint, the compression and the TLS material
--     Client          build_http_client, grpc_tls_config, grpc_metadata
--     Sound, Repeated, Masking    theorems
--   Metrics           otel/src/metrics: observable.rs, and the cache of instrument.rs
--     Callbacks, Detached, Cleared    theorems and their lemmas
--   Provider          otel/src/trace/tracer_provider.rs: init_once, up to the provider that it builds
--     Registry        compute_config_hash, get_tracer_provider_key, get_tracer_provider, shutdown
--     Hashed, Cached  theorems
--   SpanContext       otel/src/trace/span_context.rs: valid_hex_id, decode_hex, create_context,
--                     span_context_from_object, getInvalid and the methods that print ids
--     Ids, Delegation theorems and their lemmas
-- Each component has a module Examples with tests and with its theorems at concrete arguments.
--
-- How the code is read. A `str` or a byte slice is a list of bytes; every separator is ASCII. In
-- Attributes, where a limit counts chars, a `str` is a list of chars. A double is its 64 bits. A
-- `usize` and the atomic counters have 64 bits and wrap around, as `% 2 ^ 64` says; a duration is a
-- number of nanoseconds. A PHP method is a function from the object's state to its new state.
-- Errors are values of Result or Option with the code's texts or a constructor for each.
--
-- The batch processor's two threads share the span channel and the counters (Shared in
-- Batch.Metrics). A call of the request side and a round of the worker are each one step (Steps);
-- Shutdown also takes the two orders of a worker's abort and the shutdown's count. What the worker
-- reads from outside is an argument: World and Outside hold the exporter's answers, the clock, the
-- random number and the flags that the other thread raises, for each attempt and each round; the
-- exporter's `Display` of an error is the argument `show`. Loops that the code leaves by `break`
-- run on fuel: round_loop on one more than the policy's attempts, available_loop on one more than
-- the depth that it starts from, wait_backoff on two more than the slices of its delay: an attempt
-- uses up one that the policy allows, a round takes a span or is the last, and a round of the wait
-- sleeps for a slice.
--
-- The context storage is that of one thread. A native context is a value of any type, a guard of
-- the SDK is the context that it attached, and whether a context's span is recording, or how many
-- owners it has, is an argument. A hash map is an association list; where the code walks over one,
-- in an order that Rust leaves open, it is read from its end. Where the code cuts a text at a
-- position, the model has the text behind it.
--
-- What other code does is an argument of the definitions: the crates url, http and rustls_pki_types
-- and the file system (Transport), the ids and the trace state of the crate opentelemetry and the
-- engine's objects (SpanContext), Rust's `as f64` and PHP's `iterator_to_array` (Attributes), the
-- entries that dotenvy reads (Request), the hash of the configuration, what the crates reqwest,
-- tonic and opentelemetry-otlp build, which may read the environment, and whether the runtime and a
-- thread start (Transport.Client, Provider), and a PHP callable (Metrics).
--
-- Not modelled: the classes for spans, tracers, logs, instruments and propagators other than
-- baggage's, context_key.rs and the custom storage of context_class.rs, globals.rs; of request.rs
-- the search for a .env file and the root span of a request (init, shutdown); of util.rs the
-- warning about a limit; of otlp_transport.rs the requests that the HTTP client sends; of
-- tracer_provider.rs the SDK's builders, force_flush and the PHP methods; the PHP engine's binding
-- (otel/third_party/phper), the registration of classes, the SDK's own spans, metrics and logs, the
-- instrumentation plugins, log output, and the spawning of the worker's thread. The state of the
-- stacks between two atomic operations of one call is not a state of the model.
pub mod Prelude
pub mod TraceState
pub mod Batch
pub mod Context
pub mod Baggage
pub mod SensitiveData
pub mod SpanContext
pub mod Attributes
pub mod Request
pub mod Transport
pub mod Metrics
pub mod Provider
