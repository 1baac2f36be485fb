-- ===== src/Context/LocalRoot.antt =====
-- The local root span of otel/src/trace/local_root_span.rs: its context's id, its context, and its
-- removal.
use otel_php_rust.Prelude.{ℕ, Option, none, some, ◌==◌, if◌then◌else◌}
use otel_php_rust.Context.Storage.{Storage, get_context_instance, maybe_remove_context_instance}

module _ {ℓ} {C : Type ℓ} where
  -- The thread's `LOCAL_ROOT_SPAN_ID` is the first argument and the first result.
  unfoldable pub maybe_remove_local_root_span :
      Option ℕ → (C → ℕ) → Storage C → Option ℕ → Option ℕ × Storage C
  maybe_remove_local_root_span none strong_count s context_id = (none, s)
  maybe_remove_local_root_span (some current_id) strong_count s none =
      (none, maybe_remove_context_instance strong_count s (some current_id))
  maybe_remove_local_root_span (some current_id) strong_count s (some id) =
      if id == current_id
      then (none, maybe_remove_context_instance strong_count s (some id))
      else (some current_id, s)

  unfoldable pub get_local_root_span_context : Option ℕ → Storage C → Option C
  get_local_root_span_context none s = none
  get_local_root_span_context (some id) s = get_context_instance s (some id)
