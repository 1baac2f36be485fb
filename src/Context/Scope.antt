-- ===== src/Context/Scope.antt =====
-- `detach` of otel/src/context/scope.rs, and the PHP methods `attach` and `scope` of
-- otel/src/context/storage.rs, which make scopes.
use otel_php_rust.Prelude.{
  ℕ, Bool, true, false, Option, none, some, ◌==◌, if◌then◌else◌, option_map,
}
use otel_php_rust.Prelude.Bytes.{Bytes, codes}
use otel_php_rust.Prelude.Signed.{ℤ}
use otel_php_rust.Prelude.Results.{Result, ok, err, ◌>>=◌}
use otel_php_rust.Context.LocalRoot.{maybe_remove_local_root_span}
use otel_php_rust.Context.Storage.{
  status_detached, is_zero, ExecutionId, Storage, current_context_instance_id, get_context_instance,
  store_context_instance, attach_context, detach_context,
}

-- `get_instance_id`, for a property below 2^63.
abbrev pub get_instance_id : ℕ → Option ℕ
get_instance_id context_id = if context_id == 0 then none else some context_id

-- The state of a PHP scope object, `ScopeState` and its property `context_id`.
pub record ScopeState {ℓ} (C : Type ℓ) : Type ℓ where
  pub context : Option C
  pub execution_id : ExecutionId
  pub is_detached : Bool
  pub context_id : ℕ

module _ {ℓ} {C : Type ℓ} where
  -- The PHP method `attach` of the storage from `attach_context` on.
  unfoldable pub attach_stored : Storage C → ℕ → Result Bytes (ScopeState C × Storage C)
  unfolding attach_context get_context_instance
  attach_stored s id = do
    s' ← attach_context s (some id)
    ok (
      record {
        context = get_context_instance s' (some id);
        execution_id = s'.execution;
        is_detached = false;
        context_id = id;
      },
      s',
    )

  -- The PHP method `attach` of the storage, for an object with the property `context_id` that holds
  -- `native`.
  unfoldable pub attach : Storage C → ℕ → Option C → Result Bytes (ScopeState C × Storage C)
  unfolding attach_stored store_context_instance
  attach s context_id native = elim (get_context_instance s (get_instance_id context_id)) [
    | some _ ↦ attach_stored s context_id
    | none ↦ elim native [
      | none ↦ err (codes "unsupported ContextInterface implementation")
      | some context ↦ let (id, s') = store_context_instance s context in attach_stored s' id
    ]
  ]

  -- The PHP method `scope` of the storage.
  unfoldable pub scope : Storage C → Option (ScopeState C)
  unfolding current_context_instance_id get_context_instance
  scope s =
      option_map
        (λ id. record {
          context = get_context_instance s (some id);
          execution_id = s.execution;
          is_detached = false;
          context_id = id;
        })
        (current_context_instance_id s)

  -- The PHP method `detach` of a scope, with the thread's `LOCAL_ROOT_SPAN_ID` and the strong count
  -- of an `Rc` as arguments.
  unfoldable pub scope_detach :
      (C → Bool)
      → (C → ℕ)
      → Option ℕ
      → Storage C
      → ScopeState C
      → ℤ × ScopeState C × Option ℕ × Storage C
  scope_detach is_live strong_count root s this =
      let instance_id = get_instance_id this.context_id in
      let (status, s') = detach_context is_live s instance_id this.execution_id in
      let (root', s'') = maybe_remove_local_root_span root strong_count s' instance_id in
      if this.is_detached
      then (status_detached, this, root, s)
      else if is_zero status
      then (status, record this { is_detached = true }, root', s'')
      else (status, this, root, s')
