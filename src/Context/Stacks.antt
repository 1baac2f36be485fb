-- ===== src/Context/Stacks.antt =====
-- The calls of the context storage as a step relation, and the states that they reach.
use otel_php_rust.Prelude.{ℕ, ◌≡◌, refl, Bool, Option, none, some}
use otel_php_rust.Prelude.Bytes.{Bytes}
use otel_php_rust.Prelude.Results.{ok}
use otel_php_rust.Context.Storage.{
  ExecutionId, Storage, cleared, clear_context_storage, store_context_instance,
  maybe_remove_context_instance, remove_context_instance, attach_context, detach_context,
  fork_execution, switch_execution, destroy_execution,
}
use otel_php_rust.Context.Mirror.{IsMirrored, attach_context-IsMirrored, detach_context-IsMirrored}
use otel_php_rust.Context.Forks.{
  fork_execution-IsMirrored, switch_execution-IsMirrored, destroy_execution-IsMirrored,
}

module _ {ℓ} {C : Type ℓ} where
  -- A call of the storage; the flag says whether a context's span is valid and recording, and the
  -- count is that of the owners of a context.
  module _ (is_live : C → Bool) where
    pub data ◌⇝◌ : Storage C → Storage C → Type ℓ where
      stores : {s : Storage C} (context : C) → ◌⇝◌ s (store_context_instance s context).1
      maybe_removes :
          {s : Storage C} (strong_count : C → ℕ) (id : Option ℕ)
          → ◌⇝◌ s (maybe_remove_context_instance strong_count s id)
      removes : {s : Storage C} (id : ℕ) → ◌⇝◌ s (remove_context_instance s id)
      attaches : {s s' : Storage C} (id : Option ℕ) → attach_context s id ≡ ok s' → ◌⇝◌ s s'
      detaches :
          {s : Storage C} (id : Option ℕ) (execution : ExecutionId)
          → ◌⇝◌ s (detach_context is_live s id execution).1
      forks_off : {s : Storage C} (id : Bytes) → ◌⇝◌ s (fork_execution s id)
      switches : {s : Storage C} (id : Bytes) → ◌⇝◌ s (switch_execution s id)
      destroys : {s : Storage C} (id : Bytes) → ◌⇝◌ s (destroy_execution s id)
      clears : {s : Storage C} → ◌⇝◌ s (clear_context_storage s)

    pub data IsReached : Storage C → Type ℓ where
      fresh : (next_id : ℕ) → IsReached (cleared next_id)
      call : {s s' : Storage C} → IsReached s → ◌⇝◌ s s' → IsReached s'

    step-IsMirrored : {s s' : Storage C} → ◌⇝◌ s s' → IsMirrored s → IsMirrored s'
    unfolding store_context_instance remove_context_instance maybe_remove_context_instance
        clear_context_storage cleared
    step-IsMirrored (stores context) v = record { guards_match = v.guards_match; known = v.known }
    step-IsMirrored (maybe_removes strong_count none) v = v
    step-IsMirrored (maybe_removes strong_count (some id)) v = record {
      guards_match = v.guards_match;
      known = v.known;
    }
    step-IsMirrored (removes id) v = record { guards_match = v.guards_match; known = v.known }
    step-IsMirrored (attaches {s} {s'} id h) v = attach_context-IsMirrored s s' id v h
    step-IsMirrored (detaches {s} id execution) v =
        detach_context-IsMirrored is_live s id execution v
    step-IsMirrored (forks_off {s} id) v = fork_execution-IsMirrored s id v
    step-IsMirrored (switches {s} id) v = switch_execution-IsMirrored s id
    step-IsMirrored (destroys {s} id) v = destroy_execution-IsMirrored s id v
    step-IsMirrored clears v = record { guards_match = refl; known = tt }

    -- In every state that the calls of the storage reach, the guards are those of the contexts on
    -- the active stack, in their order, and a current fork has a stack.
    pub IsReached-IsMirrored : {s : Storage C} → IsReached s → IsMirrored s
    unfolding cleared
    IsReached-IsMirrored (fresh next_id) = record { guards_match = refl; known = tt }
    IsReached-IsMirrored (call before h) = step-IsMirrored h (IsReached-IsMirrored before)
