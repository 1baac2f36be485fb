-- ===== src/Context/Scopes.antt =====
-- The scopes that the context storage gives for an attached context.
use otel_php_rust.Prelude.{
  ℕ, ◌<◌, ◌≡◌, refl, sym, ap, ◌∙◌, Bool, true, false, some, ◌∷◌, arith, ◌==◌, Option-cases, inl,
  Option, none, inr, Bool-cases, if◌then◌else◌,
}
use otel_php_rust.Prelude.Signed.{pos}
use otel_php_rust.Prelude.Results.{ok}
use otel_php_rust.Context.Storage.{
  status_detached, Storage, maybe_remove_context_instance, stack_of, ExecutionId, remove_if_unowned,
  active_stack, attach_context, detach_context, get_context_instance,
}
use otel_php_rust.Prelude.Maps.{Map}
use otel_php_rust.Context.LocalRoot.{maybe_remove_local_root_span}
use otel_php_rust.Context.Scope.{ScopeState, get_instance_id, attach_stored, scope_detach}
use otel_php_rust.Context.Mirror.{put_stack-execution, attached, attach_context-attached}
use otel_php_rust.Context.Detaching.{detach_context-attach_context}

not_zero : (id : ℕ) → 0 < id → (id == 0) ≡ false
not_zero id h = ground arith

-- The local root span is that of the context.
abbrev pub is_root : Option ℕ → ℕ → Bool
is_root none id = false
is_root (some current) id = id == current

module _ {ℓ} {C : Type ℓ} where
  -- The scope of an attached context.
  abbrev scope_for : Storage C → ℕ → ScopeState C
  scope_for s id = record {
    context = get_context_instance s (some id);
    execution_id = s.execution;
    is_detached = false;
    context_id = id;
  }

  attach_stored-eq :
      (s s' : Storage C) (id : ℕ) (this : ScopeState C)
      → attach_stored s id ≡ ok (this, s')
      → (attach_context s (some id) ≡ ok s') × (this ≡ scope_for s' id)
  unfolding attach_stored attach_context
  attach_stored-eq s s' id this h = elim (Option-cases (get_context_instance s (some id))) [
    | inl e ↦ absurd (cc (rw (e, attach_stored, attach_context) at h))
    | inr (context, e) ↦
        let t = attached s id context in
        let same : ok (scope_for t id, t) ≡ ok (this, s') =
          rw (e, attach_stored, attach_context) at h in
        let moved : t ≡ s' = cc same in
        (
          rw (e, attach_context) (ap ok moved),
          sym (ap (λ (r : Storage C). scope_for r id) (sym moved) ∙ cc same),
        )
  ]

  stack_of-contexts :
      (s : Storage C) (contexts detached : Map ℕ C) (execution : ExecutionId)
      → stack_of (record s { contexts = contexts; detached_spans = detached }) execution
        ≡ stack_of s execution
  stack_of-contexts s contexts detached none = refl
  stack_of-contexts s contexts detached (some id) = refl

  -- Removing the local root span leaves the stack, and only the span of that context goes.
  maybe_remove_local_root_span-stack :
      (strong_count : C → ℕ) (root : Option ℕ) (s : Storage C) (id : ℕ)
      → active_stack (maybe_remove_local_root_span root strong_count s (some id)).1 ≡ active_stack s
  unfolding maybe_remove_local_root_span maybe_remove_context_instance
  maybe_remove_local_root_span-stack strong_count none s id = refl
  maybe_remove_local_root_span-stack strong_count (some current) s id =
      elim (Bool-cases (id == current)) [
        | inl e ↦ rw e (
            stack_of-contexts s (remove_if_unowned strong_count id s.contexts)
              (remove_if_unowned strong_count id s.detached_spans) s.execution)
        | inr e ↦ rw e refl
      ]

  maybe_remove_local_root_span-root :
      (strong_count : C → ℕ) (root : Option ℕ) (s : Storage C) (id : ℕ)
      → (maybe_remove_local_root_span root strong_count s (some id)).0
        ≡ (if is_root root id then none else root)
  unfolding maybe_remove_local_root_span
  maybe_remove_local_root_span-root strong_count none s id = refl
  maybe_remove_local_root_span-root strong_count (some current) s id =
      elim (Bool-cases (id == current)) [ inl e ↦ rw e refl | inr e ↦ rw e refl ]

  scope_detach-zero :
      (is_live : C → Bool) (strong_count : C → ℕ) (root : Option ℕ) (s : Storage C)
      (this : ScopeState C)
      → this.is_detached ≡ false
      → let id = get_instance_id this.context_id in
        let r = detach_context is_live s id this.execution_id in
        r.0 ≡ pos 0
        → let removed = maybe_remove_local_root_span root strong_count r.1 id in
          scope_detach is_live strong_count root s this
          ≡ (pos 0, record this { is_detached = true }, removed.0, removed.1)
  unfolding scope_detach
  scope_detach-zero is_live strong_count root s this live zero_status = rw (live, zero_status) refl

  -- The scope that attaching a context with an id above 0 gives detaches it once: the first
  -- `detach` succeeds, leaves the active stack as it was, and clears the thread's local root span
  -- if it is that of this context, and no other; a second one says so and changes nothing.
  pub scope_detach-once :
      (is_live : C → Bool) (strong_count : C → ℕ) (root : Option ℕ) (s s' : Storage C) (id : ℕ)
      (this : ScopeState C)
      → 0 < id
      → attach_stored s id ≡ ok (this, s')
      → let (status, this', root', s'') = scope_detach is_live strong_count root s' this in
        (status ≡ pos 0)
        × (active_stack s'' ≡ active_stack s)
        × (root' ≡ (if is_root root id then none else root))
        × (scope_detach is_live strong_count root' s'' this' ≡ (status_detached, this', root', s''))
  unfolding scope_detach
  scope_detach-once is_live strong_count root s s' id this some_id h =
      let (attaches, e) = attach_stored-eq s s' id this h in
      let (context, after) = attach_context-attached s s' id attaches in
      let execution : s'.execution ≡ s.execution =
        ap (λ (r : Storage C). r.execution) after
        ∙ put_stack-execution s s.execution ((id, context) ∷ active_stack s) in
      let undone = detach_context-attach_context is_live s s' id attaches in
      let called : get_instance_id this.context_id ≡ some id =
        rw e (rw (not_zero id some_id) refl) in
      let from_here : this.execution_id ≡ s.execution = rw e execution in
      let live : this.is_detached ≡ false = rw e refl in
      let first =
        scope_detach-zero is_live strong_count root s' this live
          (rw (called, from_here) undone.0) in
      rw (first, called, from_here)
        (
          refl,
          maybe_remove_local_root_span-stack strong_count root _ id ∙ undone.1,
          maybe_remove_local_root_span-root strong_count root _ id,
          refl,
        )
