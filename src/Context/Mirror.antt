-- ===== src/Context/Mirror.antt =====
-- The guards of the context storage against its active stack, over each of its operations.
use otel_php_rust.Prelude.{
  ℕ, ◌≡◌, refl, sym, ap, ◌∙◌, Bool, true, false, Option, none, some, [], ◌∷◌, arith, Bool-cases,
  Option-cases, inl, inr,
}
use otel_php_rust.Prelude.Bytes.{Bytes, bytes_eq}
use otel_php_rust.Prelude.Results.{ok}
use otel_php_rust.Prelude.Maps.{Map, find, find-insert, bytes_eq-IsTest}
use otel_php_rust.Context.Storage.{
  is_zero, id_eq, ExecutionId, same_execution, ContextStack, Storage, stack_of, active_stack,
  put_stack, set_active_stack, get_context_instance, move_detached_span_context, attach_context,
  pop_guard, pop_stack, detach_context,
}

module _ {ℓ} {C : Type ℓ} where
  pub stack_of-put_stack :
      (s : Storage C) (e : ExecutionId) (stack : ContextStack C)
      → stack_of (put_stack s e stack) e ≡ stack
  stack_of-put_stack s none stack = refl
  stack_of-put_stack s (some id) stack =
      rw (find-insert bytes_eq bytes_eq-IsTest id stack s.forks) refl

  pub put_stack-execution :
      (s : Storage C) (e : ExecutionId) (stack : ContextStack C)
      → (put_stack s e stack).execution ≡ s.execution
  put_stack-execution s none stack = refl
  put_stack-execution s (some id) stack = refl

  pub put_stack-guards :
      (s : Storage C) (e : ExecutionId) (stack : ContextStack C)
      → (put_stack s e stack).guards ≡ s.guards
  put_stack-guards s none stack = refl
  put_stack-guards s (some id) stack = refl

  pub active-set_active_stack :
      (s : Storage C) (stack : ContextStack C) → active_stack (set_active_stack s stack) ≡ stack
  active-set_active_stack s stack =
      ap (stack_of (set_active_stack s stack)) (put_stack-execution s s.execution stack)
      ∙ stack_of-put_stack s s.execution stack

  -- A fork that is current has a stack of its own.
  abbrev pub IsKnown : Map Bytes (ContextStack C) → ExecutionId → Type ℓ
  IsKnown forks none = Unit
  IsKnown forks (some id) = (stack : ContextStack C) × (find bytes_eq id forks ≡ some stack)

  pub record IsMirrored (s : Storage C) : Type ℓ where
    pub guards_match : s.guards ≡ active_stack s
    pub known : IsKnown s.forks s.execution

  put_stack-IsKnown :
      (s : Storage C) (e : ExecutionId) (stack : ContextStack C)
      → IsKnown (put_stack s e stack).forks e
  put_stack-IsKnown s none stack = tt
  put_stack-IsKnown s (some id) stack =
      (stack, find-insert bytes_eq bytes_eq-IsTest id stack s.forks)

  set_active_stack-IsKnown :
      (s : Storage C) (stack : ContextStack C)
      → let s' = set_active_stack s stack in IsKnown s'.forks s'.execution
  set_active_stack-IsKnown s stack =
      rw (put_stack-execution s s.execution stack) (put_stack-IsKnown s s.execution stack)

  set_active_stack-IsMirrored :
      (s : Storage C) (stack : ContextStack C)
      → s.guards ≡ stack
      → IsMirrored (set_active_stack s stack)
  set_active_stack-IsMirrored s stack h = record {
    guards_match = put_stack-guards s s.execution stack ∙ h ∙ sym (active-set_active_stack s stack);
    known = set_active_stack-IsKnown s stack;
  }

  -- What a successful `attach_context` leaves: the context on the stack and a guard for it.
  abbrev pub attached : Storage C → ℕ → C → Storage C
  attached s id context = record (set_active_stack s ((id, context) ∷ active_stack s)) {
    guards = (id, context) ∷ s.guards;
  }

  pub attach_context-attached :
      (s s' : Storage C) (id : ℕ)
      → attach_context s (some id) ≡ ok s'
      → (context : C) × (s' ≡ attached s id context)
  unfolding attach_context
  attach_context-attached s s' id h = elim (Option-cases (get_context_instance s (some id))) [
    | inl e ↦ absurd (cc (rw (e, attach_context) at h))
    | inr (context, e) ↦
        let same : ok (attached s id context) ≡ ok s' = rw (e, attach_context) at h in
        (context, cc same)
  ]

  attached-IsMirrored :
      (s : Storage C) (id : ℕ) (context : C) → IsMirrored s → IsMirrored (attached s id context)
  attached-IsMirrored s id context v = record {
    guards_match =
        ap (◌∷◌ (id, context)) v.guards_match
        ∙ sym (active-set_active_stack s ((id, context) ∷ active_stack s));
    known = set_active_stack-IsKnown s ((id, context) ∷ active_stack s);
  }

  pub attach_context-IsMirrored :
      (s s' : Storage C) (id : Option ℕ)
      → IsMirrored s
      → attach_context s id ≡ ok s'
      → IsMirrored s'
  unfolding attach_context
  attach_context-IsMirrored s s' none v h = absurd (cc h)
  attach_context-IsMirrored s s' (some id) v h =
      let (context, e) = attach_context-attached s s' id h in
      rw e (attached-IsMirrored s id context v)

  pop_guard-zero :
      (id : ℕ) (guards : ContextStack C)
      → is_zero (pop_guard id guards).0 ≡ true
      → (pop_guard id guards).1 ≡ pop_stack id guards
  unfolding pop_guard pop_stack
  pop_guard-zero id [] h = refl
  pop_guard-zero id ((stack_id, context) ∷ guards) h = ground arith

  pop_guard-other :
      (id : ℕ) (guards : ContextStack C)
      → is_zero (pop_guard id guards).0 ≡ false
      → (pop_guard id guards).1 ≡ guards
  unfolding pop_guard
  pop_guard-other id [] h = refl
  pop_guard-other id ((stack_id, context) ∷ guards) h = ground arith

  move_detached_span_context-IsMirrored :
      (is_live : C → Bool) (s : Storage C) (id : ℕ)
      → IsMirrored s
      → IsMirrored (move_detached_span_context is_live s id)
  unfolding move_detached_span_context
  move_detached_span_context-IsMirrored is_live s id v =
      elim (Option-cases (find id_eq id s.contexts)) [
        | inl e ↦ rw (e, move_detached_span_context) v
        | inr (context, e) ↦
            rw (e, move_detached_span_context)
              (record { guards_match = v.guards_match; known = v.known })
      ]

  pub detach_context-IsMirrored :
      (is_live : C → Bool) (s : Storage C) (id : Option ℕ) (execution : ExecutionId)
      → IsMirrored s
      → IsMirrored (detach_context is_live s id execution).1
  unfolding detach_context
  detach_context-IsMirrored is_live s none execution v = v
  detach_context-IsMirrored is_live s (some id) execution v =
      let r = pop_guard id s.guards in
      let s' = record s { guards = r.1 } in
      let popped = set_active_stack s' (pop_stack id (active_stack s')) in
      elim (Bool-cases (same_execution s.execution execution)) [
        | inr other ↦ simp other v
        | inl here ↦ elim (Bool-cases (is_zero r.0)) [
          | inl zero_status ↦
              let h : s'.guards ≡ pop_stack id (active_stack s') =
                pop_guard-zero id s.guards zero_status ∙ ap (pop_stack id) v.guards_match in
              simp (here, zero_status)
                (move_detached_span_context-IsMirrored is_live popped id
                  (set_active_stack-IsMirrored s' (pop_stack id (active_stack s')) h))
          | inr other ↦
              simp (here, other)
                (record {
                  guards_match = pop_guard-other id s.guards other ∙ v.guards_match;
                  known = v.known;
                })
        ]
      ]
