-- ===== src/Context/Detaching.antt =====
-- What `attach_context` and `detach_context` do to the stacks of the context storage.
use otel_php_rust.Prelude.{
  ℕ, ◌≡◌, refl, ap, ◌∙◌, Bool, true, false, none, some, [], ◌∷◌, arith, ◌==◌, ==_iff, if◌then◌else◌,
  Bool-cases, Option-cases, inl, inr,
}
use otel_php_rust.Prelude.Bytes.{bytes_eq, bytes_eq_refl}
use otel_php_rust.Prelude.Signed.{ℤ, pos}
use otel_php_rust.Prelude.Results.{ok}
use otel_php_rust.Prelude.Maps.{bytes_eq-IsTest, find, find-insert_other}
use otel_php_rust.Context.Storage.{
  status_inactive, status_mismatch, is_zero, id_eq, ExecutionId, same_execution, ContextStack,
  Storage, stack_of, active_stack, put_stack, set_active_stack, move_detached_span_context,
  attach_context, pop_guard, pop_stack, detach_context,
}
use otel_php_rust.Context.Mirror.{
  active-set_active_stack, put_stack-execution, put_stack-guards, attached, attach_context-attached,
}
use otel_php_rust.Context.Stacks.{IsReached, IsReached-IsMirrored}

same_execution_refl : (e : ExecutionId) → same_execution e e ≡ true
same_execution_refl none = refl
same_execution_refl (some id) = bytes_eq_refl id

module _ {ℓ} {C : Type ℓ} where
  -- The stacks, the guards and the current execution are the same.
  pub record SameStacks (s s' : Storage C) : Type ℓ where
    pub main : s'.main ≡ s.main
    pub forks : s'.forks ≡ s.forks
    pub guards : s'.guards ≡ s.guards
    pub execution : s'.execution ≡ s.execution

  move-SameStacks :
      (is_live : C → Bool) (s : Storage C) (id : ℕ)
      → SameStacks s (move_detached_span_context is_live s id)
  unfolding move_detached_span_context
  move-SameStacks is_live s id = elim (Option-cases (find id_eq id s.contexts)) [
    | inl e ↦
        rw (e, move_detached_span_context)
          (record { main = refl; forks = refl; guards = refl; execution = refl })
    | inr (context, e) ↦
        rw (e, move_detached_span_context)
          (record { main = refl; forks = refl; guards = refl; execution = refl })
  ]

  SameStacks-stack_of :
      {s s' : Storage C} → SameStacks s s' → (e : ExecutionId) → stack_of s' e ≡ stack_of s e
  SameStacks-stack_of h none = h.main
  SameStacks-stack_of h (some id) = rw h.forks refl

  SameStacks-active : {s s' : Storage C} → SameStacks s s' → active_stack s' ≡ active_stack s
  SameStacks-active {s} {s'} h = ap (stack_of s') h.execution ∙ SameStacks-stack_of h s.execution

  stack_of-put_stack_other :
      (s : Storage C) (e other : ExecutionId) (stack : ContextStack C)
      → same_execution e other ≡ false
      → stack_of (put_stack s e stack) other ≡ stack_of s other
  stack_of-put_stack_other s none none stack h = absurd (cc h)
  stack_of-put_stack_other s none (some id) stack h = refl
  stack_of-put_stack_other s (some id) none stack h = refl
  stack_of-put_stack_other s (some id) (some other) stack h =
      rw (find-insert_other bytes_eq bytes_eq-IsTest id other stack s.forks h) refl

  -- An attach that succeeds leaves the stacks of the executions alone that are not current.
  pub attach_context-isolates :
      (s s' : Storage C) (id : ℕ) (other : ExecutionId)
      → attach_context s (some id) ≡ ok s'
      → same_execution s.execution other ≡ false
      → stack_of s' other ≡ stack_of s other
  attach_context-isolates s s' id other h apart =
      let (context, e) = attach_context-attached s s' id h in
      rw e (stack_of-put_stack_other s s.execution other ((id, context) ∷ active_stack s) apart)

  -- The status of a detach: 0 for the top of the active stack.
  abbrev pub status_of : ContextStack C → ℕ → ℤ
  status_of [] id = status_inactive
  status_of ((top_id, _) ∷ _) id = if top_id == id then pos 0 else status_mismatch

  module _ (is_live : C → Bool) where
    -- What `detach_context` leaves where the status is 0.
    abbrev popped : Storage C → ℕ → Storage C
    popped s id =
        let s' = record s { guards = (pop_guard id s.guards).1 } in
        set_active_stack s' (pop_stack id (active_stack s))

    -- A detach leaves the stacks of the executions alone that are not current.
    pub detach_context-isolates :
        (s : Storage C) (id : ℕ) (execution other : ExecutionId)
        → same_execution s.execution other ≡ false
        → stack_of (detach_context is_live s (some id) execution).1 other ≡ stack_of s other
    unfolding detach_context
    detach_context-isolates s id execution other apart =
        elim (Bool-cases (same_execution s.execution execution)) [
          | inr elsewhere ↦ rw elsewhere refl
          | inl here ↦ elim (Bool-cases (is_zero (pop_guard id s.guards).0)) [
            | inr kept ↦ rw (here, kept) refl
            | inl zero_status ↦
                rw (here, zero_status)
                  (SameStacks-stack_of (move-SameStacks is_live (popped s id) id) other
                    ∙ stack_of-put_stack_other (record s { guards = (pop_guard id s.guards).1 })
                        s.execution other (pop_stack id (active_stack s)) apart)
          ]
        ]

    pop_guard-top :
        (id : ℕ) (context : C) (guards : ContextStack C)
        → pop_guard id ((id, context) ∷ guards) ≡ (pos 0, guards)
    unfolding pop_guard
    pop_guard-top id context guards = rw ((==_iff id id).1 refl) refl

    pop_stack-top :
        (id : ℕ) (context : C) (stack : ContextStack C)
        → pop_stack id ((id, context) ∷ stack) ≡ stack
    unfolding pop_stack
    pop_stack-top id context stack = rw ((==_iff id id).1 refl) refl

    -- What a detach of the top context does.
    abbrev Pops : Storage C → ContextStack C → ContextStack C → ℤ × Storage C → Type ℓ
    Pops s stack guards r =
        (r.0 ≡ pos 0)
        × (active_stack r.1 ≡ stack)
        × (r.1.guards ≡ guards)
        × (r.1.execution ≡ s.execution)

    detach_context-Pops :
        (s : Storage C) (id : ℕ) (execution : ExecutionId) (stack guards : ContextStack C)
        → same_execution s.execution execution ≡ true
        → pop_guard id s.guards ≡ (pos 0, guards)
        → pop_stack id (active_stack s) ≡ stack
        → Pops s stack guards (detach_context is_live s (some id) execution)
    unfolding detach_context
    detach_context-Pops s id execution stack guards here g p =
        let s' = record s { guards = guards } in
        let t = set_active_stack s' (pop_stack id (active_stack s)) in
        let m = move-SameStacks is_live t id in
        simp (here, g)
          (
            refl,
            SameStacks-active m ∙ active-set_active_stack s' (pop_stack id (active_stack s)) ∙ p,
            m.guards ∙ put_stack-guards s' s.execution (pop_stack id (active_stack s)),
            m.execution ∙ put_stack-execution s' s.execution (pop_stack id (active_stack s)),
          )

    -- A detach right after an attach, in the same execution, succeeds and leaves the stack, the
    -- guards and the current execution as they were before the attach.
    pub detach_context-attach_context :
        (s s' : Storage C) (id : ℕ)
        → attach_context s (some id) ≡ ok s'
        → let r = detach_context is_live s' (some id) s.execution in
          (r.0 ≡ pos 0)
          × (active_stack r.1 ≡ active_stack s)
          × (r.1.guards ≡ s.guards)
          × (r.1.execution ≡ s.execution)
    detach_context-attach_context s s' id h =
        let (context, e) = attach_context-attached s s' id h in
        let stack = (id, context) ∷ active_stack s in
        let execution = put_stack-execution s s.execution stack in
        let (status, active, guards, now) =
          detach_context-Pops (attached s id context) id s.execution (active_stack s) s.guards
            (rw execution (same_execution_refl s.execution)) (pop_guard-top id context s.guards)
            (ap (pop_stack id) (active-set_active_stack s stack)
              ∙ pop_stack-top id context (active_stack s)) in
        rw e (status, active, guards, now ∙ execution)

    pop_guard-status :
        (id : ℕ) (stack : ContextStack C) → (pop_guard id stack).0 ≡ status_of stack id
    unfolding pop_guard
    pop_guard-status id [] = refl
    pop_guard-status id ((top_id, context) ∷ stack) = ground arith

    -- In a state that the calls of the storage reach, a detach from another execution than the
    -- current one is inactive, and one from the current execution succeeds exactly for the context
    -- on top of its stack: it is inactive on an empty stack and a mismatch for any other context.
    pub detach_context-status :
        (s : Storage C) (id : ℕ) (execution : ExecutionId)
        → IsReached is_live s
        → (detach_context is_live s (some id) execution).0 ≡ (
            if same_execution s.execution execution
            then status_of (active_stack s) id
            else status_inactive)
    unfolding detach_context
    detach_context-status s id execution reached =
        let v = IsReached-IsMirrored is_live reached in
        let status = pop_guard-status id s.guards ∙ ap (λ g. status_of g id) v.guards_match in
        elim (Bool-cases (same_execution s.execution execution)) [
          | inr elsewhere ↦ rw elsewhere refl
          | inl here ↦ elim (Bool-cases (is_zero (pop_guard id s.guards).0)) [
            | inl zero_status ↦ rw (here, zero_status) status
            | inr kept ↦ rw (here, kept) status
          ]
        ]
