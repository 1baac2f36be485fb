-- ===== src/Context/Forks.antt =====
-- The guards of the context storage against its active stack, over the operations on forks.
use otel_php_rust.Prelude.{
  ◌≡◌, refl, sym, ◌∙◌, false, none, some, arith, Bool-cases, Option-cases, inl, inr,
}
use otel_php_rust.Prelude.Bytes.{Bytes, bytes_eq, bytes_eq_iff}
use otel_php_rust.Prelude.Maps.{
  bytes_eq-IsTest, Map, find, insert, erase, find-insert, find-insert_other, find-erase,
}
use otel_php_rust.Context.Storage.{
  ExecutionId, same_execution, ContextStack, Storage, stack_of, active_stack, fork_execution,
  switch_execution, destroy_execution,
}
use otel_php_rust.Context.Mirror.{IsKnown, IsMirrored}

module _ {ℓ} {C : Type ℓ} where
  stack_of-insert :
      (s : Storage C) (id : Bytes) (e : ExecutionId)
      → stack_of (record s { forks = insert bytes_eq id (stack_of s e) s.forks }) e ≡ stack_of s e
  stack_of-insert s id none = refl
  stack_of-insert s id (some current) =
      let stack = stack_of s (some current) in
      elim (Bool-cases (bytes_eq id current)) [
        | inl this ↦
            rw
              (
                (bytes_eq_iff id current).0 this,
                find-insert bytes_eq bytes_eq-IsTest current stack s.forks,
              )
              refl
        | inr apart ↦
            rw (find-insert_other bytes_eq bytes_eq-IsTest id current stack s.forks apart) refl
      ]

  IsKnown-insert :
      (forks : Map Bytes (ContextStack C)) (id : Bytes) (stack : ContextStack C) (e : ExecutionId)
      → IsKnown forks e
      → IsKnown (insert bytes_eq id stack forks) e
  IsKnown-insert forks id stack none k = tt
  IsKnown-insert forks id stack (some current) (old, k) = elim (Bool-cases (bytes_eq id current)) [
    | inl this ↦
        rw ((bytes_eq_iff id current).0 this)
          (stack, find-insert bytes_eq bytes_eq-IsTest current stack forks)
    | inr apart ↦ (old, find-insert_other bytes_eq bytes_eq-IsTest id current stack forks apart ∙ k)
  ]

  pub fork_execution-IsMirrored :
      (s : Storage C) (id : Bytes) → IsMirrored s → IsMirrored (fork_execution s id)
  unfolding fork_execution
  fork_execution-IsMirrored s id v = record {
    guards_match = v.guards_match ∙ sym (stack_of-insert s id s.execution);
    known = IsKnown-insert s.forks id (active_stack s) s.execution v.known;
  }

  pub switch_execution-IsMirrored :
      (s : Storage C) (id : Bytes) → IsMirrored (switch_execution s id)
  unfolding switch_execution
  switch_execution-IsMirrored s id = elim (Option-cases (find bytes_eq id s.forks)) [
    | inl e ↦ rw (e, switch_execution) (record { guards_match = refl; known = tt })
    | inr (stack, e) ↦
        rw (e, switch_execution) (record { guards_match = rw e refl; known = (stack, e) })
  ]

  find-erase_current :
      (forks : Map Bytes (ContextStack C)) (id current : Bytes)
      → same_execution (some current) (some id) ≡ false
      → find bytes_eq current (erase bytes_eq id forks) ≡ find bytes_eq current forks
  find-erase_current forks id current h =
      find-erase bytes_eq bytes_eq-IsTest id current forks
        (ground (arith, bytes_eq_iff id current, bytes_eq_iff current id))

  stack_of-erase :
      (s : Storage C) (id : Bytes) (e : ExecutionId)
      → same_execution e (some id) ≡ false
      → stack_of (record s { forks = erase bytes_eq id s.forks }) e ≡ stack_of s e
  stack_of-erase s id none h = refl
  stack_of-erase s id (some current) h = rw (find-erase_current s.forks id current h) refl

  IsKnown-erase :
      (forks : Map Bytes (ContextStack C)) (id : Bytes) (e : ExecutionId)
      → same_execution e (some id) ≡ false
      → IsKnown forks e
      → IsKnown (erase bytes_eq id forks) e
  IsKnown-erase forks id none h k = tt
  IsKnown-erase forks id (some current) h (stack, k) =
      (stack, find-erase_current forks id current h ∙ k)

  pub destroy_execution-IsMirrored :
      (s : Storage C) (id : Bytes) → IsMirrored s → IsMirrored (destroy_execution s id)
  unfolding destroy_execution
  destroy_execution-IsMirrored s id v = elim (Bool-cases (same_execution s.execution (some id))) [
    | inl this ↦ simp this v
    | inr other ↦ simp other (record {
      guards_match = v.guards_match ∙ sym (stack_of-erase s id s.execution other);
      known = IsKnown-erase s.forks id s.execution other v.known;
    })
  ]
