-- ===== src/Context/Switching.antt =====
-- The forks of the context storage and the switch between executions.
use mathlib.Core.Path.{subst}
use otel_php_rust.Prelude.{
  ◌≡◌, refl, sym, ap, ◌∙◌, Bool, none, some, [], Option-cases, inl, inr, get_or,
}
use otel_php_rust.Prelude.Bytes.{Bytes, bytes_eq}
use otel_php_rust.Prelude.Maps.{bytes_eq-IsTest, find, find-insert}
use otel_php_rust.Context.Storage.{
  ContextStack, Storage, stack_of, active_stack, fork_execution, switch_execution,
}
use otel_php_rust.Context.Mirror.{IsKnown}
use otel_php_rust.Context.Stacks.{IsReached, IsReached-IsMirrored}

module _ {ℓ} {C : Type ℓ} where
  switch_execution-found :
      (s : Storage C) (id : Bytes) (stack : ContextStack C)
      → find bytes_eq id s.forks ≡ some stack
      → switch_execution s id ≡ record s { guards = stack; execution = some id }
  unfolding switch_execution
  switch_execution-found s id stack e = rw (e, switch_execution) refl

  switch_execution-main :
      (s : Storage C) (id : Bytes)
      → find bytes_eq id s.forks ≡ none
      → switch_execution s id ≡ record s { guards = s.main; execution = none }
  unfolding switch_execution
  switch_execution-main s id e = rw (e, switch_execution) refl

  -- A new fork starts with the stack of the execution that it was forked off.
  pub switch-fork_execution :
      (s : Storage C) (id : Bytes)
      → let s' = switch_execution (fork_execution s id) id in
        (active_stack s' ≡ active_stack s) × (s'.guards ≡ active_stack s) × (s'.execution ≡ some id)
  unfolding fork_execution
  switch-fork_execution s id =
      let found = find-insert bytes_eq bytes_eq-IsTest id (active_stack s) s.forks in
      rw (switch_execution-found (fork_execution s id) id (active_stack s) found)
        (rw found refl, refl, refl)

  -- In a state that the calls of the storage reach, switching away from a current fork and back to
  -- it restores the state.
  pub switch_execution-back :
      (is_live : C → Bool) (s : Storage C) (id current : Bytes)
      → IsReached is_live s
      → s.execution ≡ some current
      → switch_execution (switch_execution s id) current ≡ s
  switch_execution-back is_live s id current reached now =
      let v = IsReached-IsMirrored is_live reached in
      let (stack, k) : IsKnown s.forks (some current) = subst (IsKnown s.forks) now v.known in
      let guards : stack ≡ s.guards =
        sym (v.guards_match ∙ ap (stack_of s) now ∙ ap (λ o. get_or o []) k) in
      let same : record s { guards = stack; execution = some current } ≡ s =
        λ i. record s { guards = guards i; execution = sym now i } in
      elim (Option-cases (find bytes_eq id s.forks)) [
        | inl e ↦ rw (switch_execution-main s id e) (
            switch_execution-found (record s { guards = s.main; execution = none }) current stack k
            ∙ same)
        | inr (other, e) ↦ rw (switch_execution-found s id other e) (
            switch_execution-found (record s { guards = other; execution = some id }) current stack
              k
            ∙ same)
      ]
