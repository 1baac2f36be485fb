-- ===== src/Context/Examples.antt =====
-- Tests of the context storage on concrete calls, and its theorems at the states they reach.
use otel_php_rust.Prelude.{
  ℕ, ◌==◌, ==_iff, ◌≡◌, refl, Bool, true, false, none, some, [], ◌∷◌, arith,
}
use otel_php_rust.Prelude.Bytes.{codes}
use otel_php_rust.Prelude.Signed.{pos}
use otel_php_rust.Prelude.Results.{ok, Ensures}
use otel_php_rust.Prelude.Maps.{find, insert, erase}
use otel_php_rust.Context.Storage.{
  status_detached, Storage, cleared, active_stack, get_context_instance, store_context_instance,
  attach_context, detach_context, fork_execution, switch_execution, current_context_instance_id,
}
use otel_php_rust.Context.Scope.{ScopeState, attach_stored, scope_detach}
use otel_php_rust.Context.Mirror.{IsMirrored}
use otel_php_rust.Context.Stacks.{
  IsReached, fresh, call, stores, attaches, forks_off, switches, IsReached-IsMirrored,
}
use otel_php_rust.Context.Detaching.{detach_context-attach_context}
use otel_php_rust.Context.Switching.{switch_execution-back}
use otel_php_rust.Context.Values.{
  NativeContext, ContextObject, with_value, with_entry, entry_value, init_context_object, activate,
}
use otel_php_rust.Context.LocalRoot.{maybe_remove_local_root_span}
use otel_php_rust.Context.Entries.{entry_value-with_entry}
use otel_php_rust.Context.Scopes.{scope_detach-once}

abbrev live : ℕ → Bool
live context = true

-- One context is stored under the id 1.
abbrev stored : Storage ℕ
stored = record {
  contexts = (1, 70) ∷ [];
  detached_spans = [];
  guards = [];
  main = [];
  forks = [];
  execution = none;
  next_id = 2;
}

abbrev one_attached : Storage ℕ
one_attached = record stored { guards = (1, 70) ∷ []; main = (1, 70) ∷ [] }

abbrev in_fork : Storage ℕ
in_fork = record one_attached {
  forks = (codes "f", (1, 70) ∷ []) ∷ [];
  execution = some (codes "f");
}

attach_context-stored : attach_context stored (some 1) ≡ ok one_attached
unfolding attach_context get_context_instance find
attach_context-stored = refl

stored-IsReached : IsReached live stored
unfolding cleared store_context_instance insert erase
stored-IsReached = call (fresh 1) (stores 70)

one_attached-IsReached : IsReached live one_attached
one_attached-IsReached = call stored-IsReached (attaches (some 1) attach_context-stored)

in_fork-IsReached : IsReached live in_fork
unfolding fork_execution switch_execution insert erase find
in_fork-IsReached =
    call (call one_attached-IsReached (forks_off (codes "f"))) (switches (codes "f"))

IsReached-IsMirrored_example : IsMirrored in_fork
IsReached-IsMirrored_example = IsReached-IsMirrored live in_fork-IsReached

detach_context-attach_context_example :
    let r = detach_context live one_attached (some 1) none in
    (r.0 ≡ pos 0)
    × (active_stack r.1 ≡ active_stack stored)
    × (r.1.guards ≡ stored.guards)
    × (r.1.execution ≡ stored.execution)
detach_context-attach_context_example =
    detach_context-attach_context live stored one_attached 1 attach_context-stored

switch_execution-back_example :
    switch_execution (switch_execution in_fork (codes "other")) (codes "f") ≡ in_fork
switch_execution-back_example =
    switch_execution-back live in_fork (codes "other") (codes "f") in_fork-IsReached refl

abbrev first_scope : ScopeState ℕ
first_scope = record { context = some 70; execution_id = none; is_detached = false; context_id = 1 }

attach_stored-stored : attach_stored stored 1 ≡ ok (first_scope, one_attached)
unfolding attach_stored attach_context get_context_instance find
attach_stored-stored = refl

-- The context of the scope is also that of the local root span, and has other owners.
scope_detach-once_example :
    let (status, this', root, s'') = scope_detach live (λ c. 2) (some 1) one_attached first_scope in
    (status ≡ pos 0)
    × (active_stack s'' ≡ active_stack stored)
    × (root ≡ none)
    × (scope_detach live (λ c. 2) root s'' this' ≡ (status_detached, this', root, s''))
scope_detach-once_example =
    scope_detach-once live (λ c. 2) (some 1) stored one_attached 1 first_scope (omega arith)
      attach_stored-stored

-- A context object of two keys, and the storage of a new thread.
abbrev entries_object : ContextObject ℕ ℕ
entries_object = record {
  state = some (record { context = 7; values = (3, (30, 5)) ∷ (4, (40, 8)) ∷ [] });
  context_id = 0;
}

abbrev new_storage : Storage (NativeContext ℕ ℕ)
new_storage = record {
  contexts = [];
  detached_spans = [];
  guards = [];
  main = [];
  forks = [];
  execution = none;
  next_id = 1;
}

abbrev is_zero_value : ℕ → Bool
is_zero_value n = n == 0

entry_value-with_entry_example :
    entry_value 0 is_zero_value new_storage
      (record {
        state = some (record { context = 7; values = (3, (30, 6)) ∷ (4, (40, 8)) ∷ [] });
        context_id = 0;
      })
      3
    ≡ ok 6
unfolding with_entry with_value init_context_object insert erase
entry_value-with_entry_example =
    entry_value-with_entry 0 is_zero_value (λ v. (==_iff v 0).0) new_storage new_storage
      entries_object _ 3 3 30 6 refl

-- A null value removes the key.
entry_value-with_null :
    with_entry 0 is_zero_value new_storage entries_object 3 30 0
    ≡ ok (record {
      state = some (record { context = 7; values = (4, (40, 8)) ∷ [] });
      context_id = 0;
    })
unfolding with_entry with_value init_context_object erase
entry_value-with_null = refl

-- An activated context is the current one, under its id.
current_context-activate :
    Ensures
      (λ r. current_context_instance_id r.2 ≡ some r.0.context_id)
      (activate new_storage entries_object)
unfolding activate store_context_instance attach_context get_context_instance find insert erase
    current_context_instance_id
current_context-activate = refl

-- Another context's id leaves the local root span alone.
maybe_remove_local_root_span-other :
    maybe_remove_local_root_span (some 2) (λ c. 1) new_storage (some 1) ≡ (some 2, new_storage)
unfolding maybe_remove_local_root_span
maybe_remove_local_root_span-other = refl
