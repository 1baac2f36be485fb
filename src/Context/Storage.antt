-- ===== src/Context/Storage.antt =====
-- otel/src/context/storage.rs: the maps of stored contexts, the stacks of attached ones (one for the
-- main execution and one for each fork) and the guards of the current stack. The state is
-- that of one thread. A native context is a value of a type
-- `C`, and a guard of the SDK is the context that it attached. A stack is written with its top first.
use otel_php_rust.Prelude.{
  ℕ, ◌+◌, ◌-◌, ◌^◌, ◌%◌, Bool, true, false, not, Option, none, some, List, [], ◌∷◌, ◌==◌,
  if◌then◌else◌, get_or, option_map,
}
use otel_php_rust.Prelude.Bytes.{Bytes, codes, bytes_eq}
use otel_php_rust.Prelude.Signed.{ℤ, pos, negsuc}
use otel_php_rust.Prelude.Results.{Result, ok, err}
use otel_php_rust.Prelude.Maps.{Map, find, insert, erase}

abbrev pub status_detached : ℤ
status_detached = negsuc (2 ^ 63 - 1)

abbrev pub status_inactive : ℤ
status_inactive = pos (2 ^ 62)

abbrev pub status_mismatch : ℤ
status_mismatch = pos (2 ^ 61)

abbrev pub is_zero : ℤ → Bool
is_zero (pos n) = n == 0
is_zero (negsuc n) = false

abbrev pub id_eq : ℕ → ℕ → Bool
id_eq a b = a == b

-- The name of the current execution; `none` is the main one.
abbrev pub ExecutionId : Type 0
ExecutionId = Option Bytes

abbrev pub same_execution : ExecutionId → ExecutionId → Bool
same_execution none none = true
same_execution (some a) (some b) = bytes_eq a b
same_execution _ _ = false

abbrev pub ContextStack {ℓ} : Type ℓ → Type ℓ
ContextStack C = List (ℕ × C)

pub record Storage {ℓ} (C : Type ℓ) : Type ℓ where
  pub contexts : Map ℕ C
  pub detached_spans : Map ℕ C
  pub guards : ContextStack C
  pub main : ContextStack C
  pub forks : Map Bytes (ContextStack C)
  pub execution : ExecutionId
  pub next_id : ℕ

module _ {ℓ} {C : Type ℓ} where
  -- The state at the start of a thread, and behind `clear_context_storage`, which keeps the counter.
  unfoldable pub cleared : ℕ → Storage C
  cleared next_id = record {
    contexts = [];
    detached_spans = [];
    guards = [];
    main = [];
    forks = [];
    execution = none;
    next_id = next_id;
  }

  unfoldable pub clear_context_storage : Storage C → Storage C
  unfolding cleared
  clear_context_storage s = cleared s.next_id

  -- The stack that `with_active_stack` hands to its callback. For a fork without a stack the code
  -- also stores the empty one; see `IsKnown` in Context/Mirror for the current fork.
  abbrev pub stack_of : Storage C → ExecutionId → ContextStack C
  stack_of s none = s.main
  stack_of s (some id) = get_or (find bytes_eq id s.forks) []

  abbrev pub active_stack : Storage C → ContextStack C
  active_stack s = stack_of s s.execution

  -- `with_active_stack` with a callback that leaves `stack`.
  abbrev pub put_stack : Storage C → ExecutionId → ContextStack C → Storage C
  put_stack s none stack = record s { main = stack }
  put_stack s (some id) stack = record s { forks = insert bytes_eq id stack s.forks }

  abbrev pub set_active_stack : Storage C → ContextStack C → Storage C
  set_active_stack s stack = put_stack s s.execution stack

  unfoldable pub top : ContextStack C → Option (ℕ × C)
  top [] = none
  top (entry ∷ stack) = some entry

  -- With `Context::current()` of the SDK as an argument.
  unfoldable pub current_context : C → Storage C → C
  unfolding top
  current_context sdk s = get_or (option_map (λ (e : ℕ × C). e.1) (top (active_stack s))) sdk

  unfoldable pub current_context_instance_id : Storage C → Option ℕ
  unfolding top
  current_context_instance_id s = option_map (λ (e : ℕ × C). e.0) (top (active_stack s))

  unfoldable pub get_context_instance : Storage C → Option ℕ → Option C
  get_context_instance s none = none
  get_context_instance s (some id) = elim (find id_eq id s.contexts) [
    | some context ↦ some context
    | none ↦ find id_eq id s.detached_spans
  ]

  unfoldable pub resolve_context : C → Storage C → Option ℕ → C
  unfolding get_context_instance
  resolve_context sdk s id = get_or (get_context_instance s id) sdk

  unfoldable pub store_context_instance : Storage C → C → ℕ × Storage C
  store_context_instance s context = (
    s.next_id,
    record s {
      contexts = insert id_eq s.next_id context s.contexts;
      next_id = (s.next_id + 1) % 2 ^ 64;
    },
  )

  -- The closure `remove_if_unowned`, with the strong count of the `Rc`.
  unfoldable pub remove_if_unowned : (C → ℕ) → ℕ → Map ℕ C → Map ℕ C
  remove_if_unowned strong_count id contexts = elim (find id_eq id contexts) [
    | some context ↦ if strong_count context == 1 then erase id_eq id contexts else contexts
    | none ↦ contexts
  ]

  unfoldable pub maybe_remove_context_instance : (C → ℕ) → Storage C → Option ℕ → Storage C
  unfolding remove_if_unowned
  maybe_remove_context_instance strong_count s none = s
  maybe_remove_context_instance strong_count s (some id) = record s {
    contexts = remove_if_unowned strong_count id s.contexts;
    detached_spans = remove_if_unowned strong_count id s.detached_spans;
  }

  unfoldable pub remove_context_instance : Storage C → ℕ → Storage C
  remove_context_instance s id = record s {
    contexts = erase id_eq id s.contexts;
    detached_spans = erase id_eq id s.detached_spans;
  }

  -- The flag says whether the context's span is valid and recording.
  unfoldable pub move_detached_span_context : (C → Bool) → Storage C → ℕ → Storage C
  move_detached_span_context is_live s id = elim (find id_eq id s.contexts) [
    | none ↦ s
    | some context ↦ record s {
      contexts = erase id_eq id s.contexts;
      detached_spans =
          if is_live context then insert id_eq id context s.detached_spans else s.detached_spans;
    }
  ]

  unfoldable pub attach_context : Storage C → Option ℕ → Result Bytes (Storage C)
  unfolding get_context_instance
  attach_context s none = err (codes "No context id provided")
  attach_context s (some id) = elim (get_context_instance s (some id)) [
    | none ↦ err (codes "Context not found")
    | some context ↦
        let s' = set_active_stack s ((id, context) ∷ active_stack s) in
        ok (record s' { guards = (id, context) ∷ s.guards })
  ]

  -- The status of `detach_context` behind the test of the execution, and the guards it leaves.
  unfoldable pub pop_guard : ℕ → ContextStack C → ℤ × ContextStack C
  pop_guard id [] = (status_inactive, [])
  pop_guard id ((stack_id, context) ∷ guards) =
      if not (stack_id == id)
      then (status_mismatch, (stack_id, context) ∷ guards)
      else (pos 0, guards)

  -- `if stack.last().is_some_and(...) { stack.pop(); }`.
  unfoldable pub pop_stack : ℕ → ContextStack C → ContextStack C
  pop_stack id [] = []
  pop_stack id ((stack_id, context) ∷ stack) =
      if stack_id == id then stack else (stack_id, context) ∷ stack

  unfoldable pub detach_context : (C → Bool) → Storage C → Option ℕ → ExecutionId → ℤ × Storage C
  unfolding pop_guard pop_stack move_detached_span_context
  detach_context is_live s none execution = (status_detached, s)
  detach_context is_live s (some id) execution =
      let (status, guards) = pop_guard id s.guards in
      let s' = record s { guards = guards } in
      let popped = set_active_stack s' (pop_stack id (active_stack s')) in
      if not (same_execution s.execution execution)
      then (status_inactive, s)
      else if is_zero status
      then (status, move_detached_span_context is_live popped id)
      else (status, s')

  unfoldable pub fork_execution : Storage C → Bytes → Storage C
  fork_execution s id = record s { forks = insert bytes_eq id (active_stack s) s.forks }

  -- The guards are popped one by one and those of the new stack pushed, from its bottom up.
  unfoldable pub switch_execution : Storage C → Bytes → Storage C
  switch_execution s id = elim (find bytes_eq id s.forks) [
    | some stack ↦ record s { guards = stack; execution = some id }
    | none ↦ record s { guards = s.main; execution = none }
  ]

  unfoldable pub destroy_execution : Storage C → Bytes → Storage C
  destroy_execution s id =
      if not (same_execution s.execution (some id))
      then record s { forks = erase bytes_eq id s.forks }
      else s
