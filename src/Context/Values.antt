-- ===== src/Context/Values.antt =====
-- otel/src/context/native_context.rs, and the methods with, get and activate of
-- otel/src/context/context_class.rs. A context of the SDK is a value of a type `C` and a PHP value one of a type `V`; a key is its object's
-- handle. The unpacking of a method's arguments and the custom storage are left out.
use otel_php_rust.Prelude.{
  ℕ, Bool, false, Option, none, some, [], if◌then◌else◌, get_or, or_else, option_map,
}
use otel_php_rust.Prelude.Bytes.{Bytes, codes}
use otel_php_rust.Prelude.Results.{Result, ok, err}
use otel_php_rust.Prelude.Maps.{Map, find, insert, erase}
use otel_php_rust.Context.Storage.{
  id_eq, Storage, get_context_instance, store_context_instance, attach_context, current_context,
  current_context_instance_id,
}
use otel_php_rust.Context.Scope.{get_instance_id, ScopeState}

pub record NativeContext {ℓ} (C V : Type ℓ) : Type ℓ where
  pub context : C
  pub values : Map ℕ (V × V)

-- `Context` objects: their state, and the property `context_id`.
pub record ContextObject {ℓ} (C V : Type ℓ) : Type ℓ where
  pub state : Option (NativeContext C V)
  pub context_id : ℕ

abbrev pub missing_state : Bytes
missing_state = codes "Context object has no native context state"

module _ {ℓ} {C V : Type ℓ} where
  unfoldable pub new_native : C → NativeContext C V
  new_native context = record { context = context; values = [] }

  unfoldable pub with_context : NativeContext C V → C → NativeContext C V
  with_context this context = record { context = context; values = this.values }

  unfoldable pub value : NativeContext C V → ℕ → Option V
  value this handle = option_map (λ (e : V × V). e.1) (find id_eq handle this.values)

  -- The context that an object stands for, or that its id finds in the storage.
  abbrev pub native_of :
      Storage (NativeContext C V) → ContextObject C V → Option (NativeContext C V)
  native_of s this = or_else this.state (get_context_instance s (get_instance_id this.context_id))

  unfoldable pub init_context_object : NativeContext C V → Option ℕ → ContextObject C V
  init_context_object context instance_id = record {
    state = some context;
    context_id = get_or instance_id 0;
  }

  -- Without a custom storage; `sdk` is `Context::current()` of the SDK.
  unfoldable pub current_context_value :
      NativeContext C V → Storage (NativeContext C V) → ContextObject C V
  current_context_value sdk s =
      init_context_object (current_context sdk s) (current_context_instance_id s)

  abbrev pub scope_of :
      NativeContext C V → ℕ → Storage (NativeContext C V) → ScopeState (NativeContext C V)
  scope_of context id s = record {
    context = some context;
    execution_id = s.execution;
    is_detached = false;
    context_id = id;
  }

  -- The method `activate`: the object, the scope and the storage behind it.
  unfoldable pub activate :
      Storage (NativeContext C V)
      → ContextObject C V
      → Result Bytes
          (ContextObject C V × ScopeState (NativeContext C V) × Storage (NativeContext C V))
  activate s this = elim (this.state) [
    | none ↦ err missing_state
    | some context ↦
        let (id, stored) = store_context_instance s context in
        elim (attach_context stored (some id)) [
          | err e ↦ err e
          | ok s' ↦ ok (record this { context_id = id }, scope_of context id s', s')
        ]
  ]

  -- `null` is the default of a value.
  module _ (null : V) (is_null : V → Bool) where
    unfoldable pub with_value : NativeContext C V → ℕ → V → V → NativeContext C V
    with_value this handle key new =
        if is_null new
        then record this { values = erase id_eq handle this.values }
        else record this { values = insert id_eq handle (key, new) this.values }

    -- The methods `with` and `get`, on the context that the object stands for.
    abbrev pub with_found :
        Option (NativeContext C V) → ℕ → V → V → Result Bytes (ContextObject C V)
    with_found none handle key new = err missing_state
    with_found (some context) handle key new =
        ok (init_context_object (with_value context handle key new) none)

    abbrev pub get_found : Option (NativeContext C V) → ℕ → Result Bytes V
    get_found none handle = err missing_state
    get_found (some context) handle = ok (get_or (value context handle) null)

    unfoldable pub with_entry :
        Storage (NativeContext C V)
        → ContextObject C V
        → ℕ
        → V
        → V
        → Result Bytes (ContextObject C V)
    with_entry s this handle key new = with_found (native_of s this) handle key new

    unfoldable pub entry_value :
        Storage (NativeContext C V) → ContextObject C V → ℕ → Result Bytes V
    entry_value s this handle = get_found (native_of s this) handle
