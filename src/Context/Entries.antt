-- ===== src/Context/Entries.antt =====
-- What a context object holds behind the method `with`.
use otel_php_rust.Prelude.{
  ℕ, Bool, true, false, Option, none, some, ◌≡◌, refl, sym, ap, ◌∙◌, ◌==◌, if◌then◌else◌, get_or,
  inl, inr, Bool-cases, arith, ==_iff,
}
use otel_php_rust.Prelude.Bytes.{Bytes}
use otel_php_rust.Prelude.Results.{Result, ok}
use otel_php_rust.Prelude.Maps.{IsTest, find-insert_any, find-erase_any}
use otel_php_rust.Context.Storage.{id_eq, Storage}
use otel_php_rust.Context.Values.{
  NativeContext, ContextObject, native_of, value, with_value, with_entry, entry_value,
  init_context_object, with_found, get_found,
}

id_eq-IsTest : IsTest id_eq
id_eq-IsTest = record { same_refl = λ k. ground arith; same_iff = ==_iff }

ok_of_if {ℓ} :
    {V : Type ℓ} (b : Bool) (x y : V)
    → Path (Result Bytes V) (ok (if b then x else y)) (if b then ok x else ok y)
ok_of_if true x y = refl
ok_of_if false x y = refl

module _ {ℓ} {C V : Type ℓ} (null : V) (is_null : V → Bool) where
  module _ (only_null : (v : V) → is_null v ≡ true → v ≡ null) where
    -- A key reads as the value that was stored last.
    value-with_value :
        (this : NativeContext C V) (handle other : ℕ) (key new : V)
        → get_or (value (with_value null is_null this handle key new) other) null
          ≡ (if handle == other then new else get_or (value this other) null)
    unfolding value with_value
    value-with_value this handle other key new = elim (Bool-cases (is_null new)) [
      | inl e ↦
          rw (e, find-erase_any id_eq id_eq-IsTest handle other this.values)
            (elim (Bool-cases (handle == other)) [
              | inl this' ↦ rw this' (sym (only_null new e))
              | inr that ↦ rw that refl
            ])
      | inr e ↦
          rw (e, find-insert_any id_eq id_eq-IsTest handle other (key, new) this.values)
            (elim (Bool-cases (handle == other)) [
              | inl this' ↦ rw this' refl
              | inr that ↦ rw that refl
            ])
    ]

    entry_value-with_found :
        (later : Storage (NativeContext C V)) (found : Option (NativeContext C V))
        (changed : ContextObject C V) (handle other : ℕ) (key new : V)
        → with_found null is_null found handle key new ≡ ok changed
        → entry_value null is_null later changed other
          ≡ (if handle == other then ok new else get_found null is_null found other)
    unfolding entry_value init_context_object
    entry_value-with_found later none changed handle other key new h = absurd (cc h)
    entry_value-with_found later (some context) changed handle other key new h =
        let made : init_context_object (with_value null is_null context handle key new) none
            ≡ changed =
          cc h in
        ap (λ x. entry_value null is_null later x other) (sym made)
        ∙ ap ok (value-with_value context handle other key new)
        ∙ ok_of_if (handle == other) new _

    -- If `with` returns a context object, `get` reads the new value under its key and what the old
    -- object held under every other key, whatever the storage holds by then; a null value reads as
    -- the default, where null is the only value that is null.
    pub entry_value-with_entry :
        (s later : Storage (NativeContext C V)) (this changed : ContextObject C V)
        (handle other : ℕ) (key new : V)
        → with_entry null is_null s this handle key new ≡ ok changed
        → entry_value null is_null later changed other
          ≡ (if handle == other then ok new else entry_value null is_null s this other)
    unfolding with_entry entry_value
    entry_value-with_entry s later this changed handle other key new h =
        entry_value-with_found later (native_of s this) changed handle other key new h
