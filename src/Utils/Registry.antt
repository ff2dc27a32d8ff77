-- ===== src/Utils/Registry.antt =====
-- The class `Registry` of aiocflib/utils/registry.py. A registered value is tested for truth, which is a
-- parameter of its type.
use aiocflib.Prelude.{
  ◌≡◌, ◌≢◌, refl, Bool, true, false, List, Option, none, some, Result, ok, err, key_error,
  value_error, if◌then◌else◌, lookup, insert, lookup-insert, lookup-insert_other, bytes_eq,
  bytes_eq_iff,
}
use aiocflib.Crazyflie.Names.{Text}

abbrev pub Registry : Type 0 → Type 0
Registry T = List (Text × T)

-- What `find` gives for a missing key: the default, if there is one.
abbrev or_default : {T : Type 0} → Option T → Result T
or_default none = err key_error
or_default (some d) = ok d

module _ {T : Type 0} (truth : T → Bool) where
  unfoldable pub find : Text → Option T → Registry T → Result T
  unfolding lookup
  find key default items = elim (lookup bytes_eq key items) [
    | some value ↦ ok value
    | none ↦ or_default default
  ]

  unfoldable pub is_taken : Option T → Bool
  is_taken none = false
  is_taken (some existing) = truth existing

  -- `register` with a value, which comes back with the changed items.
  unfoldable pub register : Text → T → Registry T → Result (T × Registry T)
  unfolding lookup insert is_taken
  register key value items =
      if is_taken (lookup bytes_eq key items)
      then err value_error
      else ok (value, insert bytes_eq key value items)

  -- The decorator that `register` returns without a value.
  unfoldable pub decorator : Text → Option T → Registry T → Result (T × Registry T)
  unfolding register
  decorator key none items = err value_error
  decorator key (some value) items = register key value items

  -- Under a key that has no true value, a value is registered: it is then found, with any default; the other
  -- keys have what they had; and if it is true itself, then nothing more is registered under its key.
  pub register-find :
      (key : Text) (value : T) (items : Registry T)
      → is_taken (lookup bytes_eq key items) ≡ false
      → (after : Registry T) × (register key value items ≡ ok (value, after))
        × ((default : Option T) → find key default after ≡ ok value)
        × ((other : Text) (default : Option T)
            → key ≢ other
            → find other default after ≡ find other default items)
        × (truth value ≡ true → (again : T) → register key again after ≡ err value_error)
  unfolding register find is_taken
  register-find key value items free =
      let after = insert bytes_eq key value items in
      let found = lookup-insert bytes_eq bytes_eq_iff key value items in
      (
        after,
        rw free refl,
        λ default. rw (found, find) refl,
        λ other default ne.
            rw (lookup-insert_other bytes_eq bytes_eq_iff key other value items ne, find) refl,
        λ t again. rw (found, is_taken) (rw t refl),
      )
