-- ===== src/Crazyflie/Param/Methods/Restoring.antt =====
-- `set_and_restore` of `Parameters`: the value that is kept after the context is left.
use aiocflib.Prelude.{ℕ, ◌≡◌, refl, false, List, ◌∷◌, none, some, ok, Bytes, ap}
use aiocflib.Prelude.Exec.{after_all, Exec, ◌>>◌, continue}
use aiocflib.Crtp.Command.{parts}
use aiocflib.Crazyflie.Names.{Text}
use aiocflib.Crazyflie.Param.{ParameterSpecification, type_struct, encode_value, Option, Bool}
use aiocflib.Crazyflie.Values.{Struct, Value}
use aiocflib.Crazyflie.Values.Integers.{IntegerStruct}
use aiocflib.Crazyflie.Client.{Crazyflie}
use aiocflib.Crazyflie.Param.Handler.{
  write_channel, Parameters, index_parts, request, find_variable,
}
use aiocflib.Crazyflie.Param.Methods.{get, set, set_and_restore, pure, finally}
use aiocflib.Crazyflie.Param.Methods.Settings.{set-get}

module _ {S F : Type 0} (cf : Crazyflie S F) where
  open cf use {floats}

  -- What the context restores: `restore_to`, or what `get` gives before the context is entered.
  abbrev pub to_restore : Text → Option (Value F) → Bool → Exec (Parameters S F) (Value F)
  to_restore name (some w) fetch = pure w
  to_restore name none fetch = get cf name fetch

  restore_lem :
      {A : Type 0} (name : Text) (v w : Value F) (restore_to : Option (Value F)) (fetch : Bool)
      (body : Exec (Parameters S F) A) (s s0 : Parameters S F)
      → to_restore name restore_to fetch s ≡ (ok w, s0)
      → let entered = (set cf name v >> body) s0 in
        set_and_restore cf name v restore_to fetch body s
        ≡ (after_all entered.0 (set cf name w entered.1).0, (set cf name w entered.1).1)
  unfolding set_and_restore
  restore_lem name v w (some x) fetch body s s0 e =
      ap (λ q. continue q.0 (λ old. finally (set cf name v >> body) (set cf name old)) q.1) e
  restore_lem name v w none fetch body s s0 e =
      ap (λ q. continue q.0 (λ old. finally (set cf name v >> body) (set cf name old)) q.1) e

  -- A context of `set_and_restore` whose body may raise. The value to restore is `restore_to`, or without it
  -- the one that `get` gives on entry, kept or fetched. What the context returns or raises is what the
  -- first `set` and the body return or raise, and `get` then gives the value to restore, from the copy
  -- that is kept. The table is known when the body ends and copies of the values are kept, the parameter is
  -- of an integer type and not read-only, the value to restore fits it, and the device answers the write
  -- of its bytes by these bytes.
  pub set_and_restore-get :
      {A : Type 0} (name : Text) (v w : Value F) (restore_to : Option (Value F)) (fetch : Bool)
      (body : Exec (Parameters S F) A) (s s0 : Parameters S F)
      (known : List ParameterSpecification × List (Text × ParameterSpecification))
      (p : ParameterSpecification) (values : List (Text × Value F)) (t : Struct) (b : ℕ)
      (bs : Bytes)
      → to_restore name restore_to fetch s ≡ (ok w, s0)
      → ((set cf name v >> body) s0).1.variables ≡ some known
      → ((set cf name v >> body) s0).1.values ≡ some values
      → find_variable name (some known) ≡ ok p
      → p.read_only ≡ false
      → type_struct p.type ≡ ok t
      → IntegerStruct t
      → encode_value floats p w ≡ ok (b ∷ bs)
      → ((d : S)
          → (cf.run_command (request write_channel (parts (index_parts p.id)) (b ∷ bs)) d).0
            ≡ ok (b ∷ bs))
      → ((set_and_restore cf name v restore_to fetch body s).0 ≡ ((set cf name v >> body) s0).0)
        × (let s' = (set_and_restore cf name v restore_to fetch body s).1 in
            get cf name false s' ≡ (ok w, s'))
  set_and_restore-get name v w restore_to fetch body s s0 known p values t b bs c e e' f r i j k
        echo =
      let left = ((set cf name v >> body) s0).1 in
      let (done, kept) =
        set-get cf name w left known p values t b bs e e' f r i j k (echo left.device) in
      rw (restore_lem name v w restore_to fetch body s s0 c) (rw done refl, kept)
