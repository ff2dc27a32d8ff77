-- ===== src/Crazyflie/Param/Methods/Settings.antt =====
-- What `get` and `set` of `Parameters` do to the values that the handler keeps.
use aiocflib.Prelude.{
  ℕ, ◌≡◌, refl, ap, ◌∙◌, Bool, true, false, List, ◌∷◌, Option, none, some, ok, err, of_ok,
  Option-cases, attribute_error, if◌then◌else◌, Bytes, bytes_eq, bytes_eq_iff, lookup-insert, inl,
  inr, arith,
}
use aiocflib.Prelude.Exec.{Exec, pure, ◌>>=◌, ◌>>◌, continue-ok}
use aiocflib.Crtp.Command.{parts}
use aiocflib.Crazyflie.Names.{Text}
use aiocflib.Crazyflie.Param.{ParameterSpecification, type_struct, encode_value}
use aiocflib.Crazyflie.Values.{Struct, Value}
use aiocflib.Crazyflie.Param.Values.{encode_value-parse_value}
use aiocflib.Crazyflie.Values.Integers.{IntegerStruct}
use aiocflib.Crazyflie.Client.{Crazyflie}
use aiocflib.Crazyflie.Param.Handler.{
  write_channel, Parameters, index_parts, request, find_variable, cached, put_value,
}
use aiocflib.Crazyflie.Param.Methods.{validate, variable, run, fetch, get, set, set_variable}

unforced {ℓ} :
    {A : Type ℓ} (force : Bool) (o : Option A) (a : A)
    → (if force then none else o) ≡ some a
    → o ≡ some a
unforced true o a h = absurd (ground arith)
unforced false o a h = h

module _ {S F : Type 0} (cf : Crazyflie S F) where
  open cf use {floats}

  cached-put_value :
      (name : Text) (v : Value F) (s : Parameters S F)
      → (put_value name v s).0 ≡ ok tt
      → cached name (put_value name v s).1.values ≡ some v
  unfolding put_value cached
  cached-put_value name v s h = elim (Option-cases s.values) [
    | inl e ↦ absurd (ground (arith, e, h))
    | inr (values, e) ↦ rw (e, put_value) (lookup-insert bytes_eq bytes_eq_iff name v values)
  ]

  put_value_ok :
      (name : Text) (v : Value F) (s : Parameters S F) (values : List (Text × Value F))
      → s.values ≡ some values
      → (put_value name v s).0 ≡ ok tt
  unfolding put_value
  put_value_ok name v s values e = rw (e, put_value) refl

  pub get-cached :
      (name : Text) (v : Value F) (s : Parameters S F)
      → cached name s.values ≡ some v
      → get cf name false s ≡ (ok v, s)
  unfolding get
  get-cached name v s h = rw (h, get) refl

  fetched_get : Text → Exec (Parameters S F) (Value F)
  fetched_get name = do v ← fetch cf name; put_value name v; pure v

  cached-fetched_get :
      (name : Text) (v : Value F) (s : Parameters S F)
      → (fetched_get name s).0 ≡ ok v
      → cached name (fetched_get name s).1.values ≡ some v
  unfolding fetched_get
  cached-fetched_get name v s h =
      let s₁ = (fetch cf name s).1 in
      let (w, e, h₁) = continue-ok (fetch cf name s).0 _ s₁ h in
      let (done, e₁, h₂) = continue-ok (put_value name w s₁).0 _ (put_value name w s₁).1 h₁ in
      rw (e, e₁) (cached-put_value name w s₁ e₁ ∙ ap some (let q : w ≡ v = ground arith in q))

  -- A `get` that returned a value, also a forced one, is followed by a `get` of the cached copy: it gives
  -- the same value and leaves the state as it is, so that nothing is sent.
  pub get-get :
      (name : Text) (force : Bool) (v : Value F) (s : Parameters S F)
      → (get cf name force s).0 ≡ ok v
      → let s' = (get cf name force s).1 in get cf name false s' ≡ (ok v, s')
  unfolding get fetched_get
  get-get name force v s h = elim (Option-cases (if force then none else cached name s.values)) [
    | inl e ↦
        let step : get cf name force s ≡ fetched_get name s = rw (e, get) refl in
        rw step (get-cached name v _ (cached-fetched_get name v s (rw step at h)))
    | inr (w, e) ↦
        let step : get cf name force s ≡ (ok w, s) = rw (e, get) refl in
        let same : ok w ≡ ok v = rw step at h in
        rw step (
          get-cached name v s
            (of_ok (λ x. cached name s.values ≡ some x) same (unforced force _ _ e)))
  ]

  validate_known :
      (s : Parameters S F)
      (known : List ParameterSpecification × List (Text × ParameterSpecification))
      → s.variables ≡ some known
      → validate cf s ≡ (ok tt, s)
  unfolding validate
  validate_known s known e = ground (arith, e)

  set_known :
      (name : Text) (v : Value F) (s : Parameters S F)
      (known : List ParameterSpecification × List (Text × ParameterSpecification))
      (p : ParameterSpecification)
      → s.variables ≡ some known
      → find_variable name (some known) ≡ ok p
      → set cf name v s ≡ set_variable cf name v p s
  unfolding set variable
  set_known name v s known p e f =
      let found : find_variable name s.variables ≡ ok p = ap (find_variable name) e ∙ f in
      rw (validate_known s known e) (rw found refl)

  -- When the table is known, setting a read-only parameter raises `AttributeError`, sends nothing and
  -- changes nothing.
  pub set_read_only :
      (name : Text) (v : Value F) (s : Parameters S F)
      (known : List ParameterSpecification × List (Text × ParameterSpecification))
      (p : ParameterSpecification)
      → s.variables ≡ some known
      → find_variable name (some known) ≡ ok p
      → p.read_only ≡ true
      → set cf name v s ≡ (err attribute_error, s)
  unfolding set_variable
  set_read_only name v s known p e f r = set_known name v s known p e f ∙ rw (r, set_variable) refl

  -- When the table is known and has an integer parameter that is not read-only under a name, the copies of
  -- the values are kept, the value fits the type, and the device answers the write of the value's bytes by
  -- these bytes: setting the parameter to this value succeeds, and `get` then gives the value from the
  -- copy that is kept, and leaves the state as it is.
  pub set-get :
      (name : Text) (v : Value F) (s : Parameters S F)
      (known : List ParameterSpecification × List (Text × ParameterSpecification))
      (p : ParameterSpecification) (values : List (Text × Value F)) (t : Struct) (b : ℕ)
      (bs : Bytes)
      → s.variables ≡ some known
      → s.values ≡ some values
      → find_variable name (some known) ≡ ok p
      → p.read_only ≡ false
      → type_struct p.type ≡ ok t
      → IntegerStruct t
      → encode_value floats p v ≡ ok (b ∷ bs)
      → (cf.run_command (request write_channel (parts (index_parts p.id)) (b ∷ bs)) s.device).0
        ≡ ok (b ∷ bs)
      → ((set cf name v s).0 ≡ ok tt)
        × (let s' = (set cf name v s).1 in get cf name false s' ≡ (ok v, s'))
  unfolding set_variable run
  set-get name v s known p values t b bs e e' f r i j k w =
      let back = encode_value-parse_value floats p t v (b ∷ bs) i j k in
      let s₁ : Parameters S F = record s {
        device =
            (cf.run_command (request write_channel (parts (index_parts p.id)) (b ∷ bs)) s.device).1;
      } in
      let step : set cf name v s ≡ put_value name v s₁ =
        set_known name v s known p e f
        ∙ rw (r, set_variable)
            (rw (k, set_variable) (rw (w, set_variable) (rw (back, set_variable) refl))) in
      let done : (put_value name v s₁).0 ≡ ok tt = put_value_ok name v s₁ values e' in
      rw step (done, get-cached name v _ (cached-put_value name v s₁ done))
