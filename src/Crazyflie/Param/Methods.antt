-- ===== src/Crazyflie/Param/Methods.antt =====
-- The methods of the class `Parameters` of aiocflib/crazyflie/param.py.
pub mod Settings
pub mod Persistence
pub mod Restoring
use aiocflib.Prelude.{
  ℕ, zero, suc, ◌+◌, ◌-◌, ◌*◌, ◌/◌, ◌%◌, Bool, true, false, List, [], ◌∷◌, ◌++◌, Option, none, some,
  Result, ok, err, bind, key_error, value_error, index_error, runtime_error, attribute_error,
  type_error, ltb, ◌==◌, if◌then◌else◌, Bytes, bytes_eq, length, take, drop, le_value, slice,
  lookup, insert,
}
use aiocflib.Prelude.Exec.{Exec, pure, raise, lift, finally, ◌>>=◌, ◌>>◌}
use aiocflib.Crtp.Command.{Request, CommandLike, Part, one, parts, byte, chunk}
use aiocflib.Utils.Toc.Namespaces.{TocCache}
use aiocflib.Utils.Toc.Fetching.{fetch_gracefully}
use aiocflib.Crazyflie.Client.{Crazyflie}
use aiocflib.Crazyflie.Param.Handler.{
  toc_channel, read_channel, write_channel, misc_channel, Parameters, index_parts, request,
  misc_request, by_name, find_variable, cached, put_value, toc_info, spec_reply, value_reply,
  set_reply, status_reply, default_reply, PersistentParamState, persistence_reply,
}
use aiocflib.Crazyflie.Names.{Text, ascii}
use aiocflib.Crazyflie.Param.{
  ParameterSpecification, from_bytes, to_bytes, full_name, encode_value, parse_value,
  encoded_length, type_struct,
}
use aiocflib.Crazyflie.Values.{Value, Floats, nonneg, pack}

has_dot : Text → Bool
has_dot [] = false
has_dot (c ∷ cs) = let rest = has_dot cs in if c == 46 then true else rest

-- The parts before and after the last dot; without one, the first part is empty.
unfoldable pub rpartition : Text → Text × Text
unfolding has_dot
rpartition [] = ([], [])
rpartition (c ∷ cs) =
    let (group, name) = rpartition cs in
    if has_dot cs then (c ∷ group, name) else if c == 46 then ([], cs) else ([], c ∷ cs)

module _ {S F : Type 0} (cf : Crazyflie S F) where
  open cf use {floats, cache}

  -- A command of the Crazyflie leaves what the handler knows alone.
  unfoldable pub on_device : {A : Type 0} → Exec S A → Exec (Parameters S F) A
  on_device m s = let (r, t) = m s.device in (r, record s { device = t })

  unfoldable pub run : Request → Exec (Parameters S F) Bytes
  unfolding on_device
  run r = on_device (cf.run_command r)

  get_table_of_contents_info : Exec S (ℕ × ℕ)
  get_table_of_contents_info = do
    response ← cf.run_command (request toc_channel (one 3) [])
    lift (toc_info response)

  get_parameter_spec_by_index : ℕ → Exec S ParameterSpecification
  get_parameter_spec_by_index index = do
    response ← cf.run_command (request toc_channel (parts (byte 2 ∷ index_parts index)) [])
    lift (spec_reply index response)

  -- `validate` with `_validate`
  unfoldable pub validate : Exec (Parameters S F) (Unit {0})
  unfolding on_device get_table_of_contents_info get_parameter_spec_by_index by_name
      fetch_gracefully
  validate s = elim s.variables [
    | some known ↦ (ok tt, s)
    | none ↦
        let (fetched, s') =
          on_device
            (fetch_gracefully get_table_of_contents_info get_parameter_spec_by_index from_bytes
              to_bytes cache)
            s in
        elim fetched [
          | err e ↦ (err e, s')
          | ok all ↦ (ok tt, record s' { variables = some (all, by_name all []); values = some [] })
        ]
  ]

  -- `self._variables_by_name[name]`
  unfoldable pub variable : Text → Exec (Parameters S F) ParameterSpecification
  unfolding find_variable
  variable name s = (find_variable name s.variables, s)

  unfoldable pub fetch : Text → Exec (Parameters S F) (Value F)
  unfolding validate variable run parse_value
  fetch name = do
    validate
    parameter ← variable name
    response ← run (request read_channel (parts (index_parts parameter.id)) [])
    bs ← lift (value_reply response)
    lift (parse_value floats parameter bs)

  unfoldable pub get : Text → Bool → Exec (Parameters S F) (Value F)
  unfolding fetch cached put_value
  get name force s = elim (if force then none else cached name s.values) [
    | some v ↦ (ok v, s)
    | none ↦ (do v ← fetch name; put_value name v; pure v) s
  ]

  set_variable : Text → Value F → ParameterSpecification → Exec (Parameters S F) (Unit {0})
  unfolding run encode_value parse_value put_value
  set_variable name v parameter = if parameter.read_only then raise attribute_error else (do
    encoded ← lift (encode_value floats parameter v)
    response ← run (request write_channel (parts (index_parts parameter.id)) encoded)
    bs ← lift (set_reply response)
    w ← lift (parse_value floats parameter bs)
    put_value name w)

  unfoldable pub set : Text → Value F → Exec (Parameters S F) (Unit {0})
  unfolding validate variable set_variable
  set name v = do validate; parameter ← variable name; set_variable name v parameter

  unfoldable pub trigger : Text → Exec (Parameters S F) (Unit {0})
  unfolding set
  trigger name = set name (nonneg 1)

  unfoldable pub has : Text → Exec (Parameters S F) Bool
  unfolding validate find_variable
  has name = do
    validate
    λ s. (elim (find_variable name s.variables) [ ok p ↦ ok true | err e ↦ ok false ], s)

  -- The body of `set_and_restore`: what runs inside the context is a parameter. The last `set` runs
  -- whatever was raised before it, and what it raises takes the place of that.
  unfoldable pub set_and_restore :
      {A : Type 0}
      → Text
      → Value F
      → Option (Value F)
      → Bool
      → Exec (Parameters S F) A
      → Exec (Parameters S F) A
  unfolding get set
  set_and_restore name v restore_to force body = do
    old ← elim restore_to [ some w ↦ pure w | none ↦ get name force ]
    finally (set name v >> body) (set name old)

  misc : ℕ → Text → Exec (Parameters S F) (Unit {0})
  unfolding validate variable run
  misc command name = do
    validate
    parameter ← variable name
    response ← run (misc_request command parameter.id)
    lift (status_reply response)

  -- `persist` and `clear_persisted_value`
  unfoldable pub persist : Text → Exec (Parameters S F) (Unit {0})
  unfolding misc
  persist = misc 3

  unfoldable pub clear_persisted_value : Text → Exec (Parameters S F) (Unit {0})
  unfolding misc
  clear_persisted_value = misc 5

  unfoldable pub get_default : Text → Exec (Parameters S F) (Value F)
  unfolding validate variable run parse_value
  get_default name = do
    validate
    parameter ← variable name
    if parameter.read_only then raise runtime_error else (do
      response ← run (misc_request 6 parameter.id)
      bs ← lift (default_reply response)
      lift (parse_value floats parameter bs))

  unfoldable pub get_persistence_state : Text → Exec (Parameters S F) (PersistentParamState F)
  unfolding validate variable run persistence_reply
  get_persistence_state name = do
    validate
    parameter ← variable name
    response ← run (misc_request 4 parameter.id)
    lift (persistence_reply floats parameter response)

  -- `set_fast`, with the type resolved by `ParameterType.to_type`. The command has the group and the name,
  -- each with a NUL, and the data the type and the value.
  unfoldable pub set_fast : Text → ℕ → Value F → Exec (Parameters S F) (Unit {0})
  unfolding ascii rpartition run pack type_struct
  set_fast name type v = do
    encoded_name ← lift (ascii name)
    struct ← lift (type_struct type)
    encoded ← lift (pack floats struct v)
    response ← run (
        request misc_channel
          (parts (
            byte 0
            ∷ chunk (rpartition encoded_name).0
            ∷ byte 0
            ∷ chunk (rpartition encoded_name).1
            ∷ byte 0
            ∷ []))
          (type ∷ encoded))
    lift (elim response [
      | [] ↦ err value_error
      | b ∷ bs ↦ if b == 0 then ok tt else err value_error
    ])
