-- ===== src/Crazyflie/Param/Handler.antt =====
-- The class `Parameters` of aiocflib/crazyflie/param.py: the table of parameters, their values, and the
-- commands of the parameter service. `S` is the state of the device and of the cache of tables.
use aiocflib.Prelude.{
  ℕ, ◌+◌, ◌/◌, ◌%◌, List, [], ◌∷◌, Option, none, some, Result, ok, err, bind, key_error,
  value_error, index_error, runtime_error, type_error, ltb, ◌==◌, if◌then◌else◌, Bytes, bytes_eq,
  length, take, drop, le_value, slice, lookup, insert,
}
use aiocflib.Prelude.Exec.{Exec}
use aiocflib.Crtp.Command.{Request, CommandLike, Part, parts, byte}
use aiocflib.Crazyflie.Names.{Text}
use aiocflib.Crazyflie.Param.{
  ParameterSpecification, from_bytes, full_name, parse_value, encoded_length,
}
use aiocflib.Crazyflie.Values.{Value, Floats}

-- The CRTP port, the channels and the commands of the parameter service.
abbrev pub parameters_port : ℕ
parameters_port = 2

abbrev pub toc_channel : ℕ
toc_channel = 0

abbrev pub read_channel : ℕ
read_channel = 1

abbrev pub write_channel : ℕ
write_channel = 2

abbrev pub misc_channel : ℕ
misc_channel = 3

-- `errno.ENOENT`
abbrev pub enoent : ℕ
enoent = 2

-- `_variables` with `_variables_by_name`, and `_values`; the first two are set together.
pub record Parameters (S F : Type 0) : Type 0 where
  pub device : S
  pub variables : Option (List ParameterSpecification × List (Text × ParameterSpecification))
  pub values : Option (List (Text × Value F))

-- The number of the parameter in two bytes: `index & 0xFF, index >> 8`.
abbrev pub index_parts : ℕ → List Part
index_parts index = byte (index % 256) ∷ byte (index / 256) ∷ []

abbrev pub request : ℕ → CommandLike → Bytes → Request
request channel command bs = record {
  port = parameters_port;
  channel = channel;
  command = some command;
  payload = bs;
}

abbrev pub misc_request : ℕ → ℕ → Request
misc_request command index = request misc_channel (parts (byte command ∷ index_parts index)) []

-- `{parameter.full_name: parameter for parameter in parameters}`
unfoldable pub by_name :
    List ParameterSpecification
    → List (Text × ParameterSpecification)
    → List (Text × ParameterSpecification)
unfolding insert full_name
by_name [] table = table
by_name (p ∷ ps) table = by_name ps (insert bytes_eq (full_name p) p table)

unfoldable pub find_variable :
    Text
    → Option (List ParameterSpecification × List (Text × ParameterSpecification))
    → Result ParameterSpecification
unfolding lookup
find_variable name none = err type_error
find_variable name (some (all, table)) = elim (lookup bytes_eq name table) [
  | none ↦ err key_error
  | some p ↦ ok p
]

-- `self._values.get(name) if self._values is not None else None`
unfoldable pub cached : {F : Type 0} → Text → Option (List (Text × Value F)) → Option (Value F)
unfolding lookup
cached name none = none
cached name (some values) = lookup bytes_eq name values

-- `self._values[name] = value`
unfoldable pub put_value : {S F : Type 0} → Text → Value F → Exec (Parameters S F) (Unit {0})
unfolding insert
put_value name v s = elim s.values [
  | none ↦ (err type_error, s)
  | some values ↦ (ok tt, record s { values = some (insert bytes_eq name v values) })
]

-- The reply to `READ_TOC_INFO_V2`: `Struct("<HI").unpack(response)`.
abbrev pub toc_info : Bytes → Result (ℕ × ℕ)
toc_info bs =
    if length bs == 6
    then ok (le_value (slice 0 2 bs), le_value (slice 2 4 bs))
    else err value_error

-- The reply to `READ_PARAMETER_DETAILS_V2`.
abbrev pub spec_reply : ℕ → Bytes → Result ParameterSpecification
spec_reply index [] = err index_error
spec_reply index (b ∷ bs) = from_bytes (b ∷ bs) index

-- The replies to the other commands.
abbrev pub value_reply : Bytes → Result Bytes
value_reply [] = err index_error
value_reply (b ∷ []) = err value_error
value_reply (b ∷ c ∷ bs) = ok (c ∷ bs)

abbrev pub set_reply : Bytes → Result Bytes
set_reply [] = err index_error
set_reply (b ∷ bs) = ok (b ∷ bs)

abbrev pub status_reply : Bytes → Result (Unit {0})
status_reply [] = err value_error
status_reply (b ∷ bs) = if b == 0 then ok tt else err runtime_error

abbrev pub default_reply : Bytes → Result Bytes
default_reply [] = err index_error
default_reply (b ∷ bs) =
    if b == 0 then elim bs [ [] ↦ err value_error | c ∷ cs ↦ ok (c ∷ cs) ] else err runtime_error

pub record PersistentParamState (F : Type 0) : Type 0 where
  pub default_value : Value F
  pub stored_value : Option (Value F)

-- The reply to `PERSISTENT_GET_STATE`: a single byte is an error code. The byte in front says whether a
-- stored value follows the default value.
unfoldable pub persistence_reply :
    {F : Type 0} → Floats F → ParameterSpecification → Bytes → Result (PersistentParamState F)
unfolding encoded_length parse_value
persistence_reply floats p [] = err index_error
persistence_reply floats p (b ∷ []) = err runtime_error
persistence_reply floats p (b ∷ c ∷ bs) = bind (encoded_length p) (λ n.
    if b == 0
    then (if ltb (length (c ∷ bs)) n
        then err value_error
        else bind (parse_value floats p (take n (c ∷ bs)))
            (λ d. ok (record { default_value = d; stored_value = none })))
    else (if ltb (length (c ∷ bs)) (n + n)
        then err value_error
        else bind (parse_value floats p (take n (c ∷ bs))) (λ d.
          bind (parse_value floats p (drop n (c ∷ bs)))
            (λ v. ok (record { default_value = d; stored_value = some v })))))
