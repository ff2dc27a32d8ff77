-- ===== src/Tests/ParamRuns.antt =====
-- The theorems on parameters at concrete inputs.
use aiocflib.Prelude.{
  unpack_uint, ◌≡◌, refl, true, false, List, [], ◌∷◌, none, some, ok, err, struct_error,
  runtime_error, Bytes, bytes_eq, le_value, le_bytes, arith,
}
use aiocflib.Prelude.Exec.{Exec, raise, ◌>>◌}
use aiocflib.Crtp.Command.{Request}
use aiocflib.Crazyflie.Names.{Text}
use aiocflib.Crazyflie.Param.{
  ParameterSpecification, type_struct, encode_value, parse_value, from_bytes, to_bytes,
}
use aiocflib.Crazyflie.Values.{signed, nonneg, negative, Floats}
use aiocflib.Crazyflie.Param.Specs.{to_bytes-from_bytes}
use aiocflib.Crazyflie.Param.Values.{parse_value-encode_value, number_of}
use aiocflib.Crazyflie.Client.{Crazyflie}
use aiocflib.Crazyflie.Param.Handler.{Parameters, find_variable, cached}
use aiocflib.Crazyflie.Param.Methods.{get, set, set_and_restore}
use aiocflib.Crazyflie.Param.Methods.Settings.{get-get, set-get, get-cached}
use aiocflib.Crazyflie.Param.Methods.Restoring.{set_and_restore-get}

-- The parameter "a.b", a signed integer of two bytes with the number 300.
abbrev height : ParameterSpecification
height = record {
  id = 300;
  type = 1;
  group = 97 ∷ [];
  name = 98 ∷ [];
  read_only = false;
  has_extended_info = true;
}

abbrev height_name : Text
height_name = 97 ∷ 46 ∷ 98 ∷ []

abbrev no_floats : Floats (Unit {0})
no_floats = record { pack_float = λ n v. err struct_error; unpack_float = λ n bs. tt }

to_bytes-from_bytes_example :
    (bs : Bytes) × (to_bytes height ≡ ok bs) × (from_bytes bs height.id ≡ ok height)
to_bytes-from_bytes_example =
    to_bytes-from_bytes height (omega arith) ((omega arith, omega arith), tt)
      ((omega arith, omega arith), tt)

height_struct : type_struct height.type ≡ ok (signed 2)
unfolding type_struct
height_struct = refl

minus_two : encode_value no_floats height (negative 1) ≡ ok (254 ∷ 255 ∷ [])
unfolding encode_value le_bytes
minus_two = refl

five : encode_value no_floats height (nonneg 5) ≡ ok (5 ∷ 0 ∷ [])
unfolding encode_value le_bytes
five = refl

parse_value-encode_value_example :
    (parse_value no_floats height (254 ∷ 255 ∷ []) ≡ ok (number_of true (254 ∷ 255 ∷ [])))
    × (encode_value no_floats height (number_of true (254 ∷ 255 ∷ [])) ≡ ok (254 ∷ 255 ∷ []))
parse_value-encode_value_example =
    parse_value-encode_value no_floats height true 1 (254 ∷ 255 ∷ []) (omega arith) refl refl
      (omega arith, (omega arith, tt))

parsed_minus_two : parse_value no_floats height (254 ∷ 255 ∷ []) ≡ ok (negative 1)
unfolding parse_value le_value unpack_uint
parsed_minus_two = refl

-- A Crazyflie that answers every command by its data, and remembers them all.
abbrev echo : Crazyflie (List Request) (Unit {0})
echo = record { run_command = λ r s. (ok r.payload, r ∷ s); cache = none; floats = no_floats }

abbrev table : List ParameterSpecification × List (Text × ParameterSpecification)
table = (height ∷ [], (height_name, height) ∷ [])

abbrev ready : Parameters (List Request) (Unit {0})
ready = record { device = []; variables = some table; values = some [] }

height_found : find_variable height_name (some table) ≡ ok height
unfolding find_variable bytes_eq
height_found = refl

set-get_example :
    ((set echo height_name (negative 1) ready).0 ≡ ok tt)
    × (let s' = (set echo height_name (negative 1) ready).1 in
        get echo height_name false s' ≡ (ok (negative 1), s'))
set-get_example =
    set-get echo height_name (negative 1) ready table height [] (signed 2) 254 (255 ∷ []) refl refl
      height_found refl height_struct (omega arith) minus_two refl

-- A Crazyflie that answers every read by a zero and the bytes of five.
abbrev fives : Crazyflie (List Request) (Unit {0})
fives = record {
  run_command = λ r s. (ok (0 ∷ 5 ∷ 0 ∷ []), r ∷ s);
  cache = none;
  floats = no_floats;
}

first_get : (get fives height_name true ready).0 ≡ ok (nonneg 5)
unfolding get bytes_eq unpack_uint le_value
first_get = refl

get-get_example :
    let s' = (get fives height_name true ready).1 in
    get fives height_name false s' ≡ (ok (nonneg 5), s')
get-get_example = get-get fives height_name true (nonneg 5) ready first_get

abbrev kept_five : Parameters (List Request) (Unit {0})
kept_five = record ready { values = some ((height_name, nonneg 5) ∷ []) }

-- A body that raises.
abbrev failing : Exec (Parameters (List Request) (Unit {0})) (Unit {0})
failing = raise runtime_error

left_known : ((set echo height_name (negative 1) >> failing) kept_five).1.variables ≡ some table
unfolding set bytes_eq le_bytes unpack_uint le_value
left_known = refl

left_values :
    ((set echo height_name (negative 1) >> failing) kept_five).1.values
    ≡ some ((height_name, negative 1) ∷ [])
unfolding set bytes_eq le_bytes unpack_uint le_value
left_values = refl

kept_first : cached height_name kept_five.values ≡ some (nonneg 5)
unfolding cached bytes_eq
kept_first = refl

set_and_restore-get_example :
    ((set_and_restore echo height_name (negative 1) none false failing kept_five).0
      ≡ ((set echo height_name (negative 1) >> failing) kept_five).0)
    × (let s' = (set_and_restore echo height_name (negative 1) none false failing kept_five).1 in
        get echo height_name false s' ≡ (ok (nonneg 5), s'))
set_and_restore-get_example =
    set_and_restore-get echo height_name (negative 1) (nonneg 5) none false failing kept_five
      kept_five table height ((height_name, negative 1) ∷ []) (signed 2) 5 (0 ∷ [])
      (get-cached echo height_name (nonneg 5) kept_five kept_first) left_known left_values
      height_found refl height_struct (omega arith) five (λ d. refl)
