-- ===== src/Crazyflie/Param.antt =====
-- aiocflib/crazyflie/param.py: the types, the values and the specifications of parameters. `F` is the type
-- of Python's floats.
pub mod Specs
pub mod Values
pub mod Handler
pub mod Methods
use aiocflib.Prelude.{
  ℕ, zero, suc, ◌+◌, ◌-◌, ◌*◌, ◌/◌, ◌%◌, ◌^◌, Bool, true, false, ◌&&◌, List, [], ◌∷◌, ◌++◌, Option,
  none, some, Result, ok, err, bind, key_error, value_error, struct_error, unicode_error, ltb, ◌==◌,
  if◌then◌else◌, Bytes, length, get_elem?, le_bytes, le_value, pack_uint, unpack_uint, bit_and,
}
use aiocflib.Crazyflie.Names.{Text, split_zero, ascii}
use aiocflib.Crazyflie.Values.{
  Struct, signed, unsigned, floating, size, Value, nonneg, negative, real, Floats, pack, unpack,
}

-- `_type_properties`, by the code of the type; the codes 4 and 12 to 15 are missing.
abbrev type_structs : List (Option Struct)
type_structs =
    some (signed 1)
    ∷ some (signed 2)
    ∷ some (signed 4)
    ∷ some (signed 8)
    ∷ none
    ∷ some (signed 2)
    ∷ some (floating 4)
    ∷ some (floating 8)
    ∷ some (unsigned 1)
    ∷ some (unsigned 2)
    ∷ some (unsigned 4)
    ∷ some (unsigned 8)
    ∷ []

struct_or_error : Option (Option Struct) → Result Struct
struct_or_error (some (some t)) = ok t
struct_or_error (some none) = err key_error
struct_or_error none = err key_error

-- `_type_properties[type][1]`
unfoldable pub type_struct : ℕ → Result Struct
unfolding struct_or_error
type_struct t = struct_or_error (get_elem? type_structs t)

pub record ParameterSpecification : Type 0 where
  pub id : ℕ
  pub type : ℕ
  pub group : Text
  pub name : Text
  pub read_only : Bool
  pub has_extended_info : Bool

-- `bool(data[0] & mask)`
abbrev pub flag : ℕ → ℕ → Bool
flag header mask = if bit_and header mask == 0 then false else true

spec_of : ℕ → ℕ → List Bytes → Result ParameterSpecification
unfolding ascii
spec_of id header (group ∷ name ∷ rest) = bind (ascii group) (λ g. bind (ascii name) (λ n.
    ok (record {
      id = id;
      type = bit_and header 15;
      group = g;
      name = n;
      read_only = flag header 64;
      has_extended_info = flag header 16;
    })))
spec_of id header parts = err value_error

-- Every exception becomes `ValueError`.
abbrev pub or_value_error {ℓ} : {A : Type ℓ} → Result A → Result A
or_value_error (ok a) = ok a
or_value_error (err e) = err value_error

unfoldable pub from_bytes : Bytes → ℕ → Result ParameterSpecification
unfolding spec_of split_zero
from_bytes [] id = err value_error
from_bytes (header ∷ bs) id = or_value_error (spec_of id header (split_zero bs))

unfoldable pub spec_header : ParameterSpecification → ℕ
spec_header spec =
    bit_and spec.type 15
    + (if spec.read_only then 64 else 0)
    + (if spec.has_extended_info then 16 else 0)

unfoldable pub to_bytes : ParameterSpecification → Result Bytes
unfolding spec_header ascii
to_bytes spec =
    bind (ascii spec.group)
      (λ g. bind (ascii spec.name) (λ n. ok (spec_header spec ∷ (g ++ 0 ∷ (n ++ 0 ∷ [])))))

-- The group and the name with a dot between them.
unfoldable pub full_name : ParameterSpecification → Text
full_name spec = spec.group ++ 46 ∷ spec.name

module _ {F : Type 0} (floats : Floats F) where
  unfoldable pub encode_value : ParameterSpecification → Value F → Result Bytes
  unfolding type_struct pack
  encode_value spec v = bind (type_struct spec.type) (λ t. pack floats t v)

  unfoldable pub parse_value : ParameterSpecification → Bytes → Result (Value F)
  unfolding type_struct unpack
  parse_value spec bs = bind (type_struct spec.type) (λ t. unpack floats t bs)

unfoldable pub encoded_length : ParameterSpecification → Result ℕ
unfolding type_struct size
encoded_length spec = bind (type_struct spec.type) (λ t. ok (size t))
