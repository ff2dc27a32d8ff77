-- ===== src/Crazyflie/Log.antt =====
-- aiocflib/crazyflie/log.py: the types, the variables and the items of log blocks, and the values of log
-- messages. `F` is the type of Python's floats.
pub mod Specs
pub mod Messages
pub mod Periods
pub mod Blocks
pub mod Commands
pub mod Life
pub mod Sessions
use aiocflib.Prelude.{
  ℕ, zero, suc, ◌+◌, ◌*◌, ◌/◌, ◌%◌, Bool, true, false, List, [], ◌∷◌, ◌++◌, Option, none, some,
  Result, ok, err, bind, key_error, value_error, struct_error, attribute_error, ltb, ◌==◌, ◌&&◌,
  not, if◌then◌else◌, Bytes, bytes_eq, length, take, drop, slice, le_value, bit_and, bit_or, lookup,
  insert,
}
use aiocflib.Crtp.Packet.{CrtpPacket, port_bits, channel, to_bytes_object}
use aiocflib.Crazyflie.Names.{Text, split_zero, ascii}
use aiocflib.Crazyflie.Values.{
  Struct, signed, unsigned, floating, size, Value, Floats, pack, unpack,
}

-- `VariableType`, with the codes 1 to 8.
pub data VariableType : Type 0 where
  uint8 uint16 uint32 int8 int16 int32 float fp16 : VariableType

unfoldable pub to_variable_type : ℕ → Result VariableType
to_variable_type (suc zero) = ok uint8
to_variable_type (suc (suc zero)) = ok uint16
to_variable_type (suc (suc (suc zero))) = ok uint32
to_variable_type (suc (suc (suc (suc zero)))) = ok int8
to_variable_type (suc (suc (suc (suc (suc zero))))) = ok int16
to_variable_type (suc (suc (suc (suc (suc (suc zero)))))) = ok int32
to_variable_type (suc (suc (suc (suc (suc (suc (suc zero))))))) = ok float
to_variable_type (suc (suc (suc (suc (suc (suc (suc (suc zero)))))))) = ok fp16
to_variable_type code = err value_error

unfoldable pub type_code : VariableType → ℕ
type_code uint8 = 1
type_code uint16 = 2
type_code uint32 = 3
type_code int8 = 4
type_code int16 = 5
type_code int32 = 6
type_code float = 7
type_code fp16 = 8

-- `_type_properties[type][1]`; values of the type "fp16" are packed as signed integers.
unfoldable pub variable_struct : VariableType → Struct
variable_struct uint8 = unsigned 1
variable_struct uint16 = unsigned 2
variable_struct uint32 = unsigned 4
variable_struct int8 = signed 1
variable_struct int16 = signed 2
variable_struct int32 = signed 4
variable_struct float = floating 4
variable_struct fp16 = signed 2

-- `type` is a plain integer, of which `_type_properties` may have no entry.
pub record VariableSpecification : Type 0 where
  pub id : ℕ
  pub type : ℕ
  pub group : Text
  pub name : Text

variable_of : ℕ → ℕ → List Bytes → Result VariableSpecification
unfolding ascii
variable_of id header (group ∷ name ∷ rest) = bind (ascii group) (λ g.
    bind (ascii name) (λ n. ok (record { id = id; type = bit_and header 15; group = g; name = n })))
variable_of id header parts = err value_error

abbrev pub or_value_error {ℓ} : {A : Type ℓ} → Result A → Result A
or_value_error (ok a) = ok a
or_value_error (err e) = err value_error

-- Every exception becomes `ValueError`.
unfoldable pub from_bytes : Bytes → ℕ → Result VariableSpecification
unfolding variable_of split_zero
from_bytes [] id = err value_error
from_bytes (header ∷ bs) id = or_value_error (variable_of id header (split_zero bs))

unfoldable pub to_bytes : VariableSpecification → Result Bytes
unfolding ascii
to_bytes spec =
    bind (ascii spec.group)
      (λ g. bind (ascii spec.name) (λ n. ok (bit_and spec.type 15 ∷ (g ++ 0 ∷ (n ++ 0 ∷ [])))))

-- The group and the name with a dot between them.
unfoldable pub full_name : VariableSpecification → Text
full_name spec = spec.group ++ 46 ∷ spec.name

type_or_key_error : Result VariableType → Result VariableType
type_or_key_error (ok t) = ok t
type_or_key_error (err e) = err key_error

module _ {F : Type 0} (floats : Floats F) where
  unfoldable pub encode_value : VariableSpecification → Value F → Result Bytes
  unfolding type_or_key_error to_variable_type variable_struct pack
  encode_value spec v =
      bind (type_or_key_error (to_variable_type spec.type)) (λ t. pack floats (variable_struct t) v)

  unfoldable pub parse_value : VariableSpecification → Bytes → Result (Value F)
  unfolding type_or_key_error to_variable_type variable_struct unpack
  parse_value spec bs =
      bind (type_or_key_error (to_variable_type spec.type))
        (λ t. unpack floats (variable_struct t) bs)

pub record LogBlockItem : Type 0 where
  pub name : Text
  pub id : ℕ
  pub fetch_as : VariableType
  pub stored_as : VariableType

-- `bytes` raises when the number of the variable does not fit into two bytes.
unfoldable pub item_bytes : LogBlockItem → Result Bytes
unfolding type_code to_bytes_object
item_bytes item = to_bytes_object (
    bit_or (bit_and (type_code item.fetch_as * 16) 0xF0) (bit_and (type_code item.stored_as) 0x0F)
    ∷ item.id % 256
    ∷ item.id / 256
    ∷ [])

-- The sum of the lengths of the values.
unfoldable pub packet_size : List LogBlockItem → ℕ
unfolding variable_struct size
packet_size [] = 0
packet_size (item ∷ items) = size (variable_struct item.fetch_as) + packet_size items

abbrev pub max_log_data_packet_size : ℕ
max_log_data_packet_size = 28

join_items : List LogBlockItem → Result Bytes
unfolding item_bytes
join_items [] = ok []
join_items (item ∷ items) =
    let rest = join_items items in bind (item_bytes item) (λ bs. bind rest (λ cs. ok (bs ++ cs)))

-- `to_bytes` with `_validate_packet_size`
unfoldable pub block_bytes : List LogBlockItem → Result Bytes
unfolding packet_size join_items
block_bytes items =
    if ltb max_log_data_packet_size (packet_size items) then err value_error else join_items items

-- The struct of a block: the formats of its values, without padding.
unfoldable pub block_struct : List LogBlockItem → List Struct
unfolding variable_struct
block_struct [] = []
block_struct (item ∷ items) = variable_struct item.fetch_as ∷ block_struct items

unfoldable pub total_size : List Struct → ℕ
unfolding size
total_size [] = 0
total_size (t ∷ ts) = size t + total_size ts

-- `Struct.unpack_from(data, offset=4)`, with an attribute error when there is no struct yet.
module _ {F : Type 0} (floats : Floats F) where
  unfoldable pub unpack_fields : List Struct → Bytes → Result (List (Value F))
  unfolding unpack size
  unpack_fields [] bs = ok []
  unpack_fields (t ∷ ts) bs =
      let rest = unpack_fields ts (drop (size t) bs) in
      bind (unpack floats t (take (size t) bs)) (λ v. bind rest (λ vs. ok (v ∷ vs)))

  unfoldable pub decode_values : Option (List Struct) → Bytes → Result (List (Value F))
  unfolding unpack_fields total_size
  decode_values none bs = err attribute_error
  decode_values (some ts) bs =
      if ltb (length bs) (4 + total_size ts) then err struct_error else unpack_fields ts (drop 4 bs)

-- `block` is the number of the block.
pub record LogMessage (F : Type 0) : Type 0 where
  pub timestamp : ℕ
  pub block : ℕ
  pub items : List (Value F)
  pub handler : Option ℕ

unfoldable pub message_from_bytes :
    {F : Type 0} → Floats F → Option (List Struct) → ℕ → Option ℕ → Bytes → Result (LogMessage F)
unfolding decode_values
message_from_bytes floats struct block handler bs = bind (decode_values floats struct bs) (λ vs.
    ok (record {
      timestamp = le_value (slice 1 3 bs);
      block = block;
      items = vs;
      handler = handler;
    }))

-- `_to_dict`: an item without a value has the value `None`, and a value without an item is left out.
unfoldable pub to_dict :
    {F : Type 0}
    → List LogBlockItem
    → List (Value F)
    → List (Text × Option (Value F))
    → List (Text × Option (Value F))
unfolding insert
to_dict [] vs table = table
to_dict (item ∷ items) [] table = to_dict items [] (insert bytes_eq item.name none table)
to_dict (item ∷ items) (v ∷ vs) table = to_dict items vs (insert bytes_eq item.name (some v) table)

-- The packets of `Log.data_packets` among those that arrive: of the port of the logging service and its
-- data channel, with the number of the block and the timestamp.
abbrev pub logging_port : ℕ
logging_port = 5

abbrev pub control_channel : ℕ
control_channel = 1

abbrev pub data_channel : ℕ
data_channel = 2

unfoldable pub data_packets : List CrtpPacket → List CrtpPacket
data_packets [] = []
data_packets (q ∷ qs) =
    let rest = data_packets qs in
    if port_bits q.header == logging_port
      && channel q == data_channel
      && not (ltb (length q.body) 4)
    then q ∷ rest
    else rest
