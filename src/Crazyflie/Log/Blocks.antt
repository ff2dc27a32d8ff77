-- ===== src/Crazyflie/Log/Blocks.antt =====
-- The classes `Log` and `LogBlock` of aiocflib/crazyflie/log.py: the commands of the logging service and the
-- life of a block. Blocks are objects, which sessions and callers share: they are numbered, and their
-- states stand in the state of the `Log`. The lock around a command has no part in a single caller's run.
use aiocflib.Prelude.{
  ℕ, Bool, true, false, List, [], ◌∷◌, Option, none, some, Result, ok, err, value_error,
  index_error, runtime_error, ◌==◌, if◌then◌else◌, Bytes, bytes_eq, length, le_value, slice, insert,
}
use aiocflib.Crtp.Command.{Request, CommandLike, one, parts, byte}
use aiocflib.Crazyflie.Names.{Text}
use aiocflib.Crazyflie.Values.{Struct}
use aiocflib.Crazyflie.Log.{
  VariableSpecification, from_bytes, full_name, LogBlockItem, logging_port, control_channel,
}

-- `disposer` is the number in the partial application of `_delete_log_block_by_id`.
pub record LogBlock : Type 0 where
  pub id : Option ℕ
  pub disposer : Option ℕ
  pub items : List LogBlockItem
  pub struct : Option (List Struct)

abbrev pub empty_block : LogBlock
empty_block = record { id = none; disposer = none; items = []; struct = none }

abbrev pub is_submitted : LogBlock → Bool
is_submitted b = elim b.disposer [ none ↦ false | some d ↦ true ]

-- `next_id` is what `_block_id_generator` yields next. The block objects that exist have the numbers below
-- `created`.
pub record Log (S : Type 0) : Type 0 where
  pub device : S
  pub next_id : ℕ
  pub variables : Option (List VariableSpecification × List (Text × VariableSpecification))
  pub blocks : ℕ → LogBlock
  pub created : ℕ

unfoldable pub put_block : {S : Type 0} → ℕ → LogBlock → Log S → Log S
put_block i b s = record s { blocks = λ j. if j == i then b else s.blocks j }

-- The setter of `id`.
abbrev pub same_id : Option ℕ → Option ℕ → Bool
same_id none none = true
same_id none (some n) = false
same_id (some m) none = false
same_id (some m) (some n) = m == n

abbrev clashes : Option ℕ → Option ℕ → Bool
clashes (some m) (some n) = true
clashes (some m) none = false
clashes none i = false

unfoldable pub set_id : Option ℕ → LogBlock → Result LogBlock
set_id value b =
    if same_id b.id value
    then ok b
    else if clashes b.id value
    then err value_error
    else ok (record b { id = value })

-- `int(response[0])`, and the error that a status other than zero is.
unfoldable pub check_status : Bytes → Result (Unit {0})
check_status [] = err index_error
check_status (b ∷ bs) = if b == 0 then ok tt else err runtime_error

abbrev pub control_request : ℕ → ℕ → Bytes → Request
control_request command id bs = record {
  port = logging_port;
  channel = control_channel;
  command = some (parts (byte command ∷ byte id ∷ []));
  payload = bs;
}

abbrev pub reset_request : Request
reset_request = record {
  port = logging_port;
  channel = control_channel;
  command = some (one 5);
  payload = [];
}

abbrev pub toc_request : CommandLike → Request
toc_request command = record {
  port = logging_port;
  channel = 0;
  command = some command;
  payload = [];
}

-- `Struct("<HIBB").unpack(response)`
abbrev pub toc_info : Bytes → Result (ℕ × ℕ)
toc_info bs =
    if length bs == 8
    then ok (le_value (slice 0 2 bs), le_value (slice 2 4 bs))
    else err value_error

abbrev pub spec_reply : ℕ → Bytes → Result VariableSpecification
spec_reply index [] = err index_error
spec_reply index (b ∷ bs) = from_bytes (b ∷ bs) index

-- `{parameter.full_name: parameter for parameter in parameters}`
unfoldable pub variables_by_name :
    List VariableSpecification
    → List (Text × VariableSpecification)
    → List (Text × VariableSpecification)
unfolding insert full_name
variables_by_name [] table = table
variables_by_name (p ∷ ps) table = variables_by_name ps (insert bytes_eq (full_name p) p table)

-- The disposer that `submit` returns: `anop`, or the bound method `_dispose` of the block.
pub data Disposer : Type 0 where
  anop : Disposer
  dispose_of : ℕ → Disposer

-- What `_dispose` makes of the outcome of the deletion: a `RuntimeError` is caught.
unfoldable pub without_runtime_error : Result (Unit {0}) → Result (Unit {0})
without_runtime_error (ok a) = ok a
without_runtime_error (err runtime_error) = ok tt
without_runtime_error (err e) = err e
