-- ===== src/Crazyflie/Memory.antt =====
-- aiocflib/crazyflie/mem.py: reading and writing the memories of a Crazyflie. `run_command` is the
-- exchange with the device, and `S` its state.
pub mod Device
pub mod Transfers
pub mod Checksums
pub mod Elements
use aiocflib.Prelude.{
  ℕ, zero, suc, ◌+◌, Bool, true, false, ◌&&◌, not, List, [], ◌∷◌, ◌++◌, Option, none, some, Result,
  ok, err, bind, io_error, value_error, index_error, ◌==◌, if◌then◌else◌, Bytes, bytes_eq, length,
  slice, drop, replicate, le_value, le_bytes, pack_uint,
}
use aiocflib.Prelude.Exec.{Exec, pure, raise, lift, ◌>>=◌, ◌>>◌}
use aiocflib.Utils.Chunks.{chunkify}
use aiocflib.Crtp.Command.{Request, CommandLike, Part, raw, parts, one, byte}

pub record MemoryElement : Type 0 where
  pub index : ℕ
  pub type : ℕ
  pub size : ℕ
  pub address : ℕ

abbrev pub head_or_zero : Bytes → ℕ
head_or_zero [] = 0
head_or_zero (b ∷ bs) = b

-- `Struct("<BIQ")`: one byte, four bytes, eight bytes.
unfoldable pub element_from_bytes : ℕ → Bytes → Result MemoryElement
element_from_bytes index bs =
    if length bs == 13
    then ok (record {
      index = index;
      type = head_or_zero bs;
      size = le_value (slice 1 4 bs);
      address = le_value (slice 5 8 bs);
    })
    else err value_error

-- The CRTP port and the channels of the memory service, and its commands.
abbrev pub memory_port : ℕ
memory_port = 4

abbrev pub info_channel : ℕ
info_channel = 0

abbrev pub read_channel : ℕ
read_channel = 1

abbrev pub write_channel : ℕ
write_channel = 2

abbrev pub max_read_request_length : ℕ
max_read_request_length = 20

abbrev pub max_write_request_length : ℕ
max_write_request_length = 25

-- `errno.ENODATA`
abbrev pub enodata : ℕ
enodata = 61

-- `Struct("<BI").pack(index, addr)`
unfoldable pub addressing : ℕ → ℕ → Result Bytes
addressing index addr =
    bind (pack_uint 1 index) (λ bs. bind (pack_uint 4 addr) (λ cs. ok (bs ++ cs)))

abbrev pub read_request : Bytes → ℕ → Request
read_request command size = record {
  port = memory_port;
  channel = read_channel;
  command = some (raw command);
  payload = size ∷ [];
}

abbrev pub write_request : Bytes → Bytes → Request
write_request command bs = record {
  port = memory_port;
  channel = write_channel;
  command = some (raw command);
  payload = bs;
}

-- `(response[1:], response[0]) if response else (b"", ENODATA)`
abbrev pub chunk_reply : Bytes → Bytes × ℕ
chunk_reply [] = ([], enodata)
chunk_reply (status ∷ bs) = (bs, status)

-- `response[0] if response else ENODATA`
abbrev pub status_reply : Bytes → ℕ
status_reply [] = enodata
status_reply (status ∷ bs) = status

-- `result.rstrip(b"\x00")`
unfoldable pub rstrip : Bytes → Bytes
rstrip [] = []
rstrip (b ∷ bs) =
    let rest = rstrip bs in elim rest [ [] ↦ if b == 0 then [] else b ∷ [] | c ∷ cs ↦ b ∷ c ∷ cs ]

module _ {S : Type 0} (run_command : Request → Exec S Bytes) where
  unfoldable pub read_chunk : MemoryElement → ℕ → ℕ → Exec S (Bytes × ℕ)
  unfolding addressing
  read_chunk element addr size = do
    command ← lift (addressing element.index addr)
    response ← run_command (read_request command size)
    pure (chunk_reply response)

  unfoldable pub write_chunk : MemoryElement → ℕ → Bytes → Exec S ℕ
  unfolding addressing
  write_chunk element addr bs = do
    command ← lift (addressing element.index addr)
    response ← run_command (write_request command bs)
    pure (status_reply response)

  -- The loop of `read`: the chunks are joined, and the first status that is not zero raises.
  read_loop : MemoryElement → List (ℕ × ℕ) → Exec S Bytes
  unfolding read_chunk
  read_loop element [] = pure []
  read_loop element ((start, size) ∷ rest) = do
    (bs, status) ← read_chunk element start size
    if status == 0
        then (do more ← read_loop element rest; pure (bs ++ more))
        else raise (io_error status)

  unfoldable pub read : MemoryElement → ℕ → ℕ → Exec S Bytes
  unfolding read_loop
  read element addr size = do
    chunks ← lift (chunkify addr size max_read_request_length)
    read_loop element chunks

  write_loop : MemoryElement → ℕ → Bytes → List (ℕ × ℕ) → Exec S (Unit {0})
  unfolding write_chunk
  write_loop element addr bs [] = pure tt
  write_loop element addr bs ((start, size) ∷ rest) = do
    status ← write_chunk element (addr + start) (slice start size bs)
    if status == 0 then write_loop element addr bs rest else raise (io_error status)

  unfoldable pub write : MemoryElement → ℕ → Bytes → Exec S (Unit {0})
  unfolding write_loop
  write element addr bs = do
    chunks ← lift (chunkify 0 (length bs) max_write_request_length)
    write_loop element addr bs chunks

  unfoldable pub dump : MemoryElement → Bool → Exec S Bytes
  unfolding read rstrip
  dump element strip = do
    result ← read element 0 element.size
    pure (if strip then rstrip result else result)

  -- Whether the checksum in front of the data is not the expected one.
  need_to_write : MemoryElement → ℕ → Bytes → Bool → Exec S Bool
  unfolding read bytes_eq
  need_to_write element addr expected only_if_changed =
      if not only_if_changed then pure true else (do
        observed ← read element addr (length expected)
        pure (not (bytes_eq observed expected)))

  write_all : MemoryElement → ℕ → Bytes → Bytes → Exec S ℕ
  unfolding write
  write_all element addr expected bs = do
    write element addr (replicate (length expected) 0)
    write element (addr + length expected) bs
    write element addr expected
    pure (length expected)

  -- `checksum` is the caller's function; the default is the `crc32` of the checksum utilities.
  unfoldable pub write_with_checksum :
      MemoryElement → ℕ → Bytes → Bool → (Bytes → Result Bytes) → Exec S ℕ
  unfolding need_to_write write_all
  write_with_checksum element addr bs only_if_changed checksum = do
    expected ← lift (checksum bs)
    needed ← need_to_write element addr expected only_if_changed
    if needed then write_all element addr expected bs else pure (length expected)
