-- ===== src/Tests/MemoryRuns.antt =====
-- The memory subsystem on a device with one memory, which answers as documented.
use aiocflib.Prelude.{
  ℕ, zero, suc, ◌+◌, ◌-◌, ◌^◌, ◌≤◌, ◌<◌, ◌≡◌, ◌≢◌, refl, ap, true, List, [], ◌∷◌, map, Option, none,
  some, Result, ok, ◌==◌, if◌then◌else◌, Bytes, length, slice, splice, le_bytes, le_value,
  le_value-le_bytes, take, drop, arith,
}
use aiocflib.Prelude.Exec.{Exec}
use aiocflib.Crtp.Command.{Request, CommandLike, raw, one, parts}
use aiocflib.Crazyflie.Memory.{
  MemoryElement, read, write, write_with_checksum, read_request, write_request, element_from_bytes,
}
use aiocflib.Crazyflie.Memory.Device.{MemoryDevice, place}
use aiocflib.Crazyflie.Memory.Transfers.{read-contents, write-contents}
use aiocflib.Crazyflie.Memory.Checksums.{write_with_checksum_lem, after}
use aiocflib.Crazyflie.Memory.Elements.{
  Memory, download, get_number_of_memories, validate, find_all, download-index, range_from,
}

-- The memory with the index 0 is the state; there are no others.
abbrev memory_of : Bytes → ℕ → Bytes
memory_of s zero = s
memory_of s (suc index) = []

abbrev stored : ℕ → ℕ → Bytes → Bytes → Bytes
stored zero addr bs s = splice addr bs s
stored (suc index) addr bs s = s

abbrev command_bytes : Option CommandLike → Bytes
command_bytes (some (raw bs)) = bs
command_bytes (some (one n)) = []
command_bytes (some (parts ps)) = []
command_bytes none = []

abbrev first_or_zero : List ℕ → ℕ
first_or_zero [] = 0
first_or_zero (n ∷ ns) = n

abbrev answer : ℕ → ℕ → ℕ → List ℕ → Bytes → Result Bytes × Bytes
answer channel index addr payload s =
    if channel == 1
    then (ok (0 ∷ slice addr (first_or_zero payload) (memory_of s index)), s)
    else (ok (0 ∷ []), stored index addr payload s)

simulate : Request → Exec Bytes Bytes
unfolding le_value
simulate r s =
    answer r.channel (le_value (take 1 (command_bytes r.command)))
      (le_value (drop 1 (command_bytes r.command))) r.payload s

place_index : (index addr : ℕ) → index < 256 → le_value (take 1 (place index addr)) ≡ index
unfolding le_bytes le_value
place_index index addr h = omega arith

place_addr : (index addr : ℕ) → addr < 2 ^ 32 → le_value (drop 1 (place index addr)) ≡ addr
unfolding le_bytes
place_addr index addr h = le_value-le_bytes 4 addr (omega (arith, h))

simulate_read :
    (index addr size : ℕ) (s : Bytes)
    → index < 256
    → addr < 2 ^ 32
    → simulate (read_request (place index addr) size) s
      ≡ (ok (0 ∷ slice addr size (memory_of s index)), s)
unfolding simulate
simulate_read index addr size s h k = rw (place_index index addr h, place_addr index addr k)

simulate_write :
    (index addr : ℕ) (bs s : Bytes)
    → index < 256
    → addr < 2 ^ 32
    → simulate (write_request (place index addr) bs) s ≡ (ok (0 ∷ []), stored index addr bs s)
unfolding simulate
simulate_write index addr bs s h k = rw (place_index index addr h, place_addr index addr k)

written :
    (s : Bytes) (index addr : ℕ) (bs : Bytes)
    → addr + length bs ≤ length (memory_of s index)
    → memory_of (stored index addr bs s) index ≡ splice addr bs (memory_of s index)
written s zero addr bs h = refl
written s (suc index) zero [] h = refl
written s (suc index) zero (b ∷ bs) h = absurd (omega (arith, h))
written s (suc index) (suc addr) bs h = absurd (omega (arith, h))

untouched :
    (s : Bytes) (index addr : ℕ) (bs : Bytes) (j : ℕ)
    → index < 256
    → j ≢ index
    → memory_of (simulate (write_request (place index addr) bs) s).1 j ≡ memory_of s j
unfolding simulate
untouched s index addr bs j h n =
    rw (place_index index addr h) (others index (le_value (drop 1 (place index addr))) j n)
  where
    others : (i a k : ℕ) → k ≢ i → memory_of (stored i a bs s) k ≡ memory_of s k
    others zero a zero n = absurd (n refl)
    others zero a (suc k) n = refl
    others (suc i) a zero n = refl
    others (suc i) a (suc k) n = refl

reads_keep :
    (s : Bytes) (index addr size j : ℕ)
    → memory_of (simulate (read_request (place index addr) size) s).1 j ≡ memory_of s j
unfolding simulate
reads_keep s index addr size j = refl

abbrev flash : MemoryDevice Bytes
flash = record {
  run_command = simulate;
  contents = memory_of;
  read_answer = λ s index addr size h k l m. ap (λ r. r.0) (simulate_read index addr size s h k);
  read_keeps = reads_keep;
  write_answer = λ s index addr bs h k l m. ap (λ r. r.0) (simulate_write index addr bs s h k);
  write_contents = λ s index addr bs h k l m.
      rw (simulate_write index addr bs s h k) (written s index addr bs m);
  write_keeps = untouched;
}

abbrev eeprom : MemoryElement
eeprom = record { index = 0; type = 0; size = 40; address = 0 }

abbrev blank : ℕ → Bytes
blank zero = []
blank (suc n) = 0 ∷ blank n

-- Thirty bytes, which take two writes and two reads.
abbrev thirty : ℕ → Bytes
thirty zero = []
thirty (suc n) = (n + 1) ∷ thirty n

read-contents_example :
    ((read simulate eeprom 2 33 (blank 40)).0 ≡ ok (slice 2 33 (blank 40)))
    × ((j : ℕ) → memory_of (read simulate eeprom 2 33 (blank 40)).1 j ≡ memory_of (blank 40) j)
read-contents_example =
    read-contents flash eeprom (omega arith) 2 33 (blank 40) (omega arith) (omega arith)

write-contents_example :
    ((write simulate eeprom 5 (thirty 30) (blank 40)).0 ≡ ok tt)
    × (memory_of (write simulate eeprom 5 (thirty 30) (blank 40)).1 0
        ≡ splice 5 (thirty 30) (memory_of (blank 40) 0))
    × ((j : ℕ)
        → j ≢ 0
        → memory_of (write simulate eeprom 5 (thirty 30) (blank 40)).1 j ≡ memory_of (blank 40) j)
write-contents_example =
    write-contents flash eeprom (omega arith) 5 (thirty 30) (blank 40) (omega arith) (omega arith)

-- A checksum of all zeros on a blank memory: the data is taken to be there, and is not written.
zero_checksum : Bytes → Result Bytes
zero_checksum bs = ok (0 ∷ 0 ∷ 0 ∷ 0 ∷ [])

write_with_checksum_lem_example :
    ((write_with_checksum simulate eeprom 2 (thirty 30) true zero_checksum (blank 40)).0 ≡ ok 4)
    × (memory_of
          (write_with_checksum simulate eeprom 2 (thirty 30) true zero_checksum (blank 40)).1
          0
        ≡ after 2 (0 ∷ 0 ∷ 0 ∷ 0 ∷ []) (thirty 30) true (memory_of (blank 40) 0))
    × ((j : ℕ)
        → j ≢ 0
        → memory_of
            (write_with_checksum simulate eeprom 2 (thirty 30) true zero_checksum (blank 40)).1
            j
          ≡ memory_of (blank 40) j)
unfolding zero_checksum
write_with_checksum_lem_example =
    write_with_checksum_lem flash eeprom (omega arith) 2 (thirty 30) true zero_checksum
      (0 ∷ 0 ∷ 0 ∷ 0 ∷ []) (blank 40) refl (omega arith) (omega arith)

-- The element 3 of the list, from the bytes of its description.
element_3 :
    element_from_bytes 3 (0x19 ∷ 0 ∷ 1 ∷ 0 ∷ 0 ∷ 2 ∷ 0 ∷ 0 ∷ 0 ∷ 0 ∷ 0 ∷ 0 ∷ 0 ∷ [])
    ≡ ok (record { index = 3; type = 25; size = 256; address = 2 })
unfolding element_from_bytes le_value
element_3 = refl

-- A device with two memories of the types 0 and 25; its state counts the requests.
abbrev description : ℕ → Bytes
description zero = 0 ∷ 0 ∷ 1 ∷ 0 ∷ 0 ∷ 2 ∷ 0 ∷ 0 ∷ 0 ∷ 0 ∷ 0 ∷ 0 ∷ 0 ∷ []
description (suc n) = 25 ∷ 0 ∷ 1 ∷ 0 ∷ 0 ∷ 2 ∷ 0 ∷ 0 ∷ 0 ∷ 0 ∷ 0 ∷ 0 ∷ 0 ∷ []

list_two : Request → Exec ℕ Bytes
list_two r n = (ok (if n == 0 then 2 ∷ [] else description (n - 1)), n + 1)

abbrev fresh : Memory ℕ
fresh = record { handlers = none; device = 0 }

abbrev two_memories : List MemoryElement
two_memories =
    record { index = 0; type = 0; size = 256; address = 2 }
    ∷ record { index = 1; type = 25; size = 256; address = 2 }
    ∷ []

downloads : (download list_two 0).0 ≡ ok two_memories
unfolding download get_number_of_memories list_two element_from_bytes le_value
downloads = refl

download-index_example :
    (n : ℕ) × ((get_number_of_memories list_two 0).0 ≡ ok n)
    × (map (λ (h : MemoryElement). h.index) two_memories ≡ range_from n 0)
download-index_example = download-index list_two 0 two_memories downloads

validates : (validate list_two fresh).0 ≡ ok two_memories
unfolding validate get_number_of_memories list_two element_from_bytes le_value
validates = refl

abbrev decks : List MemoryElement
decks = record { index = 1; type = 25; size = 256; address = 2 } ∷ []

finds_decks : (find_all list_two 25 fresh).0 ≡ ok decks
unfolding find_all get_number_of_memories list_two element_from_bytes le_value
finds_decks = refl
