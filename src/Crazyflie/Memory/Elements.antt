-- ===== src/Crazyflie/Memory/Elements.antt =====
-- The class `Memory` of aiocflib/crazyflie/mem.py: the list of memories, downloaded once, and the search
-- for a memory by its type. Every type of memory has the same handler, since nothing is registered for a
-- type, so a handler is its element.
use aiocflib.Prelude.{
  ℕ, zero, suc, ◌+◌, ◌≡◌, refl, ap₂, List, [], ◌∷◌, map, Option, none, some, Result, ok, err,
  value_error, index_error, ◌==◌, if◌then◌else◌, Bytes, Option-cases, inl, inr, of_ok, arith,
}
use aiocflib.Prelude.Exec.{Exec, pure, lift, continue-ok, ◌>>=◌}
use aiocflib.Crtp.Command.{Request, one, parts, byte}
use aiocflib.Crazyflie.Memory.{
  MemoryElement, element_from_bytes, memory_port, info_channel, read, write,
}

-- The object and the device behind it.
pub record Memory (S : Type 0) : Type 0 where
  pub handlers : Option (List MemoryElement)
  pub device : S

abbrev details_request : ℕ → Request
details_request index = record {
  port = memory_port;
  channel = info_channel;
  command = some (parts (byte 2 ∷ byte index ∷ []));
  payload = [];
}

abbrev number_request : Request
number_request = record {
  port = memory_port;
  channel = info_channel;
  command = some (one 1);
  payload = [];
}

abbrev first_byte : Bytes → Result ℕ
first_byte [] = err index_error
first_byte (b ∷ bs) = ok b

abbrev parse_details : ℕ → Bytes → Result MemoryElement
parse_details index [] = err index_error
parse_details index (b ∷ bs) = element_from_bytes index (b ∷ bs)

first_of_type : ℕ → List MemoryElement → Result MemoryElement
first_of_type type [] = err value_error
first_of_type type (h ∷ hs) =
    let rest = first_of_type type hs in if h.type == type then ok h else rest

all_of_type : ℕ → List MemoryElement → List MemoryElement
all_of_type type [] = []
all_of_type type (h ∷ hs) =
    let rest = all_of_type type hs in if h.type == type then h ∷ rest else rest

parse_details-index :
    (index : ℕ) (bs : Bytes) {el : MemoryElement}
    → parse_details index bs ≡ ok el
    → el.index ≡ index
unfolding element_from_bytes
parse_details-index index [] h = absurd (ground arith)
parse_details-index index (b ∷ bs) h = ground arith

-- The numbers from `i` on, `n` of them.
abbrev pub range_from : ℕ → ℕ → List ℕ
range_from zero i = []
range_from (suc n) i = i ∷ range_from n (i + 1)

module _ {S : Type 0} (run_command : Request → Exec S Bytes) where
  unfoldable pub get_memory_details : ℕ → Exec S MemoryElement
  get_memory_details index = do
    response ← run_command (details_request index)
    lift (parse_details index response)

  unfoldable pub get_number_of_memories : Exec S ℕ
  get_number_of_memories = do response ← run_command number_request; lift (first_byte response)

  -- `[await self._get_memory_details(i) for i in range(num_memories)]`, from `i` on
  details_from : ℕ → ℕ → Exec S (List MemoryElement)
  unfolding get_memory_details
  details_from zero i = pure []
  details_from (suc n) i = do
    element ← get_memory_details i
    rest ← details_from n (i + 1)
    pure (element ∷ rest)

  unfoldable pub download : Exec S (List MemoryElement)
  unfolding details_from get_number_of_memories
  download = do num_memories ← get_number_of_memories; details_from num_memories 0

  -- An exception of the download leaves the object without its list.
  store : Memory S → Result (List MemoryElement) × S → Result (List MemoryElement) × Memory S
  store m (ok hs, s) = (ok hs, record { handlers = some hs; device = s })
  store m (err e, s) = (err e, record { handlers = m.handlers; device = s })

  -- `validate`, with the list that is there afterwards
  unfoldable pub validate : Exec (Memory S) (List MemoryElement)
  unfolding store download
  validate m = elim m.handlers [ some hs ↦ (ok hs, m) | none ↦ store m (download m.device) ]

  unfoldable pub find : ℕ → Exec (Memory S) MemoryElement
  unfolding validate first_of_type
  find type = do hs ← validate; lift (first_of_type type hs)

  unfoldable pub find_all : ℕ → Exec (Memory S) (List MemoryElement)
  unfolding validate all_of_type
  find_all type = do hs ← validate; pure (all_of_type type hs)

  on_device : {A : Type 0} → Exec S A → Exec (Memory S) A
  on_device m r = ((m r.device).0, record r { device = (m r.device).1 })

  unfoldable pub read_type : ℕ → ℕ → ℕ → Exec (Memory S) Bytes
  unfolding find on_device
  read_type type addr size = do h ← find type; on_device (read run_command h addr size)

  unfoldable pub write_type : ℕ → ℕ → Bytes → Exec (Memory S) (Unit {0})
  unfolding find on_device
  write_type type addr bs = do h ← find type; on_device (write run_command h addr bs)

  details-index :
      (i : ℕ) (s : S) {el : MemoryElement} → (get_memory_details i s).0 ≡ ok el → el.index ≡ i
  unfolding get_memory_details
  details-index i s h =
      let (response, e, f) = continue-ok (run_command (details_request i) s).0 _ _ h in
      parse_details-index i response f

  -- The elements that are downloaded have the indices from `i` on, in their order.
  details_from-index :
      (n i : ℕ) (s : S) {hs : List MemoryElement}
      → (details_from n i s).0 ≡ ok hs
      → map (λ (h : MemoryElement). h.index) hs ≡ range_from n i
  unfolding details_from
  details_from-index zero i s h = of_ok (λ hs. map (λ (g : MemoryElement). g.index) hs ≡ []) h refl
  details_from-index (suc n) i s h =
      let (element, e, f) = continue-ok (get_memory_details i s).0 _ _ h in
      let s' = (get_memory_details i s).1 in
      let (rest, g, q) = continue-ok (details_from n (i + 1) s').0 _ _ f in
      of_ok (λ hs. map (λ (g : MemoryElement). g.index) hs ≡ i ∷ range_from n (i + 1)) q
        (ap₂ (λ x xs. x ∷ xs) (details-index i s e) (details_from-index n (i + 1) s' g))

  -- A download that does not raise gives the memories with the indices 0, 1, 2 and so on, as many as the
  -- device says that it has.
  pub download-index :
      (s : S) (hs : List MemoryElement)
      → (download s).0 ≡ ok hs
      → (n : ℕ) × ((get_number_of_memories s).0 ≡ ok n)
        × (map (λ (h : MemoryElement). h.index) hs ≡ range_from n 0)
  unfolding download
  download-index s hs h =
      let (n, e, f) = continue-ok (get_number_of_memories s).0 _ _ h in
      (n, e, details_from-index n 0 (get_number_of_memories s).1 f)

  store-ok :
      (m : Memory S) (x : Result (List MemoryElement) × S) (hs : List MemoryElement)
      → (store m x).0 ≡ ok hs
      → store m x ≡ (ok hs, record { handlers = some hs; device = x.1 })
  unfolding store
  store-ok m (ok gs, s) hs h = ground arith
  store-ok m (err e, s) hs h = absurd (ground arith)

  -- A second `validate` runs no command: it returns the list of the first and changes nothing.
  pub validate_twice :
      (m : Memory S) (hs : List MemoryElement)
      → (validate m).0 ≡ ok hs
      → validate (validate m).1 ≡ (ok hs, (validate m).1)
  unfolding validate
  validate_twice m hs h = elim (Option-cases m.handlers) [
    | inl e ↦
        let stored = store-ok m (download m.device) hs (rw (e, validate) at h) in
        let first : validate m
            ≡ (ok hs, record { handlers = some hs; device = (download m.device).1 }) =
          rw (e, validate) stored in
        rw first
    | inr (gs, e) ↦
        let same : ok gs ≡ ok hs = rw (e, validate) at h in
        let first : validate m ≡ (ok hs, m) = ground (arith, e, same) in rw first first
  ]

abbrev pub head_or_raise : List MemoryElement → Result MemoryElement
head_or_raise [] = err value_error
head_or_raise (h ∷ hs) = ok h

first_of_type-all_of_type :
    (type : ℕ) (hs : List MemoryElement)
    → first_of_type type hs ≡ head_or_raise (all_of_type type hs)
unfolding first_of_type all_of_type
first_of_type-all_of_type type [] = refl
first_of_type-all_of_type type (h ∷ hs) = ground (arith, first_of_type-all_of_type type hs)

-- `find` returns the first of the memories that `find_all` returns, and raises `ValueError` if there are
-- none; both leave the object and the device in the same state.
pub find-find_all :
    {S : Type 0} (run_command : Request → Exec S Bytes) (type : ℕ) (m : Memory S)
    → (hs : List MemoryElement) → (find_all run_command type m).0 ≡ ok hs
    → find run_command type m ≡ (head_or_raise hs, (find_all run_command type m).1)
unfolding find find_all
find-find_all run_command type m hs h =
    let (gs, e, f) = continue-ok (validate run_command m).0 _ _ h in
    let q : all_of_type type gs ≡ hs = ground (arith, f) in rw (e, first_of_type-all_of_type, q)
