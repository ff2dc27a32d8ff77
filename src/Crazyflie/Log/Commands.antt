-- ===== src/Crazyflie/Log/Commands.antt =====
-- The methods of `Log` and `LogBlock` of aiocflib/crazyflie/log.py, on the state of Log/Blocks.
use aiocflib.Prelude.{
  ℕ, suc, ◌/◌, ◌%◌, Bool, true, false, List, [], ◌∷◌, ◌++◌, Option, none, some, Result, ok, err,
  bind, key_error, value_error, runtime_error, type_error, ltb, if◌then◌else◌, Bytes, bytes_eq,
  lookup,
}
use aiocflib.Prelude.Exec.{Exec, pure, raise, lift, finally, ◌>>=◌, ◌>>◌}
use aiocflib.Crtp.Packet.{CrtpPacket}
use aiocflib.Crtp.Command.{one, parts, byte}
use aiocflib.Utils.Toc.Fetching.{fetch_gracefully}
use aiocflib.Crazyflie.Client.{Crazyflie}
use aiocflib.Crazyflie.Names.{Text}
use aiocflib.Crazyflie.Log.{
  to_variable_type, VariableSpecification, from_bytes, to_bytes, LogBlockItem, block_bytes,
  block_struct, LogMessage, message_from_bytes, data_packets,
}
use aiocflib.Crazyflie.Log.Periods.{Rates, Timing, process_period_and_frequency}
use aiocflib.Crazyflie.Log.Blocks.{
  empty_block, is_submitted, Log, put_block, set_id, check_status, control_request, reset_request,
  toc_request, toc_info, spec_reply, variables_by_name, Disposer, anop, dispose_of,
  without_runtime_error,
}

module _ {S F : Type 0} (cf : Crazyflie S F) where
  open cf use {cache, floats}

  -- A command of the Crazyflie leaves what the `Log` knows alone.
  unfoldable pub on_device : {A : Type 0} → Exec S A → Exec (Log S) A
  on_device m s = let (r, t) = m s.device in (r, record s { device = t })

  get_table_of_contents_info : Exec S (ℕ × ℕ)
  get_table_of_contents_info = do
    response ← cf.run_command (toc_request (one 3))
    lift (toc_info response)

  get_log_variable_spec_by_index : ℕ → Exec S VariableSpecification
  get_log_variable_spec_by_index index = do
    response ←
        cf.run_command (toc_request (parts (byte 2 ∷ byte (index % 256) ∷ byte (index / 256) ∷ [])))
    lift (spec_reply index response)

  -- The generator of numbers starts again.
  unfoldable pub reset : Exec (Log S) (Unit {0})
  unfolding on_device
  reset = do on_device (cf.run_command reset_request); λ s. (ok tt, record s { next_id = 0 })

  -- `validate` with `_validate`: the table first, then the reset.
  unfoldable pub validate : Exec (Log S) (Unit {0})
  unfolding on_device get_table_of_contents_info get_log_variable_spec_by_index variables_by_name
      reset fetch_gracefully
  validate s = elim s.variables [
    | some known ↦ (ok tt, s)
    | none ↦
        (do
          all ← on_device (
              fetch_gracefully get_table_of_contents_info get_log_variable_spec_by_index from_bytes
                to_bytes cache)
          reset
          λ t. (ok tt, record t { variables = some (all, variables_by_name all []) }))
          s
  ]

  unfoldable pub control : ℕ → ℕ → Bytes → Exec (Log S) (Unit {0})
  unfolding on_device check_status
  control command id bs = do
    response ← on_device (cf.run_command (control_request command id bs))
    lift (check_status response)

  -- `_create_log_block`, with the items of the block
  unfoldable pub create_log_block : ℕ → ℕ → Exec (Log S) (Unit {0})
  unfolding validate block_bytes control
  create_log_block id i = do
    validate
    bs ← (λ s. (block_bytes (s.blocks i).items, s))
    control 6 id bs

  unfoldable pub delete_log_block_by_id : ℕ → Exec (Log S) (Unit {0})
  unfolding control
  delete_log_block_by_id id = control 2 id []

  -- `int(period_msec / 10)` of a period that is not negative
  unfoldable pub start_log_block_by_id : ℕ → ℕ → Exec (Log S) (Unit {0})
  unfolding control
  start_log_block_by_id id period_msec =
      if ltb 255 (period_msec / 10) then raise value_error else control 3 id (period_msec / 10 ∷ [])

  unfoldable pub stop_log_block_by_id : ℕ → Exec (Log S) (Unit {0})
  unfolding control
  stop_log_block_by_id id = control 4 id []

  -- The number is taken before the command, and not given back when that raises.
  unfoldable pub submit_block : ℕ → Exec (Log S) ℕ
  unfolding create_log_block
  submit_block i = do
    id ← (λ s. (ok s.next_id, record s { next_id = suc s.next_id }))
    create_log_block id i
    pure id

  unfoldable pub new_block : Exec (Log S) ℕ
  unfolding put_block
  new_block s =
      (ok s.created, put_block s.created empty_block (record s { created = suc s.created }))

  -- Both types are converted before the item is added.
  pub added_item : Text → Option ℕ → VariableSpecification → Result LogBlockItem
  unfolding to_variable_type
  added_item name type spec = bind (to_variable_type spec.type) (λ stored.
      bind (to_variable_type (elim type [ some t ↦ t | none ↦ spec.type ])) (λ fetched.
        ok (record { name = name; id = spec.id; fetch_as = fetched; stored_as = stored })))

  pub find_variable :
      Text
      → Option (List VariableSpecification × List (Text × VariableSpecification))
      → Result VariableSpecification
  unfolding lookup
  find_variable name none = err type_error
  find_variable name (some (all, table)) = elim (lookup bytes_eq name table) [
    | none ↦ err key_error
    | some spec ↦ ok spec
  ]

  unfoldable pub add_variable : ℕ → Text → Option ℕ → Exec (Log S) (Unit {0})
  unfolding added_item find_variable put_block
  add_variable i name type = do
    spec ← (λ s. (find_variable name s.variables, s))
    item ← lift (added_item name type spec)
    λ s. (ok tt, put_block i (record (s.blocks i) { items = (s.blocks i).items ++ item ∷ [] }) s)

  -- `self.id = id`, with the disposer that is set before and the struct that is set after it.
  unfoldable pub enroll : ℕ → ℕ → Exec (Log S) (Unit {0})
  unfolding set_id put_block block_struct
  enroll i id s =
      let b = record (s.blocks i) { disposer = some id } in
      elim (set_id (some id) b) [
        | err e ↦ (err e, put_block i b s)
        | ok b' ↦ (ok tt, put_block i (record b' { struct = some (block_struct b'.items) }) s)
      ]

  unfoldable pub submit : ℕ → Bool → Exec (Log S) Disposer
  unfolding submit_block enroll
  submit i allow_multi s =
      if is_submitted (s.blocks i)
      then (if allow_multi then (ok anop, s) else (err runtime_error, s))
      else (do id ← submit_block i; enroll i id; pure (dispose_of i)) s

  -- What is left when the deletion raises an error other than a `RuntimeError` is a block without a number
  -- that counts as submitted.
  unfoldable pub dispose : ℕ → Exec (Log S) (Unit {0})
  unfolding delete_log_block_by_id without_runtime_error put_block
  dispose i s =
      let b = record (s.blocks i) { id = none } in
      let s' = put_block i b s in
      elim b.disposer [
        | none ↦ (ok tt, s')
        | some d ↦
            let (r, t) = delete_log_block_by_id d s' in
            elim (without_runtime_error r) [
              | err e ↦ (err e, t)
              | ok a ↦ (ok tt, put_block i (record (t.blocks i) { disposer = none }) t)
            ]
      ]

  unfoldable pub run_disposer : Disposer → Exec (Log S) (Unit {0})
  unfolding dispose
  run_disposer anop = pure tt
  run_disposer (dispose_of i) = dispose i

  -- What `start` returns is the number that its disposer stops.
  unfoldable pub start : Rates F → ℕ → Timing F → Exec (Log S) ℕ
  unfolding process_period_and_frequency start_log_block_by_id
  start rates i timing s = elim (s.blocks i).id [
    | none ↦ (err runtime_error, s)
    | some id ↦
        (do
          period_msec ← lift (process_period_and_frequency rates timing)
          start_log_block_by_id id period_msec
          pure id)
          s
  ]

  -- The contexts `submitted` and `started`, with their bodies; `submitted` passes its argument
  -- `allow_multi` on to nothing.
  unfoldable pub submitted : {A : Type 0} → ℕ → Bool → Exec (Log S) A → Exec (Log S) A
  unfolding submit run_disposer
  submitted i allow_multi body = do disposer ← submit i false; finally body (run_disposer disposer)

  unfoldable pub started : {A : Type 0} → Rates F → ℕ → Timing F → Exec (Log S) A → Exec (Log S) A
  unfolding start stop_log_block_by_id
  started rates i timing body = do id ← start rates i timing; finally body (stop_log_block_by_id id)

  -- `LogMessage.from_bytes` for each packet; the first that cannot be decoded raises.
  decode_all : ℕ → List CrtpPacket → Exec (Log S) (List (LogMessage F))
  unfolding message_from_bytes
  decode_all i [] = pure []
  decode_all i (q ∷ qs) = do
    m ← (λ s. (message_from_bytes floats (s.blocks i).struct i none q.body, s))
    ms ← decode_all i qs
    pure (m ∷ ms)

  -- The generator `receive` run over the packets that arrive until it is closed: the data packets of all
  -- blocks are taken for those of this one.
  unfoldable pub receive :
      Rates F → ℕ → Timing F → List CrtpPacket → Exec (Log S) (List (LogMessage F))
  unfolding submitted started decode_all data_packets
  receive rates i timing packets =
      submitted i true (started rates i timing (decode_all i (data_packets packets)))
