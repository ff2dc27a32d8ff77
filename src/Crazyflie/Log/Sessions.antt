-- ===== src/Crazyflie/Log/Sessions.antt =====
-- The class `LogSession` of aiocflib/crazyflie/log.py: several blocks that are submitted and started together,
-- and the log messages that arrive for them.
pub mod Entering
pub mod Dispatching
pub mod Leaving
use aiocflib.Prelude.{
  ℕ, Bool, true, false, List, [], ◌∷◌, ◌++◌, Option, none, some, Result, ok, err, bind,
  runtime_error, assertion_error, if◌then◌else◌, Bytes, lookup, insert,
}
use aiocflib.Prelude.Exec.{Exec, pure, raise, lift, finally, ◌>>=◌, ◌>>◌}
use aiocflib.Crtp.Packet.{CrtpPacket}
use aiocflib.Crazyflie.Client.{Crazyflie}
use aiocflib.Crazyflie.Names.{Text}
use aiocflib.Crazyflie.Log.{LogMessage, message_from_bytes, data_packets}
use aiocflib.Crazyflie.Log.Periods.{Rates, Timing, process_period_and_frequency, milliseconds}
use aiocflib.Crazyflie.Log.Blocks.{LogBlock, Log, is_submitted, same_id, Disposer}
use aiocflib.Crazyflie.Log.Commands.{
  reset, new_block, add_variable, submit, start, run_disposer, stop_log_block_by_id,
}

-- The triple that `add_block` appends; a handler is a number.
pub record Entry : Type 0 where
  pub block : ℕ
  pub period_msec : ℕ
  pub handler : Option ℕ

-- The contexts on the exit stack: `submitted` with its disposer, and `started` with its number.
pub data Cleanup : Type 0 where
  disposal : Disposer → Cleanup
  stopping : ℕ → Cleanup

-- The exit stack has the context that was entered last in front.
pub record LogSession : Type 0 where
  pub entries : List Entry
  pub stack : Option (List Cleanup)
  pub id_mapping : Option (List (Option ℕ × Entry))
  pub remove_existing : Bool
  pub graceful : Bool

-- A session and the `Log` that owns it.
pub record Session (S : Type 0) : Type 0 where
  pub log : Log S
  pub session : LogSession

abbrev pub new_session : LogSession
new_session = record {
  entries = [];
  stack = none;
  id_mapping = none;
  remove_existing = false;
  graceful = false;
}

abbrev pub or_else {ℓ} : {A : Type ℓ} → Option A → A → A
or_else none a = a
or_else (some b) a = b

unfoldable pub configure : Option Bool → Option Bool → LogSession → LogSession
configure graceful remove_existing s = record s {
  graceful = or_else graceful s.graceful;
  remove_existing = or_else remove_existing s.remove_existing;
}

module _ {S F : Type 0} (cf : Crazyflie S F) (rates : Rates F) where
  open cf use {floats}

  unfoldable pub on_log : {A : Type 0} → Exec (Log S) A → Exec (Session S) A
  on_log m s = let (r, l) = m s.log in (r, record s { log = l })

  -- The test whether the block is added already compares it with the triples, and is never true.
  unfoldable pub add_block : ℕ → Timing F → Option ℕ → Exec (Session S) (Unit {0})
  unfolding process_period_and_frequency
  add_block i timing handler s =
      if is_submitted (s.log.blocks i)
      then (err runtime_error, s)
      else elim (process_period_and_frequency rates timing) [
        | err e ↦ (err e, s)
        | ok msec ↦
            let entry : Entry = record { block = i; period_msec = msec; handler = handler } in
            (
              ok tt,
              record s { session = record s.session { entries = s.session.entries ++ entry ∷ [] } },
            )
      ]

  add_variables : ℕ → List Text → Exec (Log S) (Unit {0})
  unfolding add_variable
  add_variables i [] = pure tt
  add_variables i (name ∷ names) = do add_variable cf i name none; add_variables i names

  unfoldable pub create_block : List Text → Timing F → Option ℕ → Exec (Session S) ℕ
  unfolding on_log new_block add_variables add_block
  create_block names timing handler = do
    i ← on_log (new_block cf)
    on_log (add_variables i names)
    add_block i timing handler
    pure i

  unfoldable pub push : Cleanup → Exec (Session S) (Unit {0})
  push c s = (
    ok tt,
    record s { session = record s.session { stack = some (c ∷ or_else s.session.stack []) } },
  )

  -- Each block is submitted, and its number is the key of its entry.
  unfoldable pub enter_submitted :
      List Entry → List (Option ℕ × Entry) → Exec (Session S) (List (Option ℕ × Entry))
  unfolding on_log submit push insert
  enter_submitted [] mapping = pure mapping
  enter_submitted (e ∷ es) mapping = do
    disposer ← on_log (submit cf e.block false)
    push (disposal disposer)
    λ s. enter_submitted es (insert same_id (s.log.blocks e.block).id e mapping) s

  unfoldable pub enter_started : List Entry → Exec (Session S) (Unit {0})
  unfolding on_log start milliseconds push
  enter_started [] = pure tt
  enter_started (e ∷ es) = do
    id ← on_log (start cf rates e.block (milliseconds e.period_msec))
    push (stopping id)
    enter_started es

  unfoldable pub enter_blocks : Exec (Session S) (Unit {0})
  unfolding enter_submitted enter_started
  enter_blocks = do
    mapping ← (λ s. enter_submitted s.session.entries [] s)
    λ s. enter_started s.session.entries s
    λ s. (ok tt, record s { session = record s.session { id_mapping = some mapping } })

  unfoldable pub enter_all : Exec (Session S) (Unit {0})
  unfolding on_log reset enter_blocks
  enter_all = do
    λ s. (if s.session.remove_existing then on_log (reset cf) s else (ok tt, s))
    enter_blocks

  -- `__aenter__`: what was entered before an exception stays entered.
  unfoldable pub aenter : Exec (Session S) (Unit {0})
  unfolding enter_all
  aenter s = elim s.session.stack [
    | some cs ↦ (err runtime_error, s)
    | none ↦ enter_all (record s { session = record s.session { stack = some [] } })
  ]

  unfoldable pub run_cleanup : Cleanup → Exec (Log S) (Unit {0})
  unfolding run_disposer stop_log_block_by_id
  run_cleanup (disposal d) = run_disposer cf d
  run_cleanup (stopping id) = stop_log_block_by_id cf id

  -- The exit stack: every context is left, and the last exception is the one that is raised.
  unfoldable pub unwind : List Cleanup → Exec (Log S) (Unit {0})
  unfolding run_cleanup
  unwind [] = pure tt
  unwind (c ∷ cs) = finally (run_cleanup c) (unwind cs)

  -- `__aexit__`: whether an exception of the body is swallowed. Without a stack its assertion fails.
  exit_result : Bool → Result (Unit {0}) → Result Bool
  exit_result graceful (ok a) = ok false
  exit_result true (err e) = ok true
  exit_result false (err e) = err e

  leave_stack : Option (List Cleanup) → Exec (Log S) (Unit {0})
  unfolding unwind
  leave_stack none = raise assertion_error
  leave_stack (some cs) = unwind cs

  unfoldable pub aexit : Exec (Session S) Bool
  unfolding leave_stack exit_result
  aexit s =
      let (r, l) = leave_stack s.session.stack s.log in
      (
        exit_result s.session.graceful r,
        record { log = l; session = record s.session { stack = none; id_mapping = none } },
      )

  -- What one data packet gives: nothing if its number is not one of the session's.
  unfoldable pub decode_packet :
      List (Option ℕ × Entry) → CrtpPacket → Log S → Result (Option (LogMessage F))
  unfolding lookup message_from_bytes
  decode_packet mapping q l = elim q.body [
    | [] ↦ ok none
    | b ∷ bs ↦ elim (lookup same_id (some b) mapping) [
      | none ↦ ok none
      | some e ↦
          bind (message_from_bytes floats (l.blocks e.block).struct e.block e.handler (b ∷ bs))
            (λ m. ok (some m))
    ]
  ]

  -- The generator over the packets that arrive, with what is done for each message.
  unfoldable pub each_message :
      List (Option ℕ × Entry)
      → (LogMessage F → Exec (Session S) (Unit {0}))
      → List CrtpPacket
      → Exec (Session S) (Unit {0})
  unfolding decode_packet
  each_message mapping use_message [] = pure tt
  each_message mapping use_message (q ∷ qs) = do
    m ← (λ s. (decode_packet mapping q s.log, s))
    elim m [ none ↦ pure tt | some message ↦ use_message message ]
    each_message mapping use_message qs

  -- `messages`, with the body of the loop over it.
  unfoldable pub messages :
      (LogMessage F → Exec (Session S) (Unit {0})) → List CrtpPacket → Exec (Session S) (Unit {0})
  unfolding each_message data_packets
  messages use_message packets s = elim s.session.id_mapping [
    | none ↦ (err runtime_error, s)
    | some mapping ↦ each_message mapping use_message (data_packets packets) s
  ]

  -- `LogMessage.process`, and the task that processes the messages; `call` is what the handlers do.
  unfoldable pub process :
      (ℕ → LogMessage F → Exec (Session S) (Unit {0})) → LogMessage F → Exec (Session S) (Unit {0})
  process call m = elim m.handler [ none ↦ pure tt | some h ↦ call h m ]

  unfoldable pub process_messages :
      (ℕ → LogMessage F → Exec (Session S) (Unit {0}))
      → List CrtpPacket
      → Exec (Session S) (Unit {0})
  unfolding messages process
  process_messages call = messages (process call)
