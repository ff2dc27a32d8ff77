-- ===== src/Crtp/Dispatcher.antt =====
-- `CRTPDispatcher` of aiocflib/crtp/crtpstack.py. Handlers are numbers, equal when they are the same
-- handler; a dispatch table maps a port, or no port for all packets, to its handlers in their order.
-- Handlers do not change the tables while a packet is dispatched.
pub mod Tables
pub mod Disposal
use aiocflib.Prelude.{
  ℕ, Bool, true, false, List, [], ◌∷◌, ◌++◌, Option, none, some, Result, ok, err, bind, value_error,
  ◌==◌, if◌then◌else◌,
}
use aiocflib.Prelude.Exec.{Exec, pure, raise, ◌>>=◌, ◌>>◌}
use aiocflib.Crtp.Port.{CrtpPort, to_port, port_value}
use aiocflib.Crtp.Packet.{CrtpPacket, port}

abbrev pub Table : Type 0
Table = Option ℕ → List ℕ

abbrev pub same_key : Option ℕ → Option ℕ → Bool
same_key none none = true
same_key none (some b) = false
same_key (some a) none = false
same_key (some a) (some b) = a == b

unfoldable pub put : Table → Option ℕ → List ℕ → Table
put table key handlers q = if same_key key q then handlers else table q

pub record Dispatcher : Type 0 where
  pub by_port_sync : Table
  pub by_port_async : Table

abbrev pub init : Dispatcher
init = record { by_port_sync = λ key. []; by_port_async = λ key. [] }

-- What `register` returns: the list that was extended, and the handler to remove from it.
pub record Disposer : Type 0 where
  pub is_async : Bool
  pub key : Option ℕ
  pub handler : ℕ

-- `CRTPPort(port)` unless the port is `None`
abbrev port_key : Option ℕ → Result (Option ℕ)
port_key none = ok none
port_key (some n) = bind (to_port n) (λ p. ok (some (port_value p)))

pub append_handler : Bool → Option ℕ → ℕ → Dispatcher → Dispatcher
unfolding put
append_handler true key h d = record d {
  by_port_async = put d.by_port_async key (d.by_port_async key ++ h ∷ []);
}
append_handler false key h d = record d {
  by_port_sync = put d.by_port_sync key (d.by_port_sync key ++ h ∷ []);
}

unfoldable pub register : ℕ → Bool → Option ℕ → Dispatcher → Result (Dispatcher × Disposer)
unfolding append_handler to_port
register h is_async port d = bind (port_key port) λ key.
    ok (append_handler is_async key h d, record { is_async = is_async; key = key; handler = h })

-- `handlers.remove(handler)`: the first occurrence goes, and a missing one raises.
unfoldable pub remove : ℕ → List ℕ → Result (List ℕ)
remove h [] = err value_error
remove h (x ∷ xs) =
    let rest = remove h xs in if x == h then ok xs else bind rest (λ ys. ok (x ∷ ys))

unfoldable pub dispose : Disposer → Dispatcher → Result Dispatcher
unfolding remove put
dispose r d =
    if r.is_async
    then bind (remove r.handler (d.by_port_async r.key))
        (λ hs. ok (record d { by_port_async = put d.by_port_async r.key hs }))
    else bind (remove r.handler (d.by_port_sync r.key))
        (λ hs. ok (record d { by_port_sync = put d.by_port_sync r.key hs }))

-- The loop over one list: an exception of a handler ends it.
unfoldable pub run_all :
    {S : Type 0} → (ℕ → CrtpPacket → Exec S (Unit {0})) → List ℕ → CrtpPacket → Exec S (Unit {0})
run_all call [] packet = pure tt
run_all call (h ∷ hs) packet = call h packet >> run_all call hs packet

-- Sync handlers of the port, async ones, then those for all packets in the same way.
unfoldable pub dispatch :
    {S : Type 0}
    → (ℕ → CrtpPacket → Exec S (Unit {0}))
    → Dispatcher
    → CrtpPacket
    → Exec S (Unit {0})
unfolding run_all
dispatch call d packet s = elim (port packet) [
  | err e ↦ (err e, s)
  | ok p ↦
      let key : Option ℕ = some (port_value p) in
      (run_all call (d.by_port_sync key) packet
          >> run_all call (d.by_port_async key) packet
          >> run_all call (d.by_port_sync none) packet
          >> run_all call (d.by_port_async none) packet)
        s
]
