-- ===== src/Tests/CrtpRuns.antt =====
-- Packets, the dispatcher, the command exchange, the strategies and the safe link at concrete inputs.
use mathlib.Core.List.{Perm}
use aiocflib.Prelude.{
  ℕ, zero, suc, ◌+◌, ◌-◌, ◌*◌, ◌%◌, ◌≤◌, ◌≡◌, refl, true, false, List, [], ◌∷◌, ◌++◌, none, some,
  ok, err, io_error, Bytes, All, leb, ltb, if◌then◌else◌, arith, Option,
}
use aiocflib.Prelude.Exec.{Exec}
use aiocflib.Crtp.Port.{parameters, to_port}
use aiocflib.Crtp.Packet.{
  CrtpPacket, bytes, new, to_bytes, from_bytes, port, channel, port_bits, null_packet, is_null,
  to_bytes_object,
}
use aiocflib.Crtp.Packet.Fields.{IsPacket}
use aiocflib.Crtp.Packet.RoundTrip.{from_bytes-to_bytes}
use aiocflib.Crtp.Dispatcher
use aiocflib.Crtp.Dispatcher.{Dispatcher, Disposer, dispatch}
use aiocflib.Crtp.Dispatcher.Tables.{targets, concerns, dispatch-Calls, Calls, targets-register}
use aiocflib.Crtp.Dispatcher.Disposal.{dispose-register}
use aiocflib.Crtp.Command.{
  Request, raw, run_command, handle_data_argument, matching_response, first_match, request_packet,
}
use aiocflib.Crtp.Command.Answered.{after_sending, run_command-answered}
use aiocflib.Crtp.Command.Matching.{Answers, run_command-Answers}
use aiocflib.Crtp.Strategies.{wait, accept, stop, resend, backoff_poll, patient_resend}
use aiocflib.Crtp.Strategies.Polling.{
  History, trailing_empty, backoff_after, doubled, backoff_poll_lem,
}
use aiocflib.Crtp.Strategies.Resending.{failures, patient_after, patience, patient_resend_lem}
use aiocflib.Crtp.SafeLink.{
  Acknowledgment, enables, acquires, updates, step, encode, try_to_acquire, init, echoes,
  notify_acquired,
}
use aiocflib.Crtp.SafeLink.Counters.{
  after, exchanges, up_alternates, from_bytes-encode, Negotiated, try_to_acquire_lem,
}

-- A packet of the parameter service on channel 1.
abbrev packet : CrtpPacket
packet = record { header = 0x2d; body = 7 ∷ 8 ∷ [] }

packet-IsPacket : IsPacket packet
packet-IsPacket = record { header_byte = omega arith; body_bytes = omega arith }

blank_packet :
    new none (some (bytes (7 ∷ 8 ∷ []))) (some 2) 1 ≡ ok (record packet { header = 0x21 })
unfolding new
blank_packet = refl

from_bytes-to_bytes_example :
    (bs : Bytes) × (q : CrtpPacket) × (to_bytes packet (1 * 4) ≡ ok bs)
    × (from_bytes (bytes bs) ≡ ok q)
    × (port q ≡ port packet)
    × (channel q ≡ channel packet)
    × (q.body ≡ packet.body)
from_bytes-to_bytes_example = from_bytes-to_bytes packet 1 packet-IsPacket (omega arith)

null_is_null : is_null null_packet ≡ true
unfolding is_null null_packet
null_is_null = refl

-- Three handlers; number 2 raises.
abbrev logged : ℕ → CrtpPacket → Exec (List ℕ) (Unit {0})
logged h p log = (if leb 2 h then err (io_error 5) else ok tt, h ∷ log)

abbrev table : Dispatcher
table = record { by_port_sync = λ key. 1 ∷ []; by_port_async = λ key. 2 ∷ [] }

dispatch-Calls_example :
    Calls logged packet (targets table parameters) [] (dispatch logged table packet [])
dispatch-Calls_example = dispatch-Calls logged table packet parameters [] parsed
  where
    parsed : port packet ≡ ok parameters
    parsed = unfold port to_port in refl

-- The second handler raises, so the handlers for all packets are not called.
dispatch_stops : dispatch logged table packet [] ≡ (err (io_error 5), 2 ∷ 1 ∷ [])
unfolding dispatch port to_port
dispatch_stops = refl

abbrev with_handler : Dispatcher
with_handler = record table {
  by_port_sync = Dispatcher.put table.by_port_sync (some 2) (1 ∷ 7 ∷ []);
}

abbrev token : Disposer
token = record { is_async = false; key = some 2; handler = 7 }

registers : Dispatcher.register 7 false (some 2) table ≡ ok (with_handler, token)
unfolding Dispatcher.register to_port
registers = refl

targets-register_example : Perm (targets with_handler parameters) (
    if concerns (some 2) parameters then 7 ∷ targets table parameters else targets table parameters)
targets-register_example =
    targets-register 7 false (some 2) table with_handler token parameters registers

dispose-register_example :
    (f : Dispatcher) × (Dispatcher.dispose token with_handler ≡ ok f)
    × Perm (targets f parameters) (targets table parameters)
dispose-register_example =
    dispose-register 7 false (some 2) table with_handler token parameters registers

-- A device that answers the second packet; its state counts the packets.
abbrev second_time : CrtpPacket → ℕ → List CrtpPacket × ℕ
second_time p zero = ([], 1)
second_time p (suc n) = (packet ∷ [], n + 2)

abbrev request : Request
request = record { port = 2; channel = 1; command = some (raw (7 ∷ [])); payload = [] }

answered : (run_command second_time 3 request 0).0 ≡ ok (8 ∷ [])
unfolding run_command handle_data_argument matching_response first_match to_port channel port_bits
answered = refl

run_command-Answers_example :
    (encoded : Bytes) × (q : CrtpPacket) × (handle_data_argument request.command ≡ ok encoded)
    × (q.header ≡ 0x2d)
    × Answers request encoded q
    × (q.body ≡ encoded ++ 8 ∷ [])
run_command-Answers_example =
    run_command-Answers second_time (λ q. q.header ≡ 0x2d) 3 request 0 (8 ∷ []) headers answered
  where
    headers :
        (p : CrtpPacket) (n : ℕ) → All (λ (q : CrtpPacket). q.header ≡ 0x2d) (second_time p n).0
    headers p zero = tt
    headers p (suc n) = (refl, tt)

second_answers :
    first_match
      (matching_response request (7 ∷ []))
      (second_time
        (request_packet request (7 ∷ []) [])
        (after_sending second_time 1 (request_packet request (7 ∷ []) []) 0)).0
    ≡ some packet
unfolding after_sending first_match matching_response channel port_bits
second_answers = refl

encoded_command : handle_data_argument request.command ≡ ok (7 ∷ [])
unfolding handle_data_argument
encoded_command = refl

empty_payload : to_bytes_object request.payload ≡ ok []
unfolding to_bytes_object
empty_payload = refl

port_2 : to_port request.port ≡ ok parameters
unfolding to_port
port_2 = refl

run_command-answered_example : (bs : Bytes) × ((run_command second_time 3 request 0).0 ≡ ok bs)
run_command-answered_example =
    run_command-answered second_time 3 1 request (7 ∷ []) [] parameters packet 0 encoded_command
      empty_payload port_2 (omega arith) second_answers

-- Eleven empty exchanges, the first after one with data.
abbrev quiet : ℕ → History
quiet zero = (1 ∷ 2 ∷ [], 1 ∷ []) ∷ []
quiet (suc n) = (1 ∷ [], 1 ∷ []) ∷ quiet n

backoff_poll_lem_example :
    (backoff_poll (backoff_after 10 250 (quiet 10)) (1 ∷ []) (1 ∷ [])).1
    ≡ wait (
        if leb 10 (trailing_empty (quiet 11))
        then doubled 10 250 (trailing_empty (quiet 11) - 10)
        else 0)
backoff_poll_lem_example = backoff_poll_lem 10 250 (quiet 10) (1 ∷ []) (1 ∷ []) (omega arith)

backoff_doubles : (backoff_poll (backoff_after 10 250 (quiet 10)) (1 ∷ []) (1 ∷ [])).1 ≡ wait 20
unfolding backoff_poll backoff_after
backoff_doubles = refl

patient_resend_lem_example : (patient_resend (patient_after 5 (false ∷ true ∷ [])) false).1 ≡ (
    if false
    then accept
    else if ltb (failures (false ∷ true ∷ [])) 49
    then resend (patience (failures (false ∷ true ∷ []) + 1))
    else stop)
patient_resend_lem_example = patient_resend_lem 5 (false ∷ true ∷ []) false

abbrev confirmed : Acknowledgment
confirmed = record { ack = true; payload = 0 ∷ [] }

up_alternates_example :
    (after (updates confirmed ∷ acquires ∷ enables ∷ [])).up
    ≡ 8 * (exchanges (updates confirmed ∷ acquires ∷ enables ∷ []) % 2)
unfolding after step
up_alternates_example = up_alternates (updates confirmed ∷ acquires ∷ enables ∷ []) refl

from_bytes-encode_example :
    (bs : Bytes) × (q : CrtpPacket) × (encode (after (updates confirmed ∷ acquires ∷ [])) packet
      ≡ ok bs)
    × (from_bytes (bytes bs) ≡ ok q)
    × (port q ≡ port packet)
    × (channel q ≡ channel packet)
    × (q.body ≡ packet.body)
from_bytes-encode_example =
    from_bytes-encode (updates confirmed ∷ acquires ∷ []) packet packet-IsPacket

abbrev echo : Acknowledgment
echo = record { ack = true; payload = 0xFF ∷ 5 ∷ 1 ∷ [] }

abbrev echoed_second : List (Option Acknowledgment)
echoed_second = none ∷ some echo ∷ []

try_to_acquire_lem_example :
    let (done, sent, t) = try_to_acquire echoed_second init in
    Negotiated 10 echoed_second init done t × (sent ≤ 10)
try_to_acquire_lem_example = try_to_acquire_lem echoed_second init

echoed_in_second :
    try_to_acquire echoed_second init ≡ (true, 2, record init { up = 0; down = 0; acquired = true })
unfolding try_to_acquire echoes notify_acquired
echoed_in_second = refl
