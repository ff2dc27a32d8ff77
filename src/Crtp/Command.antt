-- ===== src/Crtp/Command.antt =====
-- `CRTPDevice.run_command` of aiocflib/crtp/device.py, with the matcher of
-- `CRTPDispatcher.wait_for_next_packet`. What the device answers is a parameter: `exchange` takes a packet
-- that is sent and gives the packets that arrive before the timeout of that attempt, in their order. The
-- first packet that matches ends the wait, and the matcher is gone before the next packet.
pub mod Matching
pub mod Answered
use aiocflib.Prelude.{
  ℕ, zero, suc, Bool, true, false, ◌&&◌, List, [], ◌∷◌, ◌++◌, Option, none, some, Result, ok, err,
  bind, timeout_error, ◌==◌, if◌then◌else◌, Bytes, length, drop,
}
use aiocflib.Prelude.Exec.{Exec}
use aiocflib.Crtp.Port.{CrtpPort, to_port, port_value}
use aiocflib.Crtp.Packet.{CrtpPacket, port_bits, channel, header_of, to_bytes_object}

-- Objects from which the bytes of a command are made: an integer, a bytes object, or a sequence of both.
pub data Part : Type 0 where
  byte : ℕ → Part
  chunk : Bytes → Part

pub data CommandLike : Type 0 where
  one : ℕ → CommandLike
  raw : Bytes → CommandLike
  parts : List Part → CommandLike

part_bytes : Part → Result Bytes
unfolding to_bytes_object
part_bytes (byte n) = to_bytes_object (n ∷ [])
part_bytes (chunk bs) = ok bs

join_parts : List Part → Result Bytes
unfolding part_bytes
join_parts [] = ok []
join_parts (p ∷ ps) =
    let rest = join_parts ps in bind (part_bytes p) (λ bs. bind rest (λ cs. ok (bs ++ cs)))

-- `_handle_data_argument`
unfoldable pub handle_data_argument : Option CommandLike → Result Bytes
unfolding join_parts to_bytes_object
handle_data_argument none = ok []
handle_data_argument (some (one n)) = to_bytes_object (n ∷ [])
handle_data_argument (some (raw bs)) = ok bs
handle_data_argument (some (parts ps)) = join_parts ps

-- The arguments of `run_command`; no data is the empty list.
pub record Request : Type 0 where
  pub port : ℕ
  pub channel : ℕ
  pub command : Option CommandLike
  pub payload : List ℕ

unfoldable pub starts_with : Bytes → Bytes → Bool
starts_with [] bs = true
starts_with (a ∷ as') [] = false
starts_with (a ∷ as') (b ∷ bs) = a == b && starts_with as' bs

-- The port of the registration, the channel, and the command in front of the data.
unfoldable pub matching_response : Request → Bytes → CrtpPacket → Bool
unfolding starts_with
matching_response r encoded q =
    port_bits q.header == r.port && (channel q == r.channel && starts_with encoded q.body)

unfoldable pub first_match : (CrtpPacket → Bool) → List CrtpPacket → Option CrtpPacket
first_match matches [] = none
first_match matches (q ∷ qs) =
    let rest = first_match matches qs in if matches q then some q else rest

-- The packet that is sent: `CRTPPacket(port=port, channel=channel)` with the command and the data.
unfoldable pub request_packet : Request → Bytes → Bytes → CrtpPacket
unfolding header_of
request_packet r encoded bs = record {
  header = (header_of none (some r.port) r.channel).header;
  body = encoded ++ bs;
}

module _ {W : Type 0} (exchange : CrtpPacket → W → List CrtpPacket × W) where
  -- The loop: send, wait, and try again while attempts are left.
  unfoldable pub attempt : ℕ → (CrtpPacket → Bool) → CrtpPacket → W → Option CrtpPacket × W
  attempt zero matches packet w = (none, w)
  attempt (suc attempts) matches packet w =
      let (arrived, w') = exchange packet w in
      elim (first_match matches arrived) [
        | some q ↦ (some q, w')
        | none ↦ attempt attempts matches packet w'
      ]

  -- `response[len(encoded_command) :]`
  conclude : Bytes → Option CrtpPacket × W → Result Bytes × W
  conclude encoded (none, w) = (err timeout_error, w)
  conclude encoded (some q, w) = (ok (drop (length encoded) q.body), w)

  -- With the default timeout, which is positive.
  unfoldable pub run_command : ℕ → Request → Exec W Bytes
  unfolding attempt conclude
  run_command attempts r w = elim (handle_data_argument r.command) [
    | err e ↦ (err e, w)
    | ok encoded ↦ elim (to_bytes_object r.payload) [
      | err e ↦ (err e, w)
      | ok bs ↦ elim (to_port r.port) [
        | err e ↦ (err e, w)
        | ok p ↦
            conclude encoded
              (attempt attempts (matching_response r encoded) (request_packet r encoded bs) w)
      ]
    ]
  ]
