-- ===== src/Crtp/Command/Answered.antt =====
-- When `run_command` returns: a matching packet that arrives within the attempts ends the wait.
use aiocflib.Prelude.{
  ℕ, zero, suc, ◌<◌, ◌≡◌, refl, Bool, List, Option, none, some, ok, Bytes, length, drop,
  Option-cases, of_some, inl, inr, arith,
}
use aiocflib.Crtp.Port.{CrtpPort, to_port}
use aiocflib.Crtp.Packet.{CrtpPacket, to_bytes_object}
use aiocflib.Crtp.Command.{
  Request, handle_data_argument, matching_response, first_match, request_packet, attempt, conclude,
  run_command,
}

module _ {W : Type 0} (exchange : CrtpPacket → W → List CrtpPacket × W) where
  -- The state of the device after a packet was sent `k` times.
  unfoldable pub after_sending : ℕ → CrtpPacket → W → W
  after_sending zero packet w = w
  after_sending (suc k) packet w = after_sending k packet (exchange packet w).1

  attempt_answered :
      (n k : ℕ) (matches : CrtpPacket → Bool) (packet : CrtpPacket) (w : W) (q : CrtpPacket)
      → k < n
      → first_match matches (exchange packet (after_sending k packet w)).0 ≡ some q
      → (p : CrtpPacket) × ((attempt exchange n matches packet w).0 ≡ some p)
  unfolding attempt after_sending
  attempt_answered zero k matches packet w q small h = elim small [ ]
  attempt_answered (suc n) zero matches packet w q small h = (q, rw (h, attempt) refl)
  attempt_answered (suc n) (suc k) matches packet w q small h =
      let later =
        attempt_answered n k matches packet (exchange packet w).1 q (omega (arith, small)) h in
      elim (Option-cases (first_match matches (exchange packet w).0)) [
        | inr (p, e) ↦ (p, rw (e, attempt) refl)
        | inl e ↦ (later.0, rw (e, attempt) later.1)
      ]

  conclude-some :
      (encoded : Bytes) (x : Option CrtpPacket × W) (q : CrtpPacket)
      → x.0 ≡ some q
      → (conclude exchange encoded x).0 ≡ ok (drop (length encoded) q.body)
  unfolding conclude
  conclude-some encoded (none, w) q h = absurd (ground arith)
  conclude-some encoded (some p, w) q h =
      of_some (λ y. (conclude exchange encoded (some p, w)).0 ≡ ok (drop (length encoded) y.body)) h
        refl

  -- A command that can be encoded, for a port that exists, returns (and so does not time out) when a packet
  -- that matches the request would arrive after one of its attempts.
  pub run_command-answered :
      (attempts k : ℕ) (r : Request) (encoded payload : Bytes) (port : CrtpPort) (q : CrtpPacket)
      (w : W)
      → handle_data_argument r.command ≡ ok encoded
      → to_bytes_object r.payload ≡ ok payload
      → to_port r.port ≡ ok port
      → k < attempts
      → (let packet = request_packet r encoded payload in
          first_match (matching_response r encoded) (exchange packet (after_sending k packet w)).0
          ≡ some q)
      → (bs : Bytes) × ((run_command exchange attempts r w).0 ≡ ok bs)
  unfolding run_command
  run_command-answered attempts k r encoded payload port q w e f g small h =
      let (p, found) =
        attempt_answered attempts k (matching_response r encoded) (request_packet r encoded payload)
          w q small h in
      (drop (length encoded) p.body, rw (e, f, g, run_command) (conclude-some encoded _ p found))
