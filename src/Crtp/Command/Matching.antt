-- ===== src/Crtp/Command/Matching.antt =====
-- What `run_command` returns: the rest of a packet that answers the request, or a timeout after all its
-- attempts.
use aiocflib.Prelude.{
  ℕ, zero, suc, ◌≤◌, ◌+◌, ◌≡◌, ◌≢◌, refl, ap, ◌∙◌, Bool, true, List, [], ◌∷◌, ◌++◌, Option, none,
  some, ok, Bytes, length, drop, All, Option-cases, Result-cases, Bool-cases, inl, inr, ◌⊎◌,
  of_some, arith,
}
use aiocflib.Crtp.Port.{to_port}
use aiocflib.Crtp.Packet.{CrtpPacket, port_bits, channel, to_bytes_object}
use aiocflib.Crtp.Command.{
  Request, handle_data_argument, starts_with, matching_response, first_match, request_packet,
  attempt, conclude, run_command,
}

starts_with-append : (as' bs : Bytes) → starts_with as' bs ≡ true → bs ≡ as' ++ drop (length as') bs
unfolding starts_with
starts_with-append [] bs h = refl
starts_with-append (a ∷ as') [] h = absurd (ground arith)
starts_with-append (a ∷ as') (b ∷ bs) h =
    let same : a ≡ b = ground (arith, h) in
    let rest : starts_with as' bs ≡ true = ground (arith, h) in
    rw same (ap (λ cs. b ∷ cs) (starts_with-append as' bs rest))

-- A packet that answers a request, as the request is encoded.
pub record Answers (r : Request) (encoded : Bytes) (q : CrtpPacket) : Type 0 where
  pub same_port : port_bits q.header ≡ r.port
  pub same_channel : channel q ≡ r.channel
  pub same_command : q.body ≡ encoded ++ drop (length encoded) q.body

matching_response-Answers :
    (r : Request) (encoded : Bytes) (q : CrtpPacket)
    → matching_response r encoded q ≡ true
    → Answers r encoded q
unfolding matching_response
matching_response-Answers r encoded q h = record {
  same_port = ground (arith, h);
  same_channel = ground (arith, h);
  same_command = starts_with-append encoded q.body (ground (arith, h));
}

module _ (P : CrtpPacket → Type 0) (matches : CrtpPacket → Bool) where
  first_match-some :
      (qs : List CrtpPacket) (q : CrtpPacket)
      → All P qs
      → first_match matches qs ≡ some q
      → P q × (matches q ≡ true)
  unfolding first_match
  first_match-some [] q a h = absurd (ground arith)
  first_match-some (x ∷ qs) q a h = elim (Bool-cases (matches x)) [
    | inl c ↦
        let e : some x ≡ some q = rw c at h in of_some (λ y. P y × (matches y ≡ true)) e (a.0, c)
    | inr c ↦ first_match-some qs q a.1 (ground (arith, c, h))
  ]

module _ {W : Type 0} (exchange : CrtpPacket → W → List CrtpPacket × W) where
  attempt-some :
      (P : CrtpPacket → Type 0) (matches : CrtpPacket → Bool) (n : ℕ) (packet : CrtpPacket) (w : W)
      (q : CrtpPacket)
      → ((p : CrtpPacket) (v : W) → All P (exchange p v).0)
      → (attempt exchange n matches packet w).0 ≡ some q
      → P q × (matches q ≡ true)
  unfolding attempt
  attempt-some P matches zero packet w q all h = absurd (ground arith)
  attempt-some P matches (suc n) packet w q all h =
      elim (Option-cases (first_match matches (exchange packet w).0)) [
        | inl e ↦ attempt-some P matches n packet (exchange packet w).1 q all (rw (e, attempt) at h)
        | inr (x, e) ↦
            let f : some x ≡ some q = rw (e, attempt) at h in
            of_some (λ y. P y × (matches y ≡ true)) f
              (first_match-some P matches (exchange packet w).0 x (all packet w) e)
      ]

  conclude-ok :
      (encoded bs : Bytes) (x : Option CrtpPacket × W)
      → (conclude exchange encoded x).0 ≡ ok bs
      → (q : CrtpPacket) × (x.0 ≡ some q) × (drop (length encoded) q.body ≡ bs)
  unfolding conclude
  conclude-ok encoded bs (none, w) h = absurd (ground arith)
  conclude-ok encoded bs (some q, w) h = (q, refl, ground arith)

  -- A run that returns has an answer: a packet that arrived (so it has every property that the packets that
  -- arrive have), with the port and the channel of the request, whose data is the encoded command followed
  -- by what is returned.
  pub run_command-Answers :
      (P : CrtpPacket → Type 0) (attempts : ℕ) (r : Request) (w : W) (bs : Bytes)
      → ((p : CrtpPacket) (v : W) → All P (exchange p v).0)
      → (run_command exchange attempts r w).0 ≡ ok bs
      → (encoded : Bytes) × (q : CrtpPacket) × (handle_data_argument r.command ≡ ok encoded)
        × P q
        × Answers r encoded q
        × (q.body ≡ encoded ++ bs)
  unfolding run_command
  run_command-Answers P attempts r w bs all h =
      elim (Result-cases (handle_data_argument r.command)) [
        | inr (x, e) ↦ absurd (ground (arith, e, h))
        | inl (encoded, e) ↦ elim (Result-cases (to_bytes_object r.payload)) [
          | inr (x, f) ↦ absurd (ground (arith, e, f, h))
          | inl (payload, f) ↦ elim (Result-cases (to_port r.port)) [
            | inr (x, g) ↦ absurd (ground (arith, e, f, g, h))
            | inl (p, g) ↦
                let packet = request_packet r encoded payload in
                let (q, found, rest) =
                  conclude-ok encoded bs
                    (attempt exchange attempts (matching_response r encoded) packet w)
                    (rw (e, f, g, run_command) at h) in
                let (arrived, m) =
                  attempt-some P (matching_response r encoded) attempts packet w q all found in
                let answer = matching_response-Answers r encoded q m in
                (
                  encoded,
                  q,
                  e,
                  arrived,
                  answer,
                  answer.same_command ∙ ap (λ ys. encoded ++ ys) rest,
                )
          ]
        ]
      ]

  -- The same device with a count of the packets that were sent to it.
  unfoldable pub counted : CrtpPacket → W × ℕ → List CrtpPacket × (W × ℕ)
  counted packet (w, n) = ((exchange packet w).0, ((exchange packet w).1, n + 1))

module _ {W : Type 0} (exchange : CrtpPacket → W → List CrtpPacket × W) where
  -- The loop sends one packet for each attempt until one is answered: a packet was returned after at most
  -- all attempts, and none only after all of them.
  pub attempt_count :
      (n : ℕ) (matches : CrtpPacket → Bool) (packet : CrtpPacket) (w : W) (k : ℕ)
      → ((attempt (counted exchange) n matches packet (w, k)).1.1 ≤ k + n)
        × (((attempt (counted exchange) n matches packet (w, k)).0 ≢ none)
            ⊎ ((attempt (counted exchange) n matches packet (w, k)).1.1 ≡ k + n))
  unfolding attempt counted
  attempt_count zero matches packet w k = (omega arith, inr (omega arith))
  attempt_count (suc n) matches packet w k =
      elim (Option-cases (first_match matches (exchange packet w).0)) [
        | inl e ↦
            let ih = attempt_count n matches packet (exchange packet w).1 (k + 1) in
            rw (e, attempt)
              (omega (arith, ih.0), elim ih.1 [ inl f ↦ inl f | inr f ↦ inr (omega (arith, f)) ])
        | inr (x, e) ↦ rw (e, attempt) (omega arith, inl (λ f. ground arith))
      ]
