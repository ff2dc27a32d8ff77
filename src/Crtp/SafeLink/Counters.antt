-- ===== src/Crtp/SafeLink/Counters.antt =====
-- The two counter bits of the safe link after any sequence of events, the latest first.
use aiocflib.Prelude.{
  ℕ, zero, suc, ◌+◌, ◌*◌, ◌/◌, ◌%◌, ◌≤◌, ◌<◌, ◌≡◌, ◌⊎◌, refl, Bool, true, false, ◌&&◌, List, [],
  ◌∷◌, Option, none, some, ok, if◌then◌else◌, Bytes, arith, Bool-cases, inr, inl, bytes_eq_iff,
}
use aiocflib.Crtp.Packet.{CrtpPacket, to_bytes, safe_link, channel, port, from_bytes, bytes}
use aiocflib.Crtp.Packet.Fields.{IsPacket}
use aiocflib.Crtp.Packet.RoundTrip.{from_bytes-to_bytes, to_bytes_lem}
use aiocflib.Crtp.SafeLink.{
  Acknowledgment, SafeLinkState, init, encode, Event, enables, disables, acquires, loses, reboots,
  updates, step, echoes, safe_link_packet, try_to_acquire, try_to_acquire_loop, notify_acquired,
  some,
}

unfoldable pub after : List Event → SafeLinkState
after [] = init
after (e ∷ older) = step e (after older)

-- The counters are single bits at their places, and both are set while the mode is not acquired.
pub record IsLinked (s : SafeLinkState) : Type 0 where
  pub up_bit : (s.up ≡ 0) ⊎ (s.up ≡ 8)
  pub down_bit : (s.down ≡ 0) ⊎ (s.down ≡ 4)
  pub idle_up : s.acquired ≡ false → s.up ≡ 8
  pub idle_down : s.acquired ≡ false → s.down ≡ 4

step-IsLinked : (e : Event) (s : SafeLinkState) → IsLinked s → IsLinked (step e s)
unfolding step
step-IsLinked enables s v = ground arith
step-IsLinked disables s v = ground arith
step-IsLinked acquires s v = ground arith
step-IsLinked loses s v = ground arith
step-IsLinked reboots s v = ground arith
step-IsLinked (updates r) s v = ground arith

pub after-IsLinked : (es : List Event) → IsLinked (after es)
unfolding after
after-IsLinked [] = ground arith
after-IsLinked (e ∷ older) = step-IsLinked e (after older) (after-IsLinked older)

-- The acknowledged exchanges since the mode was acquired.
unfoldable pub exchanges : List Event → ℕ
exchanges [] = 0
exchanges (updates r ∷ older) =
    let n = exchanges older in if (after older).acquired && r.ack then suc n else n
exchanges (acquires ∷ older) = if (after older).acquired then exchanges older else 0
exchanges (loses ∷ older) = exchanges older
exchanges (reboots ∷ older) = exchanges older
exchanges (enables ∷ older) = exchanges older
exchanges (disables ∷ older) = exchanges older

-- While the mode is acquired, the up bit is set exactly after an odd number of acknowledged exchanges
-- since it was acquired.
pub up_alternates :
    (es : List Event) → (after es).acquired ≡ true → (after es).up ≡ 8 * (exchanges es % 2)
unfolding after exchanges step
up_alternates [] h = ground arith
up_alternates (updates r ∷ older) h = ground (arith, up_alternates older)
up_alternates (acquires ∷ older) h = ground (arith, up_alternates older)
up_alternates (loses ∷ older) h = ground (arith, up_alternates older)
up_alternates (reboots ∷ older) h = ground (arith, up_alternates older)
up_alternates (enables ∷ older) h = ground (arith, up_alternates older)
up_alternates (disables ∷ older) h = ground (arith, up_alternates older)

-- The two link bits as a number below four.
link_bits : (s : SafeLinkState) → IsLinked s → (k : ℕ) × (k < 4) × (s.up + s.down ≡ k * 4)
link_bits s v = ((s.up + s.down) / 4, ground arith, ground arith)

-- After any events, `encode` writes a packet to bytes from which the peer reads the same port, the same
-- channel and the same data: the counters do not touch them.
pub from_bytes-encode :
    (es : List Event) (p : CrtpPacket)
    → IsPacket p
    → (bs : Bytes) × (q : CrtpPacket) × (encode (after es) p ≡ ok bs)
      × (from_bytes (bytes bs) ≡ ok q)
      × (port q ≡ port p)
      × (channel q ≡ channel p)
      × (q.body ≡ p.body)
unfolding encode
from_bytes-encode es p w =
    let (k, h, e) = link_bits (after es) (after-IsLinked es) in rw e (from_bytes-to_bytes p k w h)

-- Until the mode is acquired, both link bits of every packet are set.
pub encode_idle :
    (es : List Event) (p : CrtpPacket)
    → IsPacket p
    → (after es).acquired ≡ false
    → encode (after es) p ≡ ok ((p.header / 16 * 16 + 12 + p.header % 4) ∷ p.body)
unfolding encode
encode_idle es p w h =
    let v = after-IsLinked es in
    let e : (after es).up + (after es).down ≡ 3 * 4 = omega (arith, v.idle_up h, v.idle_down h) in
    rw e (to_bytes_lem p 3 w (omega arith))

-- The packet that asks for the mode, as it is sent.
safe_link_bytes : to_bytes (safe_link true) 12 ≡ ok safe_link_packet
unfolding to_bytes safe_link
safe_link_bytes = refl

-- One of the first `n` responses is there and brings the bytes of the packet that asks for the mode.
unfoldable pub Echoed : ℕ → List (Option Acknowledgment) → Type 0
Echoed n [] = ⊥
Echoed zero (r ∷ rest) = ⊥
Echoed (suc n) (none ∷ rest) = Echoed n rest
Echoed (suc n) (some r ∷ rest) = (r.payload ≡ 0xFF ∷ 5 ∷ 1 ∷ []) ⊎ Echoed n rest

-- The mode is acquired: `t` is `s` if it was acquired there, and otherwise both counters are 0.
abbrev pub Acquired : SafeLinkState → SafeLinkState → Type 0
Acquired s t = t ≡ record {
  up = if s.acquired then s.up else 0;
  down = if s.acquired then s.down else 0;
  enabled = s.enabled;
  acquired = true;
}

-- What a negotiation may give: success, after an echo, or the state as it was, without one.
abbrev pub Negotiated :
    ℕ → List (Option Acknowledgment) → SafeLinkState → Bool → SafeLinkState → Type 0
Negotiated n rs s true t = Echoed n rs × Acquired s t
Negotiated n rs s false t = (¬ Echoed n rs) × (t ≡ s)

notify_acquired-Acquired : (s : SafeLinkState) → Acquired s (notify_acquired s)
unfolding notify_acquired
notify_acquired-Acquired s = ground arith

later :
    (n : ℕ) (r : Option Acknowledgment) (rest : List (Option Acknowledgment)) (s t : SafeLinkState)
    (b : Bool)
    → echoes r ≡ false
    → Negotiated n rest s b t
    → Negotiated (suc n) (r ∷ rest) s b t
unfolding Echoed echoes
later n none rest s t true e h = h
later n none rest s t false e h = h
later n (some r) rest s t true e h = (inr h.0, h.1)
later n (some r) rest s t false e h = (
  elim [
    | inl same ↦
        let echoed : echoes (some r) ≡ true = (bytes_eq_iff r.payload safe_link_packet).1 same in
        absurd (ground arith)
    | inr found ↦ h.0 found
  ],
  h.1,
)

echoes-payload :
    (r : Option Acknowledgment) (n : ℕ) (rest : List (Option Acknowledgment))
    → echoes r ≡ true
    → Echoed (suc n) (r ∷ rest)
unfolding Echoed echoes
echoes-payload none n rest e = absurd (ground arith)
echoes-payload (some r) n rest e = inl ((bytes_eq_iff r.payload safe_link_packet).0 e)

nothing :
    (n : ℕ) (s : SafeLinkState)
    → Negotiated n [] s (try_to_acquire_loop n [] s).0 (try_to_acquire_loop n [] s).2
    → Negotiated (suc n) [] s (try_to_acquire_loop n [] s).0 (try_to_acquire_loop n [] s).2
unfolding Echoed
nothing n s h = elim (Bool-cases (try_to_acquire_loop n [] s).0) [
  | inl e ↦ absurd ((rw e at h).0)
  | inr e ↦ rw e (rw e at h)
]

loop-Negotiated :
    (n : ℕ) (rs : List (Option Acknowledgment)) (s : SafeLinkState)
    → let (done, sent, t) = try_to_acquire_loop n rs s in Negotiated n rs s done t × (sent ≤ n)
unfolding try_to_acquire_loop Echoed
loop-Negotiated zero [] s = ((λ x. x, refl), omega arith)
loop-Negotiated zero (r ∷ rest) s = ((λ x. x, refl), omega arith)
loop-Negotiated (suc n) [] s =
    let (h, k) = loop-Negotiated n [] s in (nothing n s h, omega (arith, k))
loop-Negotiated (suc n) (r ∷ rest) s = elim (Bool-cases (echoes r)) [
  | inl e ↦
      rw (e, try_to_acquire_loop)
        ((echoes-payload r n rest e, notify_acquired-Acquired s), omega arith)
  | inr e ↦
      let (h, k) = loop-Negotiated n rest s in
      rw (e, try_to_acquire_loop)
        (later n r rest s _ (try_to_acquire_loop n rest s).0 e h, omega (arith, k))
]

-- The negotiation sends at most ten packets. If one of the first ten responses brings the bytes of the packet
-- back, it succeeds and the mode is acquired: the counters are then at 0, or as they were if the mode was
-- acquired before, and `enabled` is as it was. If none does, it fails and the state is as it was.
pub try_to_acquire_lem :
    (rs : List (Option Acknowledgment)) (s : SafeLinkState)
    → let (done, sent, t) = try_to_acquire rs s in Negotiated 10 rs s done t × (sent ≤ 10)
unfolding try_to_acquire
try_to_acquire_lem = loop-Negotiated 10
