-- ===== src/Crtp/Strategies.antt =====
-- aiocflib/crtp/strategies.py: how often a radio link is polled, and whether a packet that was not
-- acknowledged is sent again. A call of a strategy object returns the object after the call and its
-- answer. Times are natural numbers of milliseconds.
pub mod Polling
pub mod Resending
use aiocflib.Prelude.{
  ℕ, ◌+◌, ◌-◌, ◌*◌, min, Bool, true, false, ◌||◌, List, [], ◌∷◌, Option, none, some, ltb, leb,
  if◌then◌else◌, Bytes, length, get_elem?,
}

-- The answer of a polling strategy: the time to wait, or a negative number, which stands for ever.
pub data Delay : Type 0 where
  wait : ℕ → Delay
  forever : Delay

-- The answer of a resending strategy; `resend` carries the delay.
pub data Action : Type 0 where
  accept stop : Action
  resend : ℕ → Action

-- `len(sent) > 1 or len(data) > 1`: a packet is its header at least, so it is empty below that.
abbrev pub has_data : Bytes → Bytes → Bool
has_data received sent = ltb 1 (length sent) || ltb 1 (length received)

pub record DefaultPolling : Type 0 where
  pub empty_packet_counter : ℕ
  pub is_idle : Bool
  pub interval : ℕ

unfoldable pub default_polling : ℕ → DefaultPolling
default_polling interval = record { empty_packet_counter = 0; is_idle = false; interval = interval }

default_answer : DefaultPolling → DefaultPolling × Delay
default_answer s = (s, wait (if s.is_idle then s.interval else 0))

unfoldable pub default_poll : DefaultPolling → Bytes → Bytes → DefaultPolling × Delay
unfolding default_answer
default_poll s received sent =
    if has_data received sent
    then default_answer (record s { empty_packet_counter = 0; is_idle = false })
    else if s.is_idle
    then default_answer s
    else let counter = s.empty_packet_counter + 1 in
      default_answer (record s { empty_packet_counter = counter; is_idle = leb 10 counter })

-- `NoPollingStrategy`
unfoldable pub no_poll : Bytes → Bytes → Delay
no_poll received sent = forever

pub record BackoffPolling : Type 0 where
  pub empty_packet_counter : ℕ
  pub is_idle : Bool
  pub initial_delay : ℕ
  pub max_delay : ℕ
  pub delay : ℕ

unfoldable pub backoff_polling : ℕ → ℕ → BackoffPolling
backoff_polling initial_delay max_delay = record {
  empty_packet_counter = 0;
  is_idle = false;
  initial_delay = initial_delay;
  max_delay = max_delay;
  delay = initial_delay;
}

-- The answer is the delay before it is doubled, up to the maximum.
backoff_answer : BackoffPolling → BackoffPolling × Delay
backoff_answer s =
    if s.is_idle
    then (
      if ltb s.delay s.max_delay then record s { delay = min (s.delay * 2) s.max_delay } else s,
      wait s.delay,
    )
    else (s, wait 0)

unfoldable pub backoff_poll : BackoffPolling → Bytes → Bytes → BackoffPolling × Delay
unfolding backoff_answer
backoff_poll s received sent =
    if has_data received sent
    then backoff_answer (record s { empty_packet_counter = 0; is_idle = false })
    else if s.is_idle
    then backoff_answer s
    else let counter = s.empty_packet_counter + 1 in
      if leb 10 counter
      then backoff_answer
          (record s { empty_packet_counter = counter; is_idle = true; delay = s.initial_delay })
      else backoff_answer (record s { empty_packet_counter = counter })

-- The counts of attempts that are left. In Python the count goes on below zero after a `stop`; here it
-- stays at zero, where the answer to a failure is `stop` as well.
pub record DefaultResending : Type 0 where
  pub remaining : ℕ
  pub attempts : ℕ

-- The argument `attempts` is not used by the constructor: `self._remaining = self._attempts = 100`.
unfoldable pub default_resending : ℕ → DefaultResending
default_resending attempts = record { remaining = 100; attempts = 100 }

unfoldable pub default_resend : DefaultResending → Bool → DefaultResending × Action
default_resend s ack =
    if ack
    then (record s { remaining = s.attempts }, accept)
    else let left = s.remaining - 1 in
      (record s { remaining = left }, if ltb 0 left then resend 0 else stop)

pub record PatientResending : Type 0 where
  pub remaining : ℕ
  pub attempts : ℕ
  pub num_errors : ℕ

abbrev pub schedule : List ℕ
schedule = 0 ∷ 0 ∷ 0 ∷ 0 ∷ 0 ∷ 0 ∷ 10 ∷ 10 ∷ 10 ∷ 10 ∷ 10 ∷ 20 ∷ []

-- Here too the argument is not used: `self._remaining = self._attempts = 50`.
unfoldable pub patient_resending : ℕ → PatientResending
patient_resending attempts = record { remaining = 50; attempts = 50; num_errors = 0 }

-- `self._schedule[num_errors]`, or its last entry behind the end.
unfoldable pub scheduled : ℕ → ℕ
scheduled num_errors = elim (get_elem? schedule num_errors) [ none ↦ 20 | some delay ↦ delay ]

unfoldable pub patient_resend : PatientResending → Bool → PatientResending × Action
unfolding scheduled
patient_resend s ack =
    if ack
    then (record s { remaining = s.attempts; num_errors = 0 }, accept)
    else let left = s.remaining - 1 in
      let errors = s.num_errors + 1 in
      (
        record s { remaining = left; num_errors = errors },
        if ltb 0 left then resend (scheduled errors) else stop,
      )
