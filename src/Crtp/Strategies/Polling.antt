-- ===== src/Crtp/Strategies/Polling.antt =====
-- What the polling strategies answer after any history of exchanges, against a description that only
-- counts the empty exchanges at its end. A history is a list of (received, sent), the latest first.
use aiocflib.Prelude.{
  ℕ, suc, ◌-◌, ◌*◌, ◌^◌, ◌≤◌, ◌<◌, min, ◌≡◌, refl, ◌∙◌, ap, true, false, List, [], ◌∷◌, ltb, leb,
  if◌then◌else◌, Bytes, Bool-cases, inl, inr, dec_lt, arith,
}
use aiocflib.Crtp.Strategies.{
  wait, has_data, DefaultPolling, default_polling, default_poll, BackoffPolling, backoff_polling,
  backoff_poll,
}

abbrev pub History : Type 0
History = List (Bytes × Bytes)

-- The number of empty exchanges since the last that carried data.
unfoldable pub trailing_empty : History → ℕ
trailing_empty [] = 0
trailing_empty ((received, sent) ∷ older) =
    let count = trailing_empty older in if has_data received sent then 0 else suc count

-- The strategy object after a history.
unfoldable pub default_after : ℕ → History → DefaultPolling
unfolding default_polling default_poll
default_after interval [] = default_polling interval
default_after interval ((received, sent) ∷ older) =
    (default_poll (default_after interval older) received sent).0

record DefaultInv (interval t : ℕ) (s : DefaultPolling) : Type 0 where
  counted : s.empty_packet_counter ≡ min t 10
  idle : s.is_idle ≡ leb 10 t
  same_interval : s.interval ≡ interval

default_inv :
    (interval : ℕ) (h : History) → DefaultInv interval (trailing_empty h) (default_after interval h)
unfolding default_after trailing_empty
default_inv interval [] = ground arith
default_inv interval ((received, sent) ∷ older) = ground (arith, default_inv interval older)

-- The answer of the default strategy after any history is its interval if the last ten exchanges, this
-- one included, were empty, and no delay otherwise.
pub default_poll_lem :
    (interval : ℕ) (older : History) (received sent : Bytes)
    → (default_poll (default_after interval older) received sent).1
      ≡ wait (if leb 10 (trailing_empty ((received, sent) ∷ older)) then interval else 0)
unfolding default_poll trailing_empty
default_poll_lem interval older received sent = ground (arith, default_inv interval older)

unfoldable pub backoff_after : ℕ → ℕ → History → BackoffPolling
unfolding backoff_polling backoff_poll
backoff_after initial limit [] = backoff_polling initial limit
backoff_after initial limit ((received, sent) ∷ older) =
    (backoff_poll (backoff_after initial limit older) received sent).0

-- The delay after `n` doublings, up to the limit.
unfoldable pub doubled : ℕ → ℕ → ℕ → ℕ
doubled initial limit n = min (initial * 2 ^ n) limit

doubled-zero : (initial limit : ℕ) → initial ≤ limit → doubled initial limit 0 ≡ initial
unfolding doubled
doubled-zero initial limit h = omega arith

double_step :
    (x limit : ℕ)
    → (if ltb (min x limit) limit then min (min x limit * 2) limit else min x limit)
      ≡ min (2 * x) limit
double_step x limit = ground arith

power : (k n : ℕ) → 2 * (k * 2 ^ n) ≡ k * 2 ^ suc n
power k n = let twice : 2 ^ suc n ≡ 2 * 2 ^ n = omega arith in rw twice (omega arith)

doubled-suc :
    (initial limit n : ℕ)
    → (if ltb (doubled initial limit n) limit
        then min (doubled initial limit n * 2) limit
        else doubled initial limit n)
      ≡ doubled initial limit (suc n)
unfolding doubled
doubled-suc initial limit n =
    double_step (initial * 2 ^ n) limit ∙ ap (λ x. min x limit) (power initial n)

record BackoffInv (initial limit t : ℕ) (s : BackoffPolling) : Type 0 where
  counted : s.empty_packet_counter ≡ min t 10
  idle : s.is_idle ≡ leb 10 t
  same_initial : s.initial_delay ≡ initial
  same_limit : s.max_delay ≡ limit
  delays : 10 ≤ t → s.delay ≡ doubled initial limit (t - 9)

-- The delay one empty exchange later, on an idle link and on one that becomes idle.
next_delay :
    (initial limit t : ℕ)
    → 10 ≤ t
    → (if ltb (doubled initial limit (t - 9)) limit
        then min (doubled initial limit (t - 9) * 2) limit
        else doubled initial limit (t - 9))
      ≡ doubled initial limit (suc t - 9)
next_delay initial limit t h =
    doubled-suc initial limit (t - 9) ∙ ap (doubled initial limit) (omega arith)

first_delay :
    (initial limit : ℕ)
    → initial ≤ limit
    → (if ltb initial limit then min (initial * 2) limit else initial) ≡ doubled initial limit 1
first_delay initial limit h = rw (doubled-zero initial limit h) at (doubled-suc initial limit 0)

-- One exchange, from any state that fits the count `t`.
module _ (initial limit : ℕ) (le : initial ≤ limit) (received sent : Bytes) where
  step_busy :
      (t : ℕ) (s : BackoffPolling)
      → BackoffInv initial limit t s
      → has_data received sent ≡ true
      → BackoffInv initial limit 0 (backoff_poll s received sent).0
  unfolding backoff_poll
  step_busy t s v busy = rw busy (record {
    counted = refl;
    idle = refl;
    same_initial = v.same_initial;
    same_limit = v.same_limit;
    delays = λ h. absurd (omega (arith, h));
  })

  step_idle :
      (t : ℕ) (s : BackoffPolling)
      → BackoffInv initial limit t s
      → has_data received sent ≡ false
      → 10 ≤ t
      → BackoffInv initial limit (suc t) (backoff_poll s received sent).0
  unfolding backoff_poll
  step_idle t s v empty h =
      let idle : s.is_idle ≡ true = ground (arith, v.idle) in
      rw (empty, idle) (ground (arith, next_delay initial limit t h, v.delays h))

  step_waking :
      (t : ℕ) (s : BackoffPolling)
      → BackoffInv initial limit t s
      → has_data received sent ≡ false
      → t < 10
      → BackoffInv initial limit (suc t) (backoff_poll s received sent).0
  unfolding backoff_poll
  step_waking t s v empty h =
      let busy : s.is_idle ≡ false = ground (arith, v.idle) in
      let counted : s.empty_packet_counter ≡ t = omega (arith, v.counted) in
      rw (empty, busy, counted) (ground (arith, first_delay initial limit le))

backoff_inv :
    (initial limit : ℕ) (h : History)
    → initial ≤ limit
    → BackoffInv initial limit (trailing_empty h) (backoff_after initial limit h)
unfolding backoff_after trailing_empty
backoff_inv initial limit [] le = ground arith
backoff_inv initial limit ((received, sent) ∷ older) le =
    let rest = backoff_inv initial limit older le in
    elim (Bool-cases (has_data received sent)) [
      | inl busy ↦ rw busy (step_busy initial limit le received sent _ _ rest busy)
      | inr empty ↦ rw empty (elim (dec_lt (trailing_empty older) 10) [
        | yes h ↦ step_waking initial limit le received sent _ _ rest empty h
        | no h ↦ step_idle initial limit le received sent _ _ rest empty (omega (arith, h))
      ])
    ]

-- With an initial delay up to the maximum: after `t` empty exchanges in a row, this one included, the
-- backoff strategy answers no delay while `t` is below ten, and then the initial delay doubled `t - 10`
-- times, but at most the maximum.
pub backoff_poll_lem :
    (initial limit : ℕ) (older : History) (received sent : Bytes)
    → initial ≤ limit
    → (backoff_poll (backoff_after initial limit older) received sent).1
      ≡ wait (
          if leb 10 (trailing_empty ((received, sent) ∷ older))
          then doubled initial limit (trailing_empty ((received, sent) ∷ older) - 10)
          else 0)
unfolding backoff_poll trailing_empty
backoff_poll_lem initial limit older received sent h =
    ground (arith, backoff_inv initial limit older h, doubled-zero initial limit h)
