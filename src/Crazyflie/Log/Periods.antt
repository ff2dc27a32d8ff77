-- ===== src/Crazyflie/Log/Periods.antt =====
-- `_process_period_and_frequency` of aiocflib/crazyflie/log.py. Its arithmetic on floats is a parameter, and
-- periods in milliseconds are natural numbers.
use aiocflib.Prelude.{ℕ, Option, none, some, Result, ok, bind}

-- The operations on Python's floats: `10.0`, `1.0 / x` and `int(1000.0 // x)`; a division by zero raises.
pub record Rates (F : Type 0) : Type 0 where
  pub ten : F
  pub reciprocal : F → Result F
  pub per_second : F → Result ℕ

-- The keyword arguments of a method that starts a block.
pub record Timing (F : Type 0) : Type 0 where
  pub period : Option F
  pub frequency : Option F
  pub period_msec : Option ℕ

module _ {F : Type 0} (rates : Rates F) where
  frequency_of : Timing F → Result F
  frequency_of t = elim t.frequency [
    | some f ↦ ok f
    | none ↦ elim t.period [ some p ↦ rates.reciprocal p | none ↦ ok rates.ten ]
  ]

  unfoldable pub process_period_and_frequency : Timing F → Result ℕ
  unfolding frequency_of
  process_period_and_frequency t = elim t.period_msec [
    | some msec ↦ ok msec
    | none ↦ bind (frequency_of t) rates.per_second
  ]

-- Only a period in milliseconds.
unfoldable pub milliseconds : {F : Type 0} → ℕ → Timing F
milliseconds msec = record { period = none; frequency = none; period_msec = some msec }
