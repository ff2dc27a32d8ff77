-- ===== src/Crtp/Strategies/Resending.antt =====
-- What the resending strategies answer after any history of acknowledgements, the latest first.
use aiocflib.Prelude.{
  ℕ, suc, ◌+◌, ◌-◌, ◌≡◌, refl, Bool, true, false, List, [], ◌∷◌, ltb, if◌then◌else◌, arith,
}
use aiocflib.Crtp.Strategies.{
  accept, stop, resend, DefaultResending, default_resending, default_resend, PatientResending,
  patient_resending, patient_resend, scheduled,
}

-- The number of failures since the last acknowledgement.
unfoldable pub failures : List Bool → ℕ
failures [] = 0
failures (true ∷ older) = 0
failures (false ∷ older) = suc (failures older)

unfoldable pub resending_after : ℕ → List Bool → DefaultResending
unfolding default_resending default_resend
resending_after attempts [] = default_resending attempts
resending_after attempts (ack ∷ older) = (default_resend (resending_after attempts older) ack).0

resending_inv :
    (attempts : ℕ) (h : List Bool)
    → ((resending_after attempts h).remaining ≡ 100 - failures h)
      × ((resending_after attempts h).attempts ≡ 100)
unfolding resending_after failures
resending_inv attempts [] = (refl, refl)
resending_inv attempts (true ∷ older) = ground (arith, resending_inv attempts older)
resending_inv attempts (false ∷ older) = ground (arith, resending_inv attempts older)

-- Whatever number of attempts was asked for, the default strategy accepts what was acknowledged, sends
-- again at once after up to 99 failures in a row, and gives up at the hundredth.
pub default_resend_lem :
    (attempts : ℕ) (older : List Bool) (ack : Bool)
    → (default_resend (resending_after attempts older) ack).1
      ≡ (if ack then accept else if ltb (failures older) 99 then resend 0 else stop)
unfolding default_resend
default_resend_lem attempts older ack = ground (arith, resending_inv attempts older)

unfoldable pub patient_after : ℕ → List Bool → PatientResending
unfolding patient_resending patient_resend
patient_after attempts [] = patient_resending attempts
patient_after attempts (ack ∷ older) = (patient_resend (patient_after attempts older) ack).0

patient_inv :
    (attempts : ℕ) (h : List Bool)
    → ((patient_after attempts h).remaining ≡ 50 - failures h)
      × ((patient_after attempts h).attempts ≡ 50)
      × ((patient_after attempts h).num_errors ≡ failures h)
unfolding patient_after failures
patient_inv attempts [] = (refl, refl, refl)
patient_inv attempts (true ∷ older) = ground (arith, patient_inv attempts older)
patient_inv attempts (false ∷ older) = ground (arith, patient_inv attempts older)

-- The delay in milliseconds before the attempt after `n` failures.
abbrev pub patience : ℕ → ℕ
patience n = if ltb n 6 then 0 else if ltb n 11 then 10 else 20

scheduled_lem : (n : ℕ) → scheduled n ≡ patience n
unfolding scheduled
scheduled_lem n = ground arith

-- Whatever number of attempts was asked for, the patient strategy accepts what was acknowledged, sends
-- again after 0 ms up to the fifth failure in a row, 10 ms up to the tenth and 20 ms from then on, and
-- gives up at the fiftieth.
pub patient_resend_lem :
    (attempts : ℕ) (older : List Bool) (ack : Bool)
    → (patient_resend (patient_after attempts older) ack).1 ≡ (
        if ack
        then accept
        else if ltb (failures older) 49
        then resend (patience (failures older + 1))
        else stop)
unfolding patient_resend
patient_resend_lem attempts older ack =
    ground (arith, patient_inv attempts older, scheduled_lem (failures older + 1))
