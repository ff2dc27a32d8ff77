-- ===== src/Prelude/Bits.antt =====
-- Masks and shifts on one byte as arithmetic: functions are compared on all the values below a bound.
use Prim.Native.Nat.{ℕ, zero, suc, ◌<◌}
use mathlib.Core.Path.{◌≡◌, subst, sym}
use mathlib.Core.Bool.{Bool, true, ◌&&◌}
use native.Mathlib.Omega.{arith}
use native.Mathlib.Decide.{ℕ_discrete}
use aiocflib.Prelude.Tests.{◌==◌}

-- Whether two functions agree below a bound, tried from the largest value down.
unfoldable pub agreeing : (ℕ → ℕ) → (ℕ → ℕ) → ℕ → Bool
agreeing f g zero = true
agreeing f g (suc bound) = agreeing f g bound && (f bound == g bound)

-- The same for functions of two values.
unfoldable pub agreeing_rows : (ℕ → ℕ → ℕ) → (ℕ → ℕ → ℕ) → ℕ → ℕ → Bool
unfolding agreeing
agreeing_rows f g zero width = true
agreeing_rows f g (suc bound) width =
    agreeing_rows f g bound width && agreeing (f bound) (g bound) width

pub agree_below :
    (bound : ℕ) (f g : ℕ → ℕ) → agreeing f g bound ≡ true → (k : ℕ) → k < bound → f k ≡ g k
unfolding agreeing
agree_below zero f g tried k small = elim small [ ]
agree_below (suc bound) f g tried k small = elim (ℕ_discrete k bound) [
  | yes same ↦ subst (λ j. f j ≡ g j) (sym same) (ground arith)
  | no other ↦ agree_below bound f g (ground arith) k (omega arith)
]

pub agree_below_both :
    (bound width : ℕ) (f g : ℕ → ℕ → ℕ)
    → agreeing_rows f g bound width ≡ true
    → (k l : ℕ) → k < bound
    → l < width
    → f k l ≡ g k l
unfolding agreeing_rows
agree_below_both zero width f g tried k l small slim = elim small [ ]
agree_below_both (suc bound) width f g tried k l small slim = elim (ℕ_discrete k bound) [
  | yes same ↦
      subst (λ j. f j l ≡ g j l) (sym same)
        (agree_below width (f bound) (g bound) (ground arith) l slim)
  | no other ↦ agree_below_both bound width f g (ground arith) k l (omega arith) slim
]
