-- ===== src/Prelude/Exec.antt =====
-- Methods that run commands on a device and may raise. What was done before a raise stays done, so
-- the state comes back beside the error too.
use mathlib.Core.Path.{◌≡◌, refl}
use native.Mathlib.Omega.{arith}
use aiocflib.Prelude.Results.{Error, Result, ok, err}

abbrev pub Exec {ℓ} : Type ℓ → Type ℓ → Type ℓ
Exec S A = S → Result A × S

module _ {ℓ} {S A : Type ℓ} where
  abbrev pub pure : A → Exec S A
  pure a s = (ok a, s)

  abbrev pub raise : Error → Exec S A
  raise e s = (err e, s)

  abbrev pub lift : Result A → Exec S A
  lift r s = (r, s)

module _ {ℓ} {S A B : Type ℓ} where
  abbrev pub continue : Result A → (A → Exec S B) → Exec S B
  continue (ok a) f s = f a s
  continue (err e) f s = (err e, s)

  infixl 5 ◌>>=◌ ◌>>◌
  abbrev pub ◌>>=◌ : Exec S A → (A → Exec S B) → Exec S B
  ◌>>=◌ m f s = continue (m s).0 f (m s).1

  abbrev pub ◌>>◌ : Exec S A → Exec S B → Exec S B
  m >> k = m >>= λ _. k

-- `try: m finally: cleanup`: what the cleanup raises takes the place of what `m` raised.
abbrev pub after_all {ℓ} : {A B : Type ℓ} → Result A → Result B → Result A
after_all r (ok b) = r
after_all r (err e) = err e

module _ {ℓ} {S A B : Type ℓ} where
  abbrev pub finally : Exec S A → Exec S B → Exec S A
  finally m cleanup s = let (r, s') = m s in let (r', s'') = cleanup s' in (after_all r r', s'')

-- Inversion of a step that did not raise.
pub continue-ok {ℓ} :
    {S A B : Type ℓ} (r : Result A) (f : A → Exec S B) (s : S) {b : B}
    → (continue r f s).0 ≡ ok b
    → (a : A) × (r ≡ ok a) × ((f a s).0 ≡ ok b)
continue-ok (ok a) f s h = (a, refl, h)
continue-ok (err e) f s h = absurd (ground arith)

-- What holds of the state before a computation holds after it, whether it raises or not.
module _ {ℓ κ} {S : Type ℓ} (P : S → Type κ) where
  abbrev pub Preserves : {A : Type ℓ} → Exec S A → Type (ℓ ⊔ κ)
  Preserves m = (s : S) → P s → P (m s).1

  pub continue-Preserves :
      {A B : Type ℓ} (r : Result A) (f : A → Exec S B)
      → ((a : A) → Preserves (f a))
      → (s : S) → P s
      → P (continue r f s).1
  continue-Preserves (ok a) f k s h = k a s h
  continue-Preserves (err e) f k s h = h

  pub bind-Preserves :
      {A B : Type ℓ} (m : Exec S A) (f : A → Exec S B)
      → Preserves m
      → ((a : A) → Preserves (f a))
      → Preserves (m >>= f)
  bind-Preserves m f h k s p = continue-Preserves (m s).0 f k (m s).1 (h s p)

  pub finally-Preserves :
      {A B : Type ℓ} (m : Exec S A) (cleanup : Exec S B)
      → Preserves m
      → Preserves cleanup
      → Preserves (finally m cleanup)
  finally-Preserves m cleanup h k s p = k (m s).1 (h s p)
