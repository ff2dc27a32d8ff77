-- ===== src/Prelude/Dict.antt =====
-- Python dictionaries, as association lists.
use mathlib.Core.Path.{◌≡◌, refl, sym, subst, ◌∙◌}
use mathlib.Core.Logic.{◌≢◌, ◌↔◌, inl, inr}
use mathlib.Core.Bool.{Bool, true, false}
use mathlib.Core.Option.{Option, none, some}
use mathlib.Core.List.{List, [], ◌∷◌}
use aiocflib.Prelude.Tests.{if◌then◌else◌, Bool-cases}
use aiocflib.Prelude.Words.{Bytes, bytes_eq, bytes_eq→eq, bytes_eq_refl}

-- A dictionary with the keys in the order of their first insertion, as a list.
module _ {K V : Type 0} (same : K → K → Bool) where
  unfoldable pub lookup : K → List (K × V) → Option V
  lookup k [] = none
  lookup k ((x, v) ∷ xs) = let rest = lookup k xs in if same x k then some v else rest

  unfoldable pub insert : K → V → List (K × V) → List (K × V)
  insert k v [] = (k, v) ∷ []
  insert k v ((x, w) ∷ xs) =
      let rest = insert k v xs in if same x k then (x, v) ∷ xs else (x, w) ∷ rest

module _ {K : Type 0} (same : K → K → Bool)
    (same_iff : (a b : K) → (same a b ≡ true) ↔ (a ≡ b)) where
  same_refl : (k : K) → same k k ≡ true
  same_refl k = (same_iff k k).1 refl

  same_other : (a b : K) → a ≢ b → same a b ≡ false
  same_other a b ne = elim (Bool-cases (same a b)) [
    | inl t ↦ absurd (ne ((same_iff a b).0 t))
    | inr f ↦ f
  ]

module _ {K V : Type 0} (same : K → K → Bool)
    (same_iff : (a b : K) → (same a b ≡ true) ↔ (a ≡ b)) where
  pub lookup-insert :
      (k : K) (v : V) (xs : List (K × V)) → lookup same k (insert same k v xs) ≡ some v
  unfolding lookup insert
  lookup-insert k v [] = rw (same_refl same same_iff k)
  lookup-insert k v ((x, w) ∷ xs) = elim (Bool-cases (same x k)) [
    | inl t ↦ rw (t, lookup) (rw t)
    | inr f ↦ rw (f, lookup) (rw f (lookup-insert k v xs))
  ]

  pub lookup-insert_other :
      (k j : K) (v : V) (xs : List (K × V))
      → k ≢ j
      → lookup same j (insert same k v xs) ≡ lookup same j xs
  unfolding lookup insert
  lookup-insert_other k j v [] ne = rw (same_other same same_iff k j ne)
  lookup-insert_other k j v ((x, w) ∷ xs) ne = elim (Bool-cases (same x k)) [
    | inl t ↦
        let e : x ≡ k = (same_iff x k).0 t in
        let other : same x j ≡ false = same_other same same_iff x j (λ q. ne (sym e ∙ q)) in
        rw (t, lookup) (rw (other, lookup) refl)
    | inr f ↦ let ih = lookup-insert_other k j v xs ne in rw (f, lookup) (rw (ih, lookup) refl)
  ]

pub bytes_eq_iff : (a b : Bytes) → (bytes_eq a b ≡ true) ↔ (a ≡ b)
bytes_eq_iff a b = (bytes_eq→eq a b, λ h. subst (λ x. bytes_eq a x ≡ true) h (bytes_eq_refl a))
