-- ===== src/Prelude/Splice.antt =====
-- Writing over a part of a list.
use Prim.Native.Nat.{ℕ, ◌+◌, ◌≤◌, ◌-◌}
use mathlib.Core.Path.{◌≡◌, sym, ap, ◌∙◌, subst}
use mathlib.Core.List.{List, [], ◌++◌, append_assoc}
use native.Mathlib.Nat.{add-zero}
use native.Mathlib.Omega.{arith}
use aiocflib.Prelude.Lists.{
  length, take, drop, slice, splice, length-append, length-take, length-drop, take-append-drop,
  take-append, drop-append, drop-drop, slice-append,
}

module _ {ℓ} {A : Type ℓ} where
  pub splice-nil : (addr : ℕ) (xs : List A) → splice addr [] xs ≡ xs
  splice-nil addr xs = rw add-zero (take-append-drop addr xs)

  pub length-splice :
      (addr : ℕ) (ys xs : List A)
      → addr + length ys ≤ length xs
      → length (splice addr ys xs) ≡ length xs
  length-splice addr ys xs h = omega (
    arith,
    length-append (take addr xs) (ys ++ drop (addr + length ys) xs),
    length-append ys (drop (addr + length ys) xs),
    length-take addr xs,
    length-drop (addr + length ys) xs,
  )

  take_front : (n : ℕ) (xs ys : List A) → length xs ≡ n → take n (xs ++ ys) ≡ xs
  take_front n xs ys e = subst (λ m. take m (xs ++ ys) ≡ xs) e (take-append xs ys)

  drop_front : (n k : ℕ) (xs ys : List A) → length xs ≡ n → drop (n + k) (xs ++ ys) ≡ drop k ys
  drop_front n k xs ys e =
      subst (λ m. drop (m + k) (xs ++ ys) ≡ drop k ys) e
        (sym (drop-drop (length xs) k (xs ++ ys)) ∙ ap (drop k) (drop-append xs ys))

  -- The splice of `ys`, with what stands before and at its place together.
  splice_front :
      (addr : ℕ) (ys xs : List A)
      → splice addr ys xs ≡ (take addr xs ++ ys) ++ drop (addr + length ys) xs
  splice_front addr ys xs = sym (append_assoc (take addr xs) ys (drop (addr + length ys) xs))

  length_front :
      (addr : ℕ) (ys xs : List A)
      → addr ≤ length xs
      → length (take addr xs ++ ys) ≡ addr + length ys
  length_front addr ys xs h = omega (arith, length-append (take addr xs) ys, length-take addr xs)

  -- Two writes that meet are one write.
  pub splice-splice :
      (addr : ℕ) (ys zs xs : List A)
      → addr + length ys + length zs ≤ length xs
      → splice (addr + length ys) zs (splice addr ys xs) ≡ splice addr (ys ++ zs) xs
  splice-splice addr ys zs xs h =
      let front = take addr xs ++ ys in
      let back = drop (addr + length ys) xs in
      let size : length front ≡ addr + length ys = length_front addr ys xs (omega (arith, h)) in
      let before = take_front (addr + length ys) front back size in
      let after =
        drop_front (addr + length ys) (length zs) front back size
        ∙ drop-drop (addr + length ys) (length zs) xs in
      let both : addr + length (ys ++ zs) ≡ addr + length ys + length zs =
        omega (arith, length-append ys zs) in
      rw (splice_front addr ys xs, before, after, both) (simp append_assoc)

  -- What was written is read back.
  pub slice-splice :
      (addr : ℕ) (ys xs : List A)
      → addr ≤ length xs
      → slice addr (length ys) (splice addr ys xs) ≡ ys
  slice-splice addr ys xs h =
      let back = drop (addr + length ys) xs in
      let size : length (take addr xs) ≡ addr = omega (arith, length-take addr xs) in
      let after : drop addr (take addr xs ++ (ys ++ back)) ≡ ys ++ back =
        subst (λ n. drop n (take addr xs ++ (ys ++ back)) ≡ ys ++ back) size
          (drop-append (take addr xs) (ys ++ back)) in
      rw after (take-append ys back)

  -- Writing over the front of what was written replaces that part.
  pub splice_over :
      (addr : ℕ) (ys old zs xs : List A)
      → length ys ≡ length old
      → addr ≤ length xs
      → splice addr ys (splice addr (old ++ zs) xs) ≡ splice addr (ys ++ zs) xs
  splice_over addr ys old zs xs e h =
      let before = take addr xs in
      let size : length before ≡ addr = omega (arith, length-take addr xs) in
      let back = drop (addr + length (old ++ zs)) xs in
      let kept = take_front addr before ((old ++ zs) ++ back) size in
      let front : length (before ++ old) ≡ addr + length ys =
        length_front addr old xs h ∙ omega (arith, e) in
      let after = drop_front (addr + length ys) 0 (before ++ old) (zs ++ back) front in
      let regroup : before ++ ((old ++ zs) ++ back) ≡ (before ++ old) ++ (zs ++ back) =
        simp append_assoc in
      let rest : drop (addr + length ys) (before ++ ((old ++ zs) ++ back)) ≡ zs ++ back =
        rw regroup (rw add-zero at after) in
      let both : length (ys ++ zs) ≡ length (old ++ zs) =
        omega (arith, e, length-append ys zs, length-append old zs) in
      rw (kept, rest, both) (simp append_assoc)

  pub splice_next :
      (addr n : ℕ) (ys zs xs : List A)
      → length ys ≡ n
      → addr + length ys + length zs ≤ length xs
      → splice (addr + n) zs (splice addr ys xs) ≡ splice addr (ys ++ zs) xs
  splice_next addr n ys zs xs e h =
      subst (λ m. splice (addr + m) zs (splice addr ys xs) ≡ splice addr (ys ++ zs) xs) e
        (splice-splice addr ys zs xs h)

  -- A piece and what follows it, up to `end`, are written one behind the other.
  pub splice-slices :
      (addr start size end : ℕ) (ys xs : List A)
      → start + size ≤ end
      → end ≤ length ys
      → addr + (end - start) ≤ length xs
      → splice
          (addr + size)
          (slice (start + size) (end - (start + size)) ys)
          (splice addr (slice start size ys) xs)
        ≡ splice addr (slice start (end - start) ys) xs
  splice-slices addr start size end ys xs h k l =
      let rest = end - (start + size) in
      let long : length (slice start size ys) ≡ size =
        omega (arith, h, k, length-take size (drop start ys), length-drop start ys) in
      let more : length (slice (start + size) rest ys) ≡ rest =
        omega
          (arith, h, k, length-take rest (drop (start + size) ys), length-drop (start + size) ys) in
      let whole : end - start ≡ size + rest = omega (arith, h) in
      splice_next addr size (slice start size ys) (slice (start + size) rest ys) xs long
        (omega (arith, long, more, whole, l))
      ∙ rw whole (ap (λ zs. splice addr zs xs) (sym (slice-append start size rest ys)))
