-- ===== src/Crazyflie/Names.antt =====
-- The texts of parameter and variable names on the wire, of aiocflib/crazyflie/param.py and
-- aiocflib/crazyflie/log.py.
use aiocflib.Prelude.{
  ℕ, false, List, All, ap, refl, ◌∙◌, ◌<◌, ◌≡◌, arith, [], ◌∷◌, ◌++◌, Result, ok, err, bind,
  unicode_error, ltb, ◌==◌, if◌then◌else◌, Bytes,
}

-- Texts are lists of code points.
abbrev pub Text : Type 0
Text = List ℕ

-- `split(b"\x00")`
unfoldable pub split_zero : Bytes → List Bytes
split_zero [] = [] ∷ []
split_zero (b ∷ bs) =
    let rest = split_zero bs in
    if b == 0
    then [] ∷ rest
    else elim rest [ [] ↦ (b ∷ []) ∷ [] | part ∷ parts ↦ (b ∷ part) ∷ parts ]

-- `decode("ascii")`, and `encode("ascii")`: the code points below 128 are their bytes.
unfoldable pub ascii : List ℕ → Result (List ℕ)
ascii [] = ok []
ascii (b ∷ bs) =
    let rest = ascii bs in if ltb b 128 then bind rest (λ cs. ok (b ∷ cs)) else err unicode_error

-- An ASCII character other than NUL.
abbrev pub IsNameChar : ℕ → Type 0
IsNameChar c = (0 < c) × (c < 128)

pub ascii_name : (cs : List ℕ) → All IsNameChar cs → ascii cs ≡ ok cs
unfolding ascii
ascii_name [] h = refl
ascii_name (c ∷ cs) h = ground (arith, ascii_name cs h.1, h.0)

pub split_zero-append :
    (cs bs : List ℕ) → All IsNameChar cs → split_zero (cs ++ 0 ∷ bs) ≡ cs ∷ split_zero bs
unfolding split_zero
split_zero-append [] bs h = refl
split_zero-append (c ∷ cs) bs h =
    let nonzero : (c == 0) ≡ false = ground (arith, h.0) in
    rw (nonzero, split_zero-append cs bs h.1)

pub split_names :
    (group name : Text)
    → All IsNameChar group
    → All IsNameChar name
    → split_zero (group ++ 0 ∷ (name ++ 0 ∷ [])) ≡ group ∷ name ∷ [] ∷ []
unfolding split_zero
split_names group name g n =
    split_zero-append group (name ++ 0 ∷ []) g ∙ ap (λ ps. group ∷ ps) (split_zero-append name [] n)
