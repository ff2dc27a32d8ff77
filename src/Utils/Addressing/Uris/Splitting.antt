-- ===== src/Utils/Addressing/Uris/Splitting.antt =====
-- How `parse_radio_uri` takes a URI apart.
use aiocflib.Prelude.{ℕ, ◌≡◌, ◌≢◌, ◌==◌, refl, false, [], ◌∷◌, ◌++◌, some, ok, All, arith, bytes_eq}
use aiocflib.Crazyflie.Names.{Text}
use aiocflib.Utils.Addressing.Uris.{
  behind, partition, split_slash, path_parts, parts_of_rest, scheme_separator,
}

-- The first separator of a URI whose scheme has no colon is the one behind the scheme.
pub partition-append :
    (scheme path : Text)
    → All (λ c. c ≢ b':') scheme
    → partition (scheme ++ (scheme_separator ++ path)) ≡ some (scheme, path)
unfolding partition behind
partition-append [] path h = refl
partition-append (c ∷ cs) path h =
    let other : (b':' == c) ≡ false = ground (arith, h.0) in
    rw (other, partition) (rw (partition-append cs path h.1, partition) refl)

-- A part and what follows its slash.
pub split_slash-append :
    (part rest : Text)
    → All (λ c. c ≢ b'/') part
    → split_slash (part ++ (b'/' ∷ rest)) ≡ part ∷ split_slash rest
unfolding split_slash
split_slash-append [] rest h = refl
split_slash-append (c ∷ cs) rest h =
    let other : (c == b'/') ≡ false = ground (arith, h.0) in
    rw (other, split_slash-append cs rest h.1)

pub split_slash-last : (part : Text) → All (λ c. c ≢ b'/') part → split_slash part ≡ part ∷ []
unfolding split_slash
split_slash-last [] h = refl
split_slash-last (c ∷ cs) h =
    let other : (c == b'/') ≡ false = ground (arith, h.0) in rw (other, split_slash-last cs h.1)

-- A path whose first part is not empty has the parts between its slashes.
pub path_parts-append :
    (d : ℕ) (ds rest : Text)
    → All (λ c. c ≢ b'/') (d ∷ ds)
    → path_parts ((d ∷ ds) ++ (b'/' ∷ rest)) ≡ ok ((d ∷ ds) ∷ split_slash rest)
unfolding path_parts parts_of_rest bytes_eq
path_parts-append d ds rest h =
    let other : (d == b'/') ≡ false = ground (arith, h.0) in
    rw (other, parts_of_rest) (rw (split_slash-append ds rest h.1) refl)
