-- ===== src/Crazyflie/Log/Specs.antt =====
-- Variables as they are stored in a cache and sent by the Crazyflie, and the requests that create blocks.
use aiocflib.Prelude.{ℕ, ◌<◌, ◌≡◌, refl, [], ◌∷◌, ◌++◌, ok, Bytes, All, bit_and}
use aiocflib.Prelude.Bits.{agreeing, agreeing_rows, agree_below}
use aiocflib.Crazyflie.Names.{IsNameChar, ascii_name, split_names}
use aiocflib.Crazyflie.Log.{VariableSpecification, variable_of, from_bytes, to_bytes}

low_type : (t : ℕ) → t < 16 → bit_and t 15 ≡ t
unfolding agreeing agreeing_rows
low_type = agree_below 16 (λ t. bit_and t 15) (λ t. t) refl

-- A variable with a type below 16 and with a group and a name of ASCII characters without NUL is parsed
-- back from its bytes under its number.
pub variable-to_bytes-from_bytes :
    (spec : VariableSpecification)
    → spec.type < 16
    → All IsNameChar spec.group
    → All IsNameChar spec.name
    → (bs : Bytes) × (to_bytes spec ≡ ok bs) × (from_bytes bs spec.id ≡ ok spec)
unfolding to_bytes from_bytes variable_of
variable-to_bytes-from_bytes spec t g n =
    let low = low_type spec.type t in
    (
      bit_and spec.type 15 ∷ (spec.group ++ 0 ∷ (spec.name ++ 0 ∷ [])),
      rw (ascii_name spec.group g, ascii_name spec.name n),
      rw (split_names spec.group spec.name g n, variable_of)
          (rw (ascii_name spec.group g, ascii_name spec.name n, low, low) refl),
    )
