-- ===== src/Crazyflie/Param/Specs.antt =====
-- Specifications of parameters as they are stored in a cache and sent by the Crazyflie.
use aiocflib.Prelude.{
  ℕ, ◌+◌, ◌<◌, ◌≡◌, refl, Bool, true, false, [], ◌∷◌, ◌++◌, ok, ◌==◌, if◌then◌else◌, Bytes, All,
  bit_and,
}
use aiocflib.Prelude.Bits.{agreeing, agreeing_rows, agree_below}
use aiocflib.Crazyflie.Param.{ParameterSpecification, spec_of, from_bytes, spec_header, to_bytes}
use aiocflib.Crazyflie.Names.{IsNameChar, ascii_name, split_names}

abbrev read_only_bit : Bool → ℕ
read_only_bit r = if r then 64 else 0

abbrev extended_bit : Bool → ℕ
extended_bit x = if x then 16 else 0

header_type :
    (t : ℕ) → t < 16 → (r x : Bool) → bit_and (t + read_only_bit r + extended_bit x) 15 ≡ t
unfolding agreeing agreeing_rows
header_type t h true true = agree_below 16 (λ t. bit_and (t + 64 + 16) 15) (λ t. t) refl t h
header_type t h true false = agree_below 16 (λ t. bit_and (t + 64 + 0) 15) (λ t. t) refl t h
header_type t h false true = agree_below 16 (λ t. bit_and (t + 0 + 16) 15) (λ t. t) refl t h
header_type t h false false = agree_below 16 (λ t. bit_and (t + 0 + 0) 15) (λ t. t) refl t h

header_read_only :
    (t : ℕ)
    → t < 16
    → (r x : Bool) → bit_and (t + read_only_bit r + extended_bit x) 64 ≡ read_only_bit r
unfolding agreeing agreeing_rows
header_read_only t h true true = agree_below 16 (λ t. bit_and (t + 64 + 16) 64) (λ t. 64) refl t h
header_read_only t h true false = agree_below 16 (λ t. bit_and (t + 64 + 0) 64) (λ t. 64) refl t h
header_read_only t h false true = agree_below 16 (λ t. bit_and (t + 0 + 16) 64) (λ t. 0) refl t h
header_read_only t h false false = agree_below 16 (λ t. bit_and (t + 0 + 0) 64) (λ t. 0) refl t h

header_extended :
    (t : ℕ)
    → t < 16
    → (r x : Bool) → bit_and (t + read_only_bit r + extended_bit x) 16 ≡ extended_bit x
unfolding agreeing agreeing_rows
header_extended t h true true = agree_below 16 (λ t. bit_and (t + 64 + 16) 16) (λ t. 16) refl t h
header_extended t h true false = agree_below 16 (λ t. bit_and (t + 64 + 0) 16) (λ t. 0) refl t h
header_extended t h false true = agree_below 16 (λ t. bit_and (t + 0 + 16) 16) (λ t. 16) refl t h
header_extended t h false false = agree_below 16 (λ t. bit_and (t + 0 + 0) 16) (λ t. 0) refl t h

low_type : (t : ℕ) → t < 16 → bit_and t 15 ≡ t
unfolding agreeing agreeing_rows
low_type = agree_below 16 (λ t. bit_and t 15) (λ t. t) refl

flag_read_only : (r : Bool) → (if read_only_bit r == 0 then false else true) ≡ r
flag_read_only true = refl
flag_read_only false = refl

flag_extended : (x : Bool) → (if extended_bit x == 0 then false else true) ≡ x
flag_extended true = refl
flag_extended false = refl

-- A specification with a type below 16 and with a group and a name of ASCII characters without NUL is
-- parsed back from its bytes under its number.
pub to_bytes-from_bytes :
    (spec : ParameterSpecification)
    → spec.type < 16
    → All IsNameChar spec.group
    → All IsNameChar spec.name
    → (bs : Bytes) × (to_bytes spec ≡ ok bs) × (from_bytes bs spec.id ≡ ok spec)
unfolding to_bytes from_bytes spec_of spec_header
to_bytes-from_bytes spec t g n =
    let r = spec.read_only in
    let x = spec.has_extended_info in
    let low = low_type spec.type t in
    (
      spec_header spec ∷ (spec.group ++ 0 ∷ (spec.name ++ 0 ∷ [])),
      rw (ascii_name spec.group g, ascii_name spec.name n),
      rw (split_names spec.group spec.name g n, spec_of)
          (rw
            (
              ascii_name spec.group g,
              ascii_name spec.name n,
              low,
              header_type spec.type t r x,
              header_read_only spec.type t r x,
              header_extended spec.type t r x,
              flag_read_only r,
              flag_extended x,
            )
            refl),
    )
