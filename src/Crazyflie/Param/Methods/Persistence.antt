-- ===== src/Crazyflie/Param/Methods/Persistence.antt =====
-- The reply to the query of a parameter's persistence.
use aiocflib.Prelude.{
  ℕ, ◌+◌, ◌<◌, ◌≡◌, refl, sym, ◌∙◌, false, [], ◌∷◌, ◌++◌, none, some, ok, of_ok, ◌==◌, ltb, Bytes,
  length, take, drop, take-append, drop-append, take_all, length-append, arith,
}
use aiocflib.Crazyflie.Param.{ParameterSpecification, type_struct, encode_value}
use aiocflib.Crazyflie.Values.{Struct, Value, Floats}
use aiocflib.Crazyflie.Param.Values.{encode_value-parse_value, length-encode_value}
use aiocflib.Crazyflie.Values.Integers.{IntegerStruct}
use aiocflib.Crazyflie.Param.Handler.{persistence_reply}

module _ {F : Type 0} (floats : Floats F) where
  -- For a parameter of an integer type: a reply of a zero and the bytes of a default value says that this
  -- is the default value and that none is stored. A reply of another byte, the bytes of a default value
  -- and those of a second value says that the second value is stored.
  pub persistence_reply_lem :
      (p : ParameterSpecification) (t : Struct) (v w : Value F) (bs cs : Bytes) (b : ℕ)
      → type_struct p.type ≡ ok t
      → IntegerStruct t
      → encode_value floats p v ≡ ok bs
      → encode_value floats p w ≡ ok cs
      → 0 < b
      → (persistence_reply floats p (0 ∷ bs)
          ≡ ok (record { default_value = v; stored_value = none }))
        × (persistence_reply floats p (b ∷ (bs ++ cs))
            ≡ ok (record { default_value = v; stored_value = some w }))
  unfolding persistence_reply
  persistence_reply_lem p t v w [] cs b e i h k l =
      absurd (omega (arith, (length-encode_value floats p t v [] e i h).0))
  persistence_reply_lem p t v w (x ∷ bs) cs b e i h k l =
      let (pos, size) = length-encode_value floats p t v (x ∷ bs) e i h in
      let (pos', size') = length-encode_value floats p t w cs e i k in
      let one = encode_value-parse_value floats p t v (x ∷ bs) e i h in
      let two = encode_value-parse_value floats p t w cs e i k in
      let n = length (x ∷ bs) in
      let same : length cs ≡ n = of_ok (λ m. length cs ≡ m) (sym size' ∙ size) refl in
      let enough : ltb n n ≡ false = ground arith in
      let long : ltb (length (x ∷ (bs ++ cs))) (n + n) ≡ false =
        ground (arith, same, length-append bs cs) in
      let whole : take n (x ∷ bs) ≡ x ∷ bs = take_all n (x ∷ bs) (omega arith) in
      let front : take n (x ∷ (bs ++ cs)) ≡ x ∷ bs = take-append (x ∷ bs) cs in
      let back : drop n (x ∷ (bs ++ cs)) ≡ cs = drop-append (x ∷ bs) cs in
      let nonzero : (b == 0) ≡ false = ground (arith, l) in
      (rw (size, enough, whole, one) refl, rw (size, nonzero, long, front, back, one, two) refl)
