-- ===== src/Crazyflie/Log/Messages.antt =====
-- The values of log messages: what the Crazyflie packs for a block is what the block decodes.
use aiocflib.Prelude.{
  ℕ, ◌+◌, ◌≡◌, refl, false, List, [], ◌∷◌, ◌++◌, some, Result, ok, bind, bind-eq-ok, of_ok, ltb,
  Bytes, length, length-append, take-append, drop-append, append_assoc, arith,
}
use aiocflib.Crazyflie.Values.{Struct, size, Value, Floats, pack, unpack}
use aiocflib.Crazyflie.Values.Integers.{IntegerStruct, pack-unpack, length-pack}
use aiocflib.Crazyflie.Log.{
  LogBlockItem, packet_size, block_struct, total_size, unpack_fields, decode_values,
}

-- The struct of a block has the size that the block reports.
pub total_size-block_struct :
    (items : List LogBlockItem) → total_size (block_struct items) ≡ packet_size items
unfolding total_size block_struct packet_size
total_size-block_struct [] = refl
total_size-block_struct (item ∷ items) = omega (arith, total_size-block_struct items)

module _ {F : Type 0} (floats : Floats F) where
  -- The bytes of values, each packed in its format.
  unfoldable pub pack_fields : List Struct → List (Value F) → Result Bytes
  pack_fields [] vs = ok []
  pack_fields (t ∷ ts) [] = ok []
  pack_fields (t ∷ ts) (v ∷ vs) =
      let rest = pack_fields ts vs in bind (pack floats t v) (λ bs. bind rest (λ cs. ok (bs ++ cs)))

  -- As many values as formats, all of them for integers.
  abbrev pub Matching : List Struct → List (Value F) → Type 0
  Matching [] [] = Unit {0}
  Matching [] (v ∷ vs) = ⊥
  Matching (t ∷ ts) [] = ⊥
  Matching (t ∷ ts) (v ∷ vs) = IntegerStruct t × Matching ts vs

  one_field :
      (t : Struct) (ts : List Struct) (v : Value F) (vs : List (Value F)) (bs rest : Bytes)
      → length bs ≡ size t
      → unpack floats t bs ≡ ok v
      → unpack_fields floats ts rest ≡ ok vs
      → unpack_fields floats (t ∷ ts) (bs ++ rest) ≡ ok (v ∷ vs)
  unfolding unpack_fields
  one_field t ts v vs bs rest long one more =
      rw (← long, take-append bs rest, drop-append bs rest, one, more)

  fields_round_trip :
      (ts : List Struct) (vs : List (Value F)) (bs tail : Bytes)
      → Matching ts vs
      → pack_fields ts vs ≡ ok bs
      → (length bs ≡ total_size ts) × (unpack_fields floats ts (bs ++ tail) ≡ ok vs)
  unfolding pack_fields unpack_fields total_size
  fields_round_trip [] [] bs tail m h = (ground arith, refl)
  fields_round_trip [] (v ∷ vs) bs tail m h = elim m [ ]
  fields_round_trip (t ∷ ts) [] bs tail m h = elim m [ ]
  fields_round_trip (t ∷ ts) (v ∷ vs) bs tail m h =
      let (xs, e, h₁) = bind-eq-ok (pack floats t v) _ h in
      let (ys, f, h₂) = bind-eq-ok (pack_fields ts vs) _ h₁ in
      let (long, back) = fields_round_trip ts vs ys tail m.1 f in
      of_ok
        (λ zs.
          (length zs ≡ total_size (t ∷ ts))
          × (unpack_fields floats (t ∷ ts) (zs ++ tail) ≡ ok (v ∷ vs)))
        h₂
        (
          omega (arith, length-append xs ys, long, length-pack floats t v xs m.0 e),
          rw (append_assoc xs ys tail) (
              one_field t ts v vs xs (ys ++ tail) (length-pack floats t v xs m.0 e)
                (pack-unpack floats t v xs m.0 e) back),
        )

  -- A data packet whose bytes after the first four are those of integer values in the formats of a block,
  -- and possibly more, is decoded to these values.
  pub pack_fields-decode_values :
      (ts : List Struct) (vs : List (Value F)) (bs tail : Bytes) (id a b c : ℕ)
      → Matching ts vs
      → pack_fields ts vs ≡ ok bs
      → decode_values floats (some ts) (id ∷ a ∷ b ∷ c ∷ (bs ++ tail)) ≡ ok vs
  unfolding decode_values
  pack_fields-decode_values ts vs bs tail id a b c m h =
      let (long, back) = fields_round_trip ts vs bs tail m h in
      let enough : ltb (length (id ∷ a ∷ b ∷ c ∷ (bs ++ tail))) (4 + total_size ts) ≡ false =
        ground (arith, long, length-append bs tail) in
      rw (enough, back)
