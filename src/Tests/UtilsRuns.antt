-- ===== src/Tests/UtilsRuns.antt =====
-- The utilities at concrete inputs.
use aiocflib.Prelude.{
  ℕ, ◌+◌, ◌≡◌, refl, List, [], ◌∷◌, ok, err, value_error, Bytes, not_all_zero, arith,
}
use aiocflib.Utils.Chunks.{chunkify, Tiles, chunkify-Tiles}
use aiocflib.Utils.Checksum.{sentinel, ensure_not_all_zero_bytes}

chunks_of_45 : chunkify 100 45 20 ≡ ok ((100, 20) ∷ (120, 20) ∷ (140, 5) ∷ [])
unfolding chunkify
chunks_of_45 = refl

chunks_of_none : chunkify 100 0 20 ≡ ok []
unfolding chunkify
chunks_of_none = refl

chunks_by_zero : chunkify 100 45 0 ≡ err value_error
unfolding chunkify
chunks_by_zero = refl

chunkify-Tiles_example :
    (cs : List (ℕ × ℕ)) × (chunkify 100 45 20 ≡ ok cs) × Tiles 20 100 (100 + 45) cs
chunkify-Tiles_example = chunkify-Tiles 100 45 20 (omega arith)

abbrev some_bytes : Bytes
some_bytes = 1 ∷ 2 ∷ 3 ∷ 4 ∷ 5 ∷ 6 ∷ 7 ∷ []

zeros_replaced : ensure_not_all_zero_bytes (0 ∷ 0 ∷ []) ≡ 0x0b ∷ 0xad ∷ []
unfolding ensure_not_all_zero_bytes sentinel not_all_zero
zeros_replaced = refl
