-- ===== src/Crazyflie/Memory/Transfers.antt =====
-- A read gives the bytes of the memory, and a write puts bytes there, however many packets they take.
use aiocflib.Prelude.{
  ℕ, ◌+◌, ◌-◌, ◌^◌, ◌≤◌, ◌<◌, ◌≡◌, ◌≢◌, refl, sym, ap, ◌∙◌, List, [], ◌∷◌, ok, Bytes, length, drop,
  slice, splice, slice-append, length-take, length-drop, take_all, arith,
}
use native.Mathlib.Nat.{zero-add}
use aiocflib.Prelude.Splice.{splice-nil, splice-splice, length-splice}
use aiocflib.Utils.Chunks.{chunkify-Tiles, Tiles}
use aiocflib.Crazyflie.Memory.{
  MemoryElement, read_chunk, read_loop, read, write_chunk, write_loop, write, read_request,
  write_request,
}
use aiocflib.Crazyflie.Memory.Device.{MemoryDevice, place, addressing_fits}

module _ {S : Type 0} (d : MemoryDevice S) (el : MemoryElement) (fits : el.index < 256) where
  open d use {
    run_command, contents, read_answer, read_keeps, write_answer, write_contents, write_keeps,
  }

  read_chunk_lem :
      (addr size : ℕ) (s : S)
      → size ≤ 20
      → addr < 2 ^ 32
      → addr + size ≤ length (contents s el.index)
      → read_chunk run_command el addr size s ≡ (
        ok (slice addr size (contents s el.index), 0),
        (run_command (read_request (place el.index addr) size) s).1,
      )
  unfolding read_chunk
  read_chunk_lem addr size s h k l =
      rw (addressing_fits el.index addr fits k, read_answer s el.index addr size fits k h l)

  read_loop_lem :
      (cs : List (ℕ × ℕ)) (start end : ℕ) (s : S)
      → Tiles 20 start end cs
      → end ≤ 2 ^ 32
      → end ≤ length (contents s el.index)
      → ((read_loop run_command el cs s).0 ≡ ok (slice start (end - start) (contents s el.index)))
        × ((j : ℕ) → contents (read_loop run_command el cs s).1 j ≡ contents s j)
  unfolding read_loop
  read_loop_lem [] start end s t h k =
      let nothing : end - start ≡ 0 = omega (arith, t) in (rw nothing, λ j. refl)
  read_loop_lem ((at, size) ∷ rest) start end s (same, pos, small, inside, t) h k =
      let s' = (run_command (read_request (place el.index start) size) s).1 in
      let kept = read_keeps s el.index start size in
      let ih = read_loop_lem rest (start + size) end s' t h (rw (kept el.index) k) in
      let whole : end - start ≡ size + (end - (start + size)) = omega (arith, inside) in
      let chunk =
        read_chunk_lem start size s small (omega (arith, pos, inside, h))
          (omega (arith, inside, k)) in
      rw (same, chunk, ih.0)
        (
          rw (kept el.index, whole) (ap ok (sym (slice-append start size _ (contents s el.index)))),
          λ j. ih.1 j ∙ kept j,
        )

  -- Reading within a memory of a device that answers as documented returns the bytes of the memory there,
  -- and changes no memory.
  pub read-contents :
      (addr size : ℕ) (s : S)
      → addr + size ≤ length (contents s el.index)
      → addr + size ≤ 2 ^ 32
      → ((read run_command el addr size s).0 ≡ ok (slice addr size (contents s el.index)))
        × ((j : ℕ) → contents (read run_command el addr size s).1 j ≡ contents s j)
  unfolding read
  read-contents addr size s h k =
      let (cs, e, t) = chunkify-Tiles addr size 20 (omega arith) in
      let just : addr + size - addr ≡ size = omega arith in
      rw e (rw just at (read_loop_lem cs addr (addr + size) s t k h))

  write_chunk_lem :
      (addr : ℕ) (bs : Bytes) (s : S)
      → length bs ≤ 25
      → addr < 2 ^ 32
      → addr + length bs ≤ length (contents s el.index)
      → write_chunk run_command el addr bs s
        ≡ (ok 0, (run_command (write_request (place el.index addr) bs) s).1)
  unfolding write_chunk
  write_chunk_lem addr bs s h k l =
      rw (addressing_fits el.index addr fits k, write_answer s el.index addr bs fits k h l)

  -- The chunks from `start` to `end` of the data are at their places, and the rest is as before.
  write_loop_lem :
      (cs : List (ℕ × ℕ)) (start end addr : ℕ) (bs : Bytes) (s : S)
      → Tiles 25 start end cs
      → end ≤ length bs
      → addr + end ≤ 2 ^ 32
      → addr + end ≤ length (contents s el.index)
      → ((write_loop run_command el addr bs cs s).0 ≡ ok tt)
        × (contents (write_loop run_command el addr bs cs s).1 el.index
            ≡ splice (addr + start) (slice start (end - start) bs) (contents s el.index))
        × ((j : ℕ)
            → j ≢ el.index
            → contents (write_loop run_command el addr bs cs s).1 j ≡ contents s j)
  unfolding write_loop
  write_loop_lem [] start end addr bs s t h k l =
      let nothing : end - start ≡ 0 = omega (arith, t) in
      (refl, rw nothing (sym (splice-nil (addr + start) (contents s el.index))), λ j n. refl)
  write_loop_lem ((at, size) ∷ rest) start end addr bs s (same, pos, small, inside, t) h k l =
      let piece = slice start size bs in
      let long : length piece ≡ size =
        omega (arith, inside, h, length-take size (drop start bs), length-drop start bs) in
      let s' = (run_command (write_request (place el.index (addr + start)) piece) s).1 in
      let room : addr + start + length piece ≤ length (contents s el.index) =
        omega (arith, long, inside, l) in
      let short : length piece ≤ 25 = omega (arith, long, small) in
      let low : addr + start < 2 ^ 32 = omega (arith, pos, inside, k) in
      let wrote = write_contents s el.index (addr + start) piece fits low short room in
      let still : length (contents s' el.index) ≡ length (contents s el.index) =
        ap length wrote ∙ length-splice (addr + start) piece (contents s el.index) room in
      let (done, there, others) =
        write_loop_lem rest (start + size) end addr bs s' t h k (omega (arith, l, still)) in
      let chunk = write_chunk_lem (addr + start) piece s short low room in
      let whole : end - start ≡ size + (end - (start + size)) = omega (arith, inside) in
      let next : addr + (start + size) ≡ addr + start + length piece = omega (arith, long) in
      rw (same, chunk)
        (
          done,
          there
              ∙ ap (splice (addr + (start + size)) (slice (start + size) (end - (start + size)) bs))
                  wrote
              ∙ rw (next, whole, slice-append start size (end - (start + size)) bs)
                  (splice-splice (addr + start) piece _ (contents s el.index) (
                    omega (
                      arith,
                      long,
                      inside,
                      l,
                      h,
                      length-take (end - (start + size)) (drop (start + size) bs),
                    ))),
          λ j n. others j n ∙ write_keeps s el.index (addr + start) piece j fits n,
        )

  -- Writing within a memory of a device that answers as documented puts the data at its place, and changes
  -- nothing else of that memory and no other memory.
  pub write-contents :
      (addr : ℕ) (bs : Bytes) (s : S)
      → addr + length bs ≤ length (contents s el.index)
      → addr + length bs ≤ 2 ^ 32
      → ((write run_command el addr bs s).0 ≡ ok tt)
        × (contents (write run_command el addr bs s).1 el.index
            ≡ splice addr bs (contents s el.index))
        × ((j : ℕ) → j ≢ el.index → contents (write run_command el addr bs s).1 j ≡ contents s j)
  unfolding write
  write-contents addr bs s h k =
      let (cs, e, t) = chunkify-Tiles 0 (length bs) 25 (omega arith) in
      let t' : Tiles 25 0 (length bs) cs = rw zero-add at t in
      let (done, there, others) = write_loop_lem cs 0 (length bs) addr bs s t' (omega arith) k h in
      let all : slice 0 (length bs - 0) bs ≡ bs = take_all (length bs - 0) bs (omega arith) in
      let start : addr + 0 ≡ addr = omega arith in rw e (done, rw (all, start) at there, others)
