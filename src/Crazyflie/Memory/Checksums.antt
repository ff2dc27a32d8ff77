-- ===== src/Crazyflie/Memory/Checksums.antt =====
-- `write_with_checksum`: when it writes, and what stands in the memory afterwards.
use aiocflib.Prelude.{
  ℕ, ◌+◌, ◌^◌, ◌≤◌, ◌<◌, ◌≡◌, ◌≢◌, refl, sym, ap, ◌∙◌, Bool, true, false, ◌&&◌, ◌++◌, Result, ok,
  if◌then◌else◌, Bytes, bytes_eq, length, slice, splice, replicate, length-append, length-replicate,
  Bool-cases, inl, inr, arith,
}
use aiocflib.Prelude.Splice.{splice_next, splice_over, length-splice}
use aiocflib.Crazyflie.Memory.{
  MemoryElement, read, write, need_to_write, write_all, write_with_checksum,
}
use aiocflib.Crazyflie.Memory.Device.{MemoryDevice}
use aiocflib.Crazyflie.Memory.Transfers.{read-contents, write-contents}

-- The memory after `write_with_checksum`: as it was if the write may be skipped and the bytes at the
-- address are the expected checksum, and otherwise with the checksum and the data at the address.
abbrev pub after : ℕ → Bytes → Bytes → Bool → Bytes → Bytes
after addr expected bs only_if_changed mem =
    if only_if_changed && bytes_eq (slice addr (length expected) mem) expected
    then mem
    else splice addr (expected ++ bs) mem

module _ {S : Type 0} (d : MemoryDevice S) (el : MemoryElement) (fits : el.index < 256) where
  open d use {run_command, contents}

  -- Zeros, then the data behind them, then the checksum.
  write_all_lem :
      (addr : ℕ) (expected bs : Bytes) (s : S)
      → addr + length expected + length bs ≤ length (contents s el.index)
      → addr + length expected + length bs ≤ 2 ^ 32
      → ((write_all run_command el addr expected bs s).0 ≡ ok (length expected))
        × (contents (write_all run_command el addr expected bs s).1 el.index
            ≡ splice addr (expected ++ bs) (contents s el.index))
        × ((j : ℕ)
            → j ≢ el.index
            → contents (write_all run_command el addr expected bs s).1 j ≡ contents s j)
  unfolding write_all
  write_all_lem addr expected bs s h k =
      let mem = contents s el.index in
      let zeros : Bytes = replicate (length expected) 0 in
      let zeros_long : length zeros ≡ length expected = length-replicate (length expected) 0 in
      let (done₁, there₁, others₁) =
        write-contents d el fits addr zeros s (omega (arith, h, zeros_long))
          (omega (arith, k, zeros_long)) in
      let s₁ = (write run_command el addr zeros s).1 in
      let size₁ : length (contents s₁ el.index) ≡ length mem =
        ap length there₁ ∙ length-splice addr zeros mem (omega (arith, h, zeros_long)) in
      let (done₂, there₂, others₂) =
        write-contents d el fits (addr + length expected) bs s₁ (omega (arith, h, size₁)) k in
      let s₂ = (write run_command el (addr + length expected) bs s₁).1 in
      let both : contents s₂ el.index ≡ splice addr (zeros ++ bs) mem =
        there₂
        ∙ ap (splice (addr + length expected) bs) there₁
        ∙ splice_next addr (length expected) zeros bs mem zeros_long
            (omega (arith, h, zeros_long)) in
      let size₂ : length (contents s₂ el.index) ≡ length mem =
        ap length both
        ∙ length-splice addr (zeros ++ bs) mem
            (omega (arith, h, zeros_long, length-append zeros bs)) in
      let (done₃, there₃, others₃) =
        write-contents d el fits addr expected s₂ (omega (arith, h, size₂)) (omega (arith, k)) in
      rw (done₁, done₂, done₃)
        (
          refl,
          there₃
              ∙ ap (splice addr expected) both
              ∙ splice_over addr expected zeros bs mem (sym zeros_long) (omega (arith, h)),
          λ j n. others₃ j n ∙ others₂ j n ∙ others₁ j n,
        )

  -- On a device that answers as documented, with room for checksum and data: the call returns the length of
  -- the checksum; the memory is as it was if only changes are written and the bytes at the address are the
  -- checksum already, and otherwise it has the checksum and the data at the address and is as it was
  -- elsewhere; no other memory changes.
  pub write_with_checksum_lem :
      (addr : ℕ) (bs : Bytes) (only_if_changed : Bool) (checksum : Bytes → Result Bytes)
      (expected : Bytes) (s : S)
      → checksum bs ≡ ok expected
      → addr + length expected + length bs ≤ length (contents s el.index)
      → addr + length expected + length bs ≤ 2 ^ 32
      → ((write_with_checksum run_command el addr bs only_if_changed checksum s).0
          ≡ ok (length expected))
        × (contents
              (write_with_checksum run_command el addr bs only_if_changed checksum s).1
              el.index
            ≡ after addr expected bs only_if_changed (contents s el.index))
        × ((j : ℕ)
            → j ≢ el.index
            → contents (write_with_checksum run_command el addr bs only_if_changed checksum s).1 j
              ≡ contents s j)
  unfolding write_with_checksum need_to_write
  write_with_checksum_lem addr bs false checksum expected s e h k =
      rw e (write_all_lem addr expected bs s h k)
  write_with_checksum_lem addr bs true checksum expected s e h k =
      let n = length expected in
      let s' = (read run_command el addr n s).1 in
      let (observed, kept) =
        read-contents d el fits addr n s (omega (arith, h)) (omega (arith, k)) in
      let same : contents s' el.index ≡ contents s el.index = kept el.index in
      elim (Bool-cases (bytes_eq (slice addr n (contents s el.index)) expected)) [
        | inl c ↦ rw (e, observed, c) (refl, same, λ j _. kept j)
        | inr c ↦
            let (done, there, others) = write_all_lem addr expected bs s' (rw same h) k in
            rw (e, observed, c)
              (done, there ∙ ap (splice addr (expected ++ bs)) same, λ j m. others j m ∙ kept j)
      ]
