-- ===== src/Crazyflie/Log/Life/Submitting.antt =====
-- What a call of `submit` that returns has done to the blocks.
use aiocflib.Prelude.{
  ℕ, suc, ◌≡◌, ◌≢◌, refl, ap, ◌∙◌, false, none, some, Result, ok, err, Option-cases, Result-cases,
  inl, inr, arith, Error, runtime_error,
}
use aiocflib.Crazyflie.Client.{Crazyflie}
use aiocflib.Crazyflie.Log.Blocks.{Log, put_block, Disposer, dispose_of}
use aiocflib.Crazyflie.Log.Commands.{create_log_block, submit_block, submit}
use aiocflib.Crazyflie.Log.Life.Device.{
  IsReady, OtherDevice, put_block_here, put_block_other, put_block-IsReady,
  create_log_block-Preserves,
}
use aiocflib.Crazyflie.Log.Life.Steps.{
  HasNumber, HasNumber-OtherDevice, numbered, free-no_id, numbered_block, numbered_block-MayReplace,
  enroll_lem,
}

module _ {S : Type 0} where
  -- The block `i` was free and has got the next number, and the other blocks are as they were.
  pub record Submitted (i : ℕ) (s t : Log S) : Type 0 where
    pub is_ready : IsReady t
    pub was_free : (s.blocks i).disposer ≡ none
    pub numbered : (t.blocks i).id ≡ some s.next_id
    pub others : (j : ℕ) → j ≢ i → t.blocks j ≡ s.blocks j

  -- The state while the block is created on the Crazyflie.
  record Creating (i : ℕ) (s t : Log S) : Type 0 where
    has_number : HasNumber i s.next_id t
    same_blocks : (j : ℕ) → t.blocks j ≡ s.blocks j

  Creating-OtherDevice : (i : ℕ) (s : Log S) → OtherDevice (Creating i s)
  Creating-OtherDevice i s t d h = record {
    has_number = HasNumber-OtherDevice i s.next_id t d h.has_number;
    same_blocks = h.same_blocks;
  }

module _ {S F : Type 0} (cf : Crazyflie S F) where
  created_block : (i : ℕ) (s : Log S) → Result (Unit {0}) × Log S
  created_block i s = create_log_block cf s.next_id i (record s { next_id = suc s.next_id })

  created_block-Creating :
      (i : ℕ) (s : Log S)
      → IsReady s
      → (s.blocks i).disposer ≡ none
      → Creating i s (created_block i s).1
  unfolding created_block
  created_block-Creating i s r free =
      create_log_block-Preserves cf (Creating i s) (Creating-OtherDevice i s)
        (λ u h. h.has_number.is_ready) s.next_id i _
        (record { has_number = numbered i s r free; same_blocks = λ j. refl })

  submit_lem :
      (i : ℕ) (s : Log S) (a : Unit {0})
      → IsReady s
      → (s.blocks i).disposer ≡ none
      → (created_block i s).0 ≡ ok a
      → let t = (created_block i s).1 in
        submit cf i false s ≡ (ok (dispose_of i), put_block i (numbered_block i s.next_id t) t)
  unfolding submit submit_block created_block
  submit_lem i s a r free e =
      let c = created_block-Creating i s r free in
      let t = (created_block i s).1 in
      let no_id = free-no_id i t c.has_number.is_ready c.has_number.free in
      rw (free, submit) (rw e (rw (enroll_lem cf i s.next_id t no_id) refl))

  submit_fails :
      (i : ℕ) (s : Log S) (x : Disposer) (f : Error)
      → (s.blocks i).disposer ≡ none
      → (created_block i s).0 ≡ err f
      → (submit cf i false s).0 ≡ ok x
      → ⊥
  unfolding submit submit_block created_block
  submit_fails i s x f free e h =
      let raised : err f ≡ ok x = rw (free, submit, e) at h in ground arith

  submit_twice :
      (i : ℕ) (s : Log S) (d : ℕ) (x : Disposer)
      → (s.blocks i).disposer ≡ some d
      → (submit cf i false s).0 ≡ ok x
      → ⊥
  unfolding submit
  submit_twice i s d x e h =
      let raised : err runtime_error ≡ ok x = rw (e, submit) at h in ground arith

  pub submit-Submitted :
      (i : ℕ) (s : Log S) (x : Disposer)
      → IsReady s
      → (submit cf i false s).0 ≡ ok x
      → Submitted i s (submit cf i false s).1
  unfolding numbered_block
  submit-Submitted i s x r h = elim (Option-cases (s.blocks i).disposer) [
    | inr (d, e) ↦ absurd (submit_twice i s d x e h)
    | inl free ↦ elim (Result-cases (created_block i s).0) [
      | inr (f, e) ↦ absurd (submit_fails i s x f free e h)
      | inl (a, e) ↦
          let c = created_block-Creating i s r free in
          let t = (created_block i s).1 in
          let b = numbered_block i s.next_id t in
          rw (submit_lem i s a r free e) (record {
            is_ready =
                put_block-IsReady i b t c.has_number.is_ready
                  (numbered_block-MayReplace i s.next_id t c.has_number);
            was_free = free;
            numbered = ap (λ y. y.id) (put_block_here i b t);
            others = λ j ne. put_block_other i j b t ne ∙ c.same_blocks j;
          })
    ]
  ]
