-- ===== src/Crazyflie/Log/Life/Steps.antt =====
-- Submitting a block and disposing of it keep the blocks of a `Log` consistent, whatever the Crazyflie
-- answers.
use aiocflib.Prelude.{
  ℕ, suc, ◌<◌, ◌≡◌, refl, sym, ap, ◌∙◌, Bool, true, false, Option, none, some, ok, Option-cases,
  Result-cases, inl, inr, of_some, arith,
}
use aiocflib.Prelude.Exec.{pure, ◌>>=◌, Preserves, continue-Preserves}
use aiocflib.Crazyflie.Client.{Crazyflie}
use aiocflib.Crazyflie.Log.{block_struct}
use aiocflib.Crazyflie.Log.Blocks.{LogBlock, Log, dispose_of, put_block, set_id}
use aiocflib.Crazyflie.Log.Commands.{create_log_block, submit_block, enroll, submit, dispose}
use aiocflib.Crazyflie.Log.Life.{MayReplace}
use aiocflib.Crazyflie.Log.Life.Device.{
  IsReady, put_block_here, put_block-IsReady, OtherDevice, create_log_block-Preserves,
  dispose_gives,
}

-- The number that `submit` has taken for the block `i`, which was not submitted.
pub record HasNumber {S : Type 0} (i id : ℕ) (s : Log S) : Type 0 where
  pub is_ready : IsReady s
  pub taken : id < s.next_id
  pub unused : (j : ℕ) → (s.blocks j).disposer ≡ some id → ⊥
  pub free : (s.blocks i).disposer ≡ none

-- A block that was not submitted has no number, and is not to be deleted.
record HasNoNumber {S : Type 0} (i : ℕ) (s : Log S) : Type 0 where
  pub is_ready : IsReady s
  no_id : (s.blocks i).id ≡ none

pub HasNumber-OtherDevice : {S : Type 0} (i id : ℕ) → OtherDevice {S = S} (HasNumber i id)
HasNumber-OtherDevice i id s t h = record {
  is_ready = record { known = h.is_ready.known; consistent = h.is_ready.consistent };
  taken = h.taken;
  unused = h.unused;
  free = h.free;
}

HasNoNumber-OtherDevice : {S : Type 0} (i : ℕ) → OtherDevice {S = S} (HasNoNumber i)
HasNoNumber-OtherDevice i s t h = record {
  is_ready = record { known = h.is_ready.known; consistent = h.is_ready.consistent };
  no_id = h.no_id;
}

none_or_some {ℓ} : {A : Type ℓ} (o : Option A) {a : A} → o ≡ none → o ≡ some a → ⊥
none_or_some o h k = ground (arith, h, k)

module _ {S : Type 0} where
  pub numbered :
      (i : ℕ) (s : Log S)
      → IsReady s
      → (s.blocks i).disposer ≡ none
      → HasNumber i s.next_id (record s { next_id = suc s.next_id })
  numbered i s r free = record {
    is_ready = record {
      known = r.known;
      consistent = record {
        enrolled = r.consistent.enrolled;
        handed_out = λ j d h. omega (arith, r.consistent.handed_out j d h);
        distinct = r.consistent.distinct;
      };
    };
    taken = omega arith;
    unused = λ j h. omega (arith, r.consistent.handed_out j s.next_id h);
    free = free;
  }

  pub free-no_id :
      (i : ℕ) (s : Log S) → IsReady s → (s.blocks i).disposer ≡ none → (s.blocks i).id ≡ none
  free-no_id i s r free = elim (Option-cases (s.blocks i).id) [
    | inl e ↦ e
    | inr (id, e) ↦ absurd (none_or_some _ free (r.consistent.enrolled i id e))
  ]

  unfoldable pub numbered_block : (i id : ℕ) (s : Log S) → LogBlock
  numbered_block i id s = record {
    id = some id;
    disposer = some id;
    items = (s.blocks i).items;
    struct = some (block_struct (s.blocks i).items);
  }

  pub numbered_block-MayReplace :
      (i id : ℕ) (s : Log S)
      → HasNumber i id s
      → MayReplace s.next_id s.blocks i (numbered_block i id s)
  unfolding numbered_block
  numbered_block-MayReplace i id s h = record {
    enrolled = λ d e. e;
    handed_out = λ d e. of_some (λ x. x < s.next_id) e h.taken;
    alone = λ j d ne e g. h.unused j (g ∙ sym e);
  }

  no_id-MayReplace :
      (i : ℕ) (s : Log S)
      → IsReady s
      → MayReplace s.next_id s.blocks i (record (s.blocks i) { id = none })
  no_id-MayReplace i s r = record {
    enrolled = λ id e. absurd (none_or_some none refl e);
    handed_out = λ d e. r.consistent.handed_out i d e;
    alone = λ j d ne e g. ne (r.consistent.distinct j i d g e);
  }

  no_disposer-MayReplace :
      (i : ℕ) (s : Log S)
      → HasNoNumber i s
      → MayReplace s.next_id s.blocks i (record (s.blocks i) { disposer = none })
  no_disposer-MayReplace i s h = record {
    enrolled = λ id e. absurd (none_or_some _ h.no_id e);
    handed_out = λ d e. absurd (none_or_some none refl e);
    alone = λ j d ne e g. none_or_some none refl e;
  }

module _ {S F : Type 0} (cf : Crazyflie S F) where
  pub enroll_lem :
      (i id : ℕ) (s : Log S)
      → (s.blocks i).id ≡ none
      → enroll cf i id s ≡ (ok tt, put_block i (numbered_block i id s) s)
  unfolding enroll set_id numbered_block
  enroll_lem i id s e = rw (e, enroll) refl

  enroll-IsReady : (i id : ℕ) (s : Log S) → HasNumber i id s → IsReady (enroll cf i id s).1
  enroll-IsReady i id s h =
      rw (enroll_lem i id s (free-no_id i s h.is_ready h.free))
        (put_block-IsReady i _ s h.is_ready (numbered_block-MayReplace i id s h))

  submit_free :
      (i : ℕ) (s : Log S)
      → IsReady s
      → (s.blocks i).disposer ≡ none
      → IsReady ((submit_block cf i >>= λ id. (enroll cf i id >>= λ _. pure (dispose_of i))) s).1
  unfolding submit_block
  submit_free i s r free =
      let start = record s { next_id = suc s.next_id } in
      let kept =
        create_log_block-Preserves cf (HasNumber i s.next_id) (HasNumber-OtherDevice i s.next_id)
          (λ u h. h.is_ready) s.next_id i start (numbered i s r free) in
      elim (Result-cases (create_log_block cf s.next_id i start).0) [
        | inr (x, e) ↦ rw e kept.is_ready
        | inl (a, e) ↦
            let t = (create_log_block cf s.next_id i start).1 in
            rw e (
              continue-Preserves IsReady (enroll cf i s.next_id t).0 (λ _. pure (dispose_of i))
                (λ x u h. h) (enroll cf i s.next_id t).1 (enroll-IsReady i s.next_id t kept))
      ]

  pub submit-IsReady : (i : ℕ) (allow_multi : Bool) → Preserves IsReady (submit cf i allow_multi)
  unfolding submit submit_block
  submit-IsReady i true s r = elim (Option-cases (s.blocks i).disposer) [
    | inr (d, e) ↦ rw (e, submit) r
    | inl e ↦ rw (e, submit) (submit_free i s r e)
  ]
  submit-IsReady i false s r = elim (Option-cases (s.blocks i).disposer) [
    | inr (d, e) ↦ rw (e, submit) r
    | inl e ↦ rw (e, submit) (submit_free i s r e)
  ]

  pub dispose-IsReady : (i : ℕ) → Preserves IsReady (dispose cf i)
  dispose-IsReady i s r =
      (dispose_gives cf (HasNoNumber i) (HasNoNumber-OtherDevice i) i s
        (record {
          is_ready = put_block-IsReady i _ s r (no_id-MayReplace i s r);
          no_id = ap (λ b. b.id) (put_block_here i _ s);
        })
        (λ t h. record {
          is_ready = put_block-IsReady i _ t h.is_ready (no_disposer-MayReplace i t h);
          no_id = ap (λ b. b.id) (put_block_here i _ t) ∙ h.no_id;
        })).is_ready
