-- ===== src/Crazyflie/Log/Life.antt =====
-- What holds of the blocks of a `Log` between two calls, whatever the Crazyflie answers and whatever they
-- raise.
pub mod Device
pub mod Steps
pub mod Submitting
pub mod Reachable
use aiocflib.Prelude.{
  ℕ, ◌<◌, ◌≡◌, ◌≢◌, sym, ◌∙◌, false, Option, some, ◌==◌, ==_iff, if◌then◌else◌, ℕ_discrete, arith,
}
use aiocflib.Crazyflie.Log.Blocks.{LogBlock}

-- A block with a number is to be deleted under this number; the numbers of the blocks to be deleted have
-- been handed out, and no two blocks have the same.
pub record IsConsistent (next_id : ℕ) (blocks : ℕ → LogBlock) : Type 0 where
  pub enrolled : (i id : ℕ) → (blocks i).id ≡ some id → (blocks i).disposer ≡ some id
  pub handed_out : (i d : ℕ) → (blocks i).disposer ≡ some d → d < next_id
  pub distinct : (i j d : ℕ) → (blocks i).disposer ≡ some d → (blocks j).disposer ≡ some d → i ≡ j

-- A block that may take the place of the block `i`.
pub record MayReplace (next_id : ℕ) (blocks : ℕ → LogBlock) (i : ℕ) (b : LogBlock) : Type 0 where
  pub enrolled : (id : ℕ) → b.id ≡ some id → b.disposer ≡ some id
  pub handed_out : (d : ℕ) → b.disposer ≡ some d → d < next_id
  pub alone : (j d : ℕ) → j ≢ i → b.disposer ≡ some d → (blocks j).disposer ≡ some d → ⊥

module _ (next_id : ℕ) (blocks : ℕ → LogBlock) (i : ℕ) (b : LogBlock) where
  unfoldable pub replaced : ℕ → LogBlock
  replaced j = if j == i then b else blocks j

  replaced_here : (j : ℕ) → j ≡ i → replaced j ≡ b
  unfolding replaced
  replaced_here j e = rw ((==_iff j i).1 e)

  replaced_other : (j : ℕ) → j ≢ i → replaced j ≡ blocks j
  unfolding replaced
  replaced_other j ne = let f : (j == i) ≡ false = ground (arith, ne) in rw f

  pub replaced-IsConsistent :
      IsConsistent next_id blocks → MayReplace next_id blocks i b → IsConsistent next_id replaced
  replaced-IsConsistent c m = record {
    enrolled = λ j id h. elim (ℕ_discrete j i) [
      | yes e ↦ rw (replaced_here j e) (m.enrolled id (rw (replaced_here j e) at h))
      | no n ↦ rw (replaced_other j n) (c.enrolled j id (rw (replaced_other j n) at h))
    ];
    handed_out = λ j d h. elim (ℕ_discrete j i) [
      | yes e ↦ m.handed_out d (rw (replaced_here j e) at h)
      | no n ↦ c.handed_out j d (rw (replaced_other j n) at h)
    ];
    distinct = λ j k d h g. elim (ℕ_discrete j i) [
      | yes e ↦ elim (ℕ_discrete k i) [
        | yes e' ↦ e ∙ sym e'
        | no n ↦ absurd (m.alone k d n (rw (replaced_here j e) at h) (rw (replaced_other k n) at g))
      ]
      | no n ↦ elim (ℕ_discrete k i) [
        | yes e ↦
            absurd (m.alone j d n (rw (replaced_here k e) at g) (rw (replaced_other j n) at h))
        | no n' ↦ c.distinct j k d (rw (replaced_other j n) at h) (rw (replaced_other k n') at g)
      ]
    ];
  }
