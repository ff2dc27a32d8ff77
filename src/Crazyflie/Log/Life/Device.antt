-- ===== src/Crazyflie/Log/Life/Device.antt =====
-- Commands change the device of a `Log` and leave its blocks alone.
use aiocflib.Prelude.{
  [], ℕ, ◌≡◌, ◌≢◌, ◌/◌, ltb, true, false, List, none, some, ok, ◌==◌, Bytes, Bool-cases,
  Option-cases, Result-cases, inl, inr, arith,
}
use aiocflib.Prelude.Exec.{Preserves, bind-Preserves, lift}
use aiocflib.Crazyflie.Client.{Crazyflie}
use aiocflib.Crazyflie.Names.{Text}
use aiocflib.Crazyflie.Log.{VariableSpecification, block_bytes}
use aiocflib.Crazyflie.Log.Periods.{Rates, Timing, process_period_and_frequency}
use aiocflib.Crazyflie.Log.Blocks.{LogBlock, Log, put_block, control_request, without_runtime_error}
use aiocflib.Crazyflie.Log.Commands.{
  on_device, validate, control, create_log_block, delete_log_block_by_id, start_log_block_by_id,
  stop_log_block_by_id, dispose, start,
}
use aiocflib.Crazyflie.Log.Life.{IsConsistent, MayReplace, replaced, replaced-IsConsistent}

-- The table of variables is known and the blocks are consistent.
pub record IsReady {S : Type 0} (s : Log S) : Type 0 where
  pub known :
      (table : List VariableSpecification × List (Text × VariableSpecification)) × (s.variables
        ≡ some table)
  pub consistent : IsConsistent s.next_id s.blocks

module _ {S : Type 0} where
  pub put_block_here : (i : ℕ) (b : LogBlock) (s : Log S) → (put_block i b s).blocks i ≡ b
  unfolding put_block
  put_block_here i b s = let e : (i == i) ≡ true = ground arith in rw e

  pub put_block_other :
      (i j : ℕ) (b : LogBlock) (s : Log S) → j ≢ i → (put_block i b s).blocks j ≡ s.blocks j
  unfolding put_block
  put_block_other i j b s ne = let e : (j == i) ≡ false = ground (arith, ne) in rw e

  pub put_block-IsReady :
      (i : ℕ) (b : LogBlock) (s : Log S)
      → IsReady s
      → MayReplace s.next_id s.blocks i b
      → IsReady (put_block i b s)
  unfolding put_block replaced
  put_block-IsReady i b s r m = record {
    known = r.known;
    consistent = replaced-IsConsistent s.next_id s.blocks i b r.consistent m;
  }

  -- A predicate that does not speak of the device.
  abbrev pub OtherDevice : (Log S → Type 0) → Type 0
  OtherDevice P = (s : Log S) (t : S) → P s → P (record s { device = t })

  pub IsReady-OtherDevice : OtherDevice IsReady
  IsReady-OtherDevice s t h = record { known = h.known; consistent = h.consistent }

module _ {S F : Type 0} (cf : Crazyflie S F) (P : Log S → Type 0)
    (other_device : OtherDevice P) where
  pub control-Preserves : (command id : ℕ) (bs : Bytes) → Preserves P (control cf command id bs)
  unfolding control on_device
  control-Preserves command id bs =
      bind-Preserves P (on_device cf (cf.run_command (control_request command id bs))) _
        (λ s h. other_device s _ h) (λ a s h. h)

  pub stop-Preserves : (id : ℕ) → Preserves P (stop_log_block_by_id cf id)
  unfolding stop_log_block_by_id
  stop-Preserves id = control-Preserves 4 id []

  start_by_id-Preserves : (id msec : ℕ) → Preserves P (start_log_block_by_id cf id msec)
  unfolding start_log_block_by_id
  start_by_id-Preserves id msec s r = elim (Bool-cases (ltb 255 (msec / 10))) [
    | inl t ↦ rw (t, start_log_block_by_id) r
    | inr f ↦ rw (f, start_log_block_by_id) (control-Preserves 3 id _ s r)
  ]

  pub start-Preserves :
      (rates : Rates F) (i : ℕ) (timing : Timing F) → Preserves P (start cf rates i timing)
  unfolding start
  start-Preserves rates i timing s r = elim (Option-cases (s.blocks i).id) [
    | inl e ↦ rw (e, start) r
    | inr (id, e) ↦
        rw (e, start)
          (bind-Preserves P (lift (process_period_and_frequency rates timing)) _ (λ u h. h)
            (λ msec.
              bind-Preserves P (start_log_block_by_id cf id msec) _ (start_by_id-Preserves id msec)
                (λ a u h. h))
            s r)
  ]

  validate_known : (s : Log S) → IsReady s → validate cf s ≡ (ok tt, s)
  unfolding validate
  validate_known s r = ground (arith, r.known.1)

  pub create_log_block-Preserves :
      ((s : Log S) → P s → IsReady s) → (id i : ℕ) → Preserves P (create_log_block cf id i)
  unfolding create_log_block
  create_log_block-Preserves ready id i =
      bind-Preserves P (validate cf) _ (λ s h. rw (validate_known s (ready s h)) h)
        (λ a.
          bind-Preserves P (λ s. (block_bytes (s.blocks i).items, s)) _ (λ s h. h)
            (λ bs. control-Preserves 6 id bs))

  -- What holds of a block without its number, and still without its disposer, holds after `dispose`.
  pub dispose_gives :
      (i : ℕ) (s : Log S)
      → P (put_block i (record (s.blocks i) { id = none }) s)
      → ((t : Log S) → P t → P (put_block i (record (t.blocks i) { disposer = none }) t))
      → P (dispose cf i s).1
  unfolding dispose delete_log_block_by_id
  dispose_gives i s start done = elim (Option-cases (s.blocks i).disposer) [
    | inl e ↦ rw (e, dispose) start
    | inr (d, e) ↦
        let s' = put_block i (record (s.blocks i) { id = none }) s in
        let kept = control-Preserves 2 d [] s' start in
        let t = (delete_log_block_by_id cf d s').1 in
        elim (Result-cases (without_runtime_error (delete_log_block_by_id cf d s').0)) [
          | inr (x, f) ↦ rw (e, dispose) (rw (f, dispose) kept)
          | inl (a, f) ↦ rw (e, dispose) (rw (f, dispose) (done t kept))
        ]
  ]
