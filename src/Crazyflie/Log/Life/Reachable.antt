-- ===== src/Crazyflie/Log/Life/Reachable.antt =====
-- The states that calls on the blocks of a `Log` lead to.
use aiocflib.Prelude.{ℕ, ◌≡◌, refl, sym, ◌∙◌, Bool, Option, subst, arith}
use aiocflib.Prelude.Exec.{lift, Preserves, bind-Preserves}
use aiocflib.Crazyflie.Client.{Crazyflie}
use aiocflib.Crazyflie.Names.{Text}
use aiocflib.Crazyflie.Log.Periods.{Rates, Timing}
use aiocflib.Crazyflie.Log.Blocks.{LogBlock, empty_block, Log, put_block}
use aiocflib.Crazyflie.Log.Commands.{
  stop_log_block_by_id, new_block, added_item, find_variable, add_variable, submit, dispose, start,
}
use aiocflib.Crazyflie.Log.Life.Device.{
  IsReady, IsReady-OtherDevice, put_block-IsReady, start-Preserves, stop-Preserves,
}
use aiocflib.Crazyflie.Log.Life.Steps.{submit-IsReady, dispose-IsReady}

module _ {S F : Type 0} (cf : Crazyflie S F) where
  same_enrollment-IsReady :
      (i : ℕ) (b : LogBlock) (s : Log S)
      → IsReady s
      → b.id ≡ (s.blocks i).id
      → b.disposer ≡ (s.blocks i).disposer
      → IsReady (put_block i b s)
  same_enrollment-IsReady i b s r e f = put_block-IsReady i b s r (record {
    enrolled = λ id h. f ∙ r.consistent.enrolled i id (sym e ∙ h);
    handed_out = λ d h. r.consistent.handed_out i d (sym f ∙ h);
    alone = λ j d ne h g. ne (r.consistent.distinct j i d g (sym f ∙ h));
  })

  add_variable-IsReady :
      (i : ℕ) (name : Text) (type : Option ℕ) → Preserves IsReady (add_variable cf i name type)
  unfolding add_variable
  add_variable-IsReady i name type s r =
      bind-Preserves IsReady (λ u. (find_variable cf name u.variables, u)) _ (λ u h. h)
        (λ spec.
          bind-Preserves IsReady (lift (added_item cf name type spec)) _ (λ u h. h)
            (λ item u h. same_enrollment-IsReady i _ u h refl refl))
        s r

  new_block-IsReady : Preserves IsReady (new_block cf)
  unfolding new_block
  new_block-IsReady s r =
      put_block-IsReady s.created empty_block _
        (record { known = r.known; consistent = r.consistent })
        (record {
          enrolled = λ id h. absurd (ground arith);
          handed_out = λ d h. absurd (ground arith);
          alone = λ j d ne h g. ground arith;
        })

  -- A call on a block: creating it, adding a variable to it, submitting it, starting it, stopping a number,
  -- and disposing of it. What the Crazyflie answers and what the call raises is left open.
  pub data Step (s t : Log S) : Type 0 where
    creates : t ≡ (new_block cf s).1 → Step s t
    adds :
        (i : ℕ) (name : Text) (type : Option ℕ) → t ≡ (add_variable cf i name type s).1 → Step s t
    submits : (i : ℕ) (allow_multi : Bool) → t ≡ (submit cf i allow_multi s).1 → Step s t
    starts :
        (rates : Rates F) (i : ℕ) (timing : Timing F) → t ≡ (start cf rates i timing s).1 → Step s t
    stops : (id : ℕ) → t ≡ (stop_log_block_by_id cf id s).1 → Step s t
    disposes : (i : ℕ) → t ≡ (dispose cf i s).1 → Step s t

  pub data Reaches (s : Log S) : Log S → Type 0 where
    here : Reaches s s
    next : {t u : Log S} → Reaches s t → Step t u → Reaches s u

  Step-IsReady : (s t : Log S) → Step s t → IsReady s → IsReady t
  Step-IsReady s t (creates e) r = subst IsReady (sym e) (new_block-IsReady s r)
  Step-IsReady s t (adds i name type e) r =
      subst IsReady (sym e) (add_variable-IsReady i name type s r)
  Step-IsReady s t (submits i allow_multi e) r =
      subst IsReady (sym e) (submit-IsReady cf i allow_multi s r)
  Step-IsReady s t (starts rates i timing e) r =
      subst IsReady (sym e) (start-Preserves cf IsReady IsReady-OtherDevice rates i timing s r)
  Step-IsReady s t (stops id e) r =
      subst IsReady (sym e) (stop-Preserves cf IsReady IsReady-OtherDevice id s r)
  Step-IsReady s t (disposes i e) r = subst IsReady (sym e) (dispose-IsReady cf i s r)

  -- From a state in which the table of variables is known and the blocks are consistent, calls on blocks
  -- that are answered and that fail in any way lead to such states only: two blocks are never to be deleted
  -- under the same number, and a block that has a number is to be deleted under it.
  pub Reaches-IsReady : {s t : Log S} → IsReady s → Reaches s t → IsReady t
  Reaches-IsReady r here = r
  Reaches-IsReady r (next {t} {u} path step) = Step-IsReady t u step (Reaches-IsReady r path)
