-- ===== src/Crazyflie/Log/Sessions/Leaving.antt =====
-- What `__aexit__` of `LogSession` leaves behind, whatever the Crazyflie answers.
use aiocflib.Prelude.{
  ℕ, ◌≡◌, refl, ap, ◌∙◌, subst, sym, ℕ_discrete, List, [], ◌∷◌, none, some, inl, ◌⊎◌, inr,
}
use aiocflib.Prelude.Exec.{Preserves, finally-Preserves}
use aiocflib.Crazyflie.Client.{Crazyflie}
use aiocflib.Crazyflie.Log.Periods.{Rates}
use aiocflib.Crazyflie.Log.Blocks.{LogBlock, Log, put_block, anop, dispose_of}
use aiocflib.Crazyflie.Log.Commands.{run_disposer, dispose}
use aiocflib.Crazyflie.Log.Life.Device.{
  OtherDevice, put_block_here, put_block_other, stop-Preserves, dispose_gives,
}
use aiocflib.Crazyflie.Log.Sessions.{
  Cleanup, disposal, stopping, Session, run_cleanup, unwind, leave_stack, aexit,
}

-- The blocks that a stack disposes of.
abbrev pub Disposes : ℕ → List Cleanup → Type 0
Disposes i [] = ⊥
Disposes i (disposal anop ∷ cs) = Disposes i cs
Disposes i (disposal (dispose_of j) ∷ cs) = (i ≡ j) ⊎ Disposes i cs
Disposes i (stopping id ∷ cs) = Disposes i cs

module _ {S F : Type 0} (cf : Crazyflie S F) (rates : Rates F) where
  HasNoId : ℕ → Log S → Type 0
  HasNoId i s = (s.blocks i).id ≡ none

  HasNoId-OtherDevice : (i : ℕ) → OtherDevice (HasNoId i)
  unfolding HasNoId
  HasNoId-OtherDevice i s t h = h

  put-HasNoId :
      (i j : ℕ) (b : LogBlock) (s : Log S)
      → (i ≡ j → b.id ≡ none)
      → HasNoId i s
      → HasNoId i (put_block j b s)
  unfolding HasNoId
  put-HasNoId i j b s h k = elim (ℕ_discrete i j) [
    | yes e ↦
        subst (λ x. ((put_block j b s).blocks x).id ≡ none) (sym e)
          (ap (λ c. c.id) (put_block_here j b s) ∙ h e)
    | no n ↦ ap (λ c. c.id) (put_block_other j i b s n) ∙ k
  ]

  disposed-HasNoId : (i : ℕ) (s : Log S) → HasNoId i (dispose cf i s).1
  unfolding HasNoId
  disposed-HasNoId i s =
      dispose_gives cf (HasNoId i) (HasNoId-OtherDevice i) i s
        (ap (λ b. b.id) (put_block_here i _ s)) (λ t h. ap (λ b. b.id) (put_block_here i _ t) ∙ h)

  dispose-HasNoId : (i j : ℕ) → Preserves (HasNoId i) (dispose cf j)
  unfolding HasNoId
  dispose-HasNoId i j s h =
      dispose_gives cf (HasNoId i) (HasNoId-OtherDevice i) j s (put-HasNoId i j _ s (λ e. refl) h)
        (λ t k. put-HasNoId i j _ t (λ e. subst (λ x. (t.blocks x).id ≡ none) e k) k)

  cleanup-HasNoId : (i : ℕ) (c : Cleanup) → Preserves (HasNoId i) (run_cleanup cf rates c)
  unfolding run_cleanup run_disposer
  cleanup-HasNoId i (disposal anop) s h = h
  cleanup-HasNoId i (disposal (dispose_of j)) s h = dispose-HasNoId i j s h
  cleanup-HasNoId i (stopping id) s h = stop-Preserves cf (HasNoId i) (HasNoId-OtherDevice i) id s h

  unwind-Preserves : (i : ℕ) (cs : List Cleanup) → Preserves (HasNoId i) (unwind cf rates cs)
  unfolding unwind
  unwind-Preserves i [] s h = h
  unwind-Preserves i (c ∷ cs) s h =
      finally-Preserves (HasNoId i) (run_cleanup cf rates c) (unwind cf rates cs)
        (cleanup-HasNoId i c) (unwind-Preserves i cs) s h

  unwind-HasNoId :
      (i : ℕ) (cs : List Cleanup) (s : Log S) → Disposes i cs → HasNoId i (unwind cf rates cs s).1
  unfolding unwind
  unwind-HasNoId i [] s d = elim d [ ]
  unwind-HasNoId i (disposal anop ∷ cs) s d = unwind-HasNoId i cs _ d
  unwind-HasNoId i (disposal (dispose_of j) ∷ cs) s (inl e) = unwind-Preserves i cs _ (
      subst (λ x. HasNoId x (run_cleanup cf rates (disposal (dispose_of j)) s).1) (sym e)
        (disposed-HasNoId j s))
  unwind-HasNoId i (disposal (dispose_of j) ∷ cs) s (inr d) = unwind-HasNoId i cs _ d
  unwind-HasNoId i (stopping id ∷ cs) s d = unwind-HasNoId i cs _ d

  -- Leaving a session that was entered, in any way and also when commands fail: the session has no stack and
  -- no numbers any more, and no block that was on its stack has a number.
  pub aexit-clears :
      (s : Session S) (cs : List Cleanup)
      → s.session.stack ≡ some cs
      → let t = (aexit cf rates s).1 in
        (t.session.stack ≡ none)
        × (t.session.id_mapping ≡ none)
        × ((i : ℕ) → Disposes i cs → (t.log.blocks i).id ≡ none)
  unfolding aexit leave_stack HasNoId
  aexit-clears s cs e = (refl, refl, λ i d. rw (e, leave_stack) (unwind-HasNoId i cs s.log d))
