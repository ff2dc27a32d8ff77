-- ===== src/Crazyflie/Log/Sessions/Entering.antt =====
-- What `__aenter__` of `LogSession` has set up when it returns.
use aiocflib.Prelude.{
  ℕ, ◌≡◌, ◌≢◌, ◌↔◌, refl, sym, ap, ◌∙◌, subst, true, false, List, [], ◌∷◌, Option, none, some, ok,
  err, All, lookup, insert, lookup-insert, lookup-insert_other, ==_iff, Option-cases, inl, inr,
  of_ok, of_some, ℕ_discrete, arith,
}
use aiocflib.Prelude.Exec.{continue-ok, Preserves, bind-Preserves}
use aiocflib.Crazyflie.Client.{Crazyflie}
use aiocflib.Crazyflie.Log.Periods.{Rates, milliseconds}
use aiocflib.Crazyflie.Log.Blocks.{Log, same_id, Disposer}
use aiocflib.Crazyflie.Log.Commands.{submit, start}
use aiocflib.Crazyflie.Log.Life.Device.{IsReady, OtherDevice, start-Preserves}
use aiocflib.Crazyflie.Log.Life.Submitting.{Submitted, submit-Submitted}
use aiocflib.Crazyflie.Log.Sessions.{
  Entry, Session, disposal, push, on_log, enter_submitted, enter_started, enter_all, aenter,
  runtime_error, enter_blocks,
}

same_id_iff : (a b : Option ℕ) → (same_id a b ≡ true) ↔ (a ≡ b)
same_id_iff none none = (λ h. refl, λ h. refl)
same_id_iff none (some b) = (λ h. absurd (ground arith), λ h. absurd (ground arith))
same_id_iff (some a) none = (λ h. absurd (ground arith), λ h. absurd (ground arith))
same_id_iff (some a) (some b) =
    (λ h. ap some ((==_iff a b).0 h), λ h. (==_iff a b).1 (of_some (λ x. a ≡ x) h refl))

abbrev pub Mapping : Type 0
Mapping = List (Option ℕ × Entry)

-- The numbers of a mapping are those of the blocks of their entries.
abbrev pub Numbers : {S : Type 0} → Mapping → Log S → Type 0
Numbers mapping s =
    (d : ℕ) (e : Entry) → lookup same_id (some d) mapping ≡ some e → (s.blocks e.block).id ≡ some d

-- The entry is in the mapping, under the number of its block.
abbrev pub Listed : {S : Type 0} → Mapping → Log S → Entry → Type 0
Listed mapping s e =
    (d : ℕ) × ((s.blocks e.block).id ≡ some d) × (lookup same_id (some d) mapping ≡ some e)

empty-Numbers : {S : Type 0} (s : Log S) → Numbers [] s
unfolding lookup
empty-Numbers s d e h = absurd (ground (arith, h))

module _ {S : Type 0} where
  -- After the block of one more entry has been submitted.
  module _ (new : Entry) (mapping : Mapping) (s t : Log S) (u : Submitted new.block s t)
      (r : IsReady s) where
    unfoldable extended : Mapping
    extended = insert same_id (some s.next_id) new mapping

    not_next : (j d : ℕ) → (s.blocks j).id ≡ some d → d ≢ s.next_id
    not_next j d h e = omega (arith, r.consistent.handed_out j d (r.consistent.enrolled j d h), e)

    still : (j d : ℕ) → (s.blocks j).id ≡ some d → (t.blocks j).id ≡ some d
    still j d h = elim (ℕ_discrete j new.block) [
      | yes e ↦ absurd (
          let k : (s.blocks new.block).disposer ≡ some d =
            subst (λ x. (s.blocks x).disposer ≡ some d) e (r.consistent.enrolled j d h) in
          let free = u.was_free in ground (arith, k, free))
      | no n ↦ ap (λ b. b.id) (u.others j n) ∙ h
    ]

    here : lookup same_id (some s.next_id) extended ≡ some new
    unfolding extended
    here = lookup-insert same_id same_id_iff (some s.next_id) new mapping

    elsewhere :
        (d : ℕ) → d ≢ s.next_id → lookup same_id (some d) extended ≡ lookup same_id (some d) mapping
    unfolding extended
    elsewhere d n =
        lookup-insert_other same_id same_id_iff (some s.next_id) (some d) new mapping
          (λ q. n (of_some (λ x. d ≡ x) (sym q) refl))

    extended-Numbers : Numbers mapping s → Numbers extended t
    extended-Numbers names d e h = elim (ℕ_discrete d s.next_id) [
      | yes q ↦
          let found = subst (λ x. lookup same_id (some x) extended ≡ some new) (sym q) here in
          of_some (λ x. (t.blocks x.block).id ≡ some d) (sym found ∙ h)
            (u.numbered ∙ ap some (sym q))
      | no n ↦ still e.block d (names d e (sym (elsewhere d n) ∙ h))
    ]

    extended-others : (e : Entry) → Listed mapping s e → Listed extended t e
    extended-others e (d, h, k) = (d, still e.block d h, elsewhere d (not_next e.block d h) ∙ k)

module _ {S : Type 0} where
  -- The mapping `m` is complete and correct for the entries.
  pub record IsEntered (es : List Entry) (m : Mapping) (l : Log S) : Type 0 where
    pub is_ready : IsReady l
    pub numbers : Numbers m l
    pub listed : All (Listed m l) es

  IsEntered-OtherDevice : (es : List Entry) (m : Mapping) → OtherDevice (IsEntered es m)
  IsEntered-OtherDevice es m s t h = record {
    is_ready = record { known = h.is_ready.known; consistent = h.is_ready.consistent };
    numbers = h.numbers;
    listed = h.listed;
  }

module _ {S F : Type 0} (cf : Crazyflie S F) (rates : Rates F) where
  -- What the submissions of some entries have made of a mapping.
  record Entered (es : List Entry) (mapping m : Mapping) (s t : Session S) : Type 0 where
    is_ready : IsReady t.log
    numbers : Numbers m t.log
    listed : All (Listed m t.log) es
    others : (e : Entry) → Listed mapping s.log e → Listed m t.log e

  unfoldable pushed : Entry → Session S → Disposer → Session S
  unfolding push on_log
  pushed e s d =
      (push cf rates (disposal d) (record s { log = (submit cf e.block false s.log).1 })).1

  after_first :
      (e : Entry) (es : List Entry) (mapping : Mapping) (s : Session S) (x : Disposer)
      → (submit cf e.block false s.log).0 ≡ ok x
      → let t = pushed e s x in
        enter_submitted cf rates (e ∷ es) mapping s
        ≡ enter_submitted cf rates es (insert same_id (t.log.blocks e.block).id e mapping) t
  unfolding enter_submitted on_log push pushed
  after_first e es mapping s x ok_x = rw ok_x refl

  enter_submitted-Entered :
      (es : List Entry) (mapping m : Mapping) (s : Session S)
      → IsReady s.log
      → Numbers mapping s.log
      → (enter_submitted cf rates es mapping s).0 ≡ ok m
      → Entered es mapping m s (enter_submitted cf rates es mapping s).1
  unfolding enter_submitted on_log push pushed extended
  enter_submitted-Entered [] mapping m s r names h =
      let same : ok mapping ≡ ok m = h in
      of_ok (λ x. Entered [] mapping x s s) same
        (record { is_ready = r; numbers = names; listed = tt; others = λ e k. k })
  enter_submitted-Entered (e ∷ es) mapping m s r names h =
      let (x, ok_x, rest) = continue-ok (submit cf e.block false s.log).0 _ _ h in
      let u = submit-Submitted cf e.block s.log x r ok_x in
      let more = extended e mapping s.log (pushed e s x).log u r in
      let step : enter_submitted cf rates (e ∷ es) mapping s
          ≡ enter_submitted cf rates es more (pushed e s x) =
        (after_first e es mapping s x ok_x
          ∙ ap (λ k. enter_submitted cf rates es (insert same_id k e mapping) (pushed e s x))
              u.numbered) in
      let returned : (enter_submitted cf rates es more (pushed e s x)).0 ≡ ok m =
        ap (λ o. o.0) (sym step) ∙ h in
      let after =
        enter_submitted-Entered es more m (pushed e s x) u.is_ready
          (extended-Numbers e mapping s.log (pushed e s x).log u r names) returned in
      subst (λ o. Entered (e ∷ es) mapping m s o.1) (sym step)
        (record {
          is_ready = after.is_ready;
          numbers = after.numbers;
          listed = (
            after.others e (s.log.next_id, u.numbered, here e mapping s.log (pushed e s x).log u r),
            after.listed,
          );
          others =
              λ e' k. after.others e' (extended-others e mapping s.log (pushed e s x).log u r e' k);
        })

  enter_started-Preserves :
      (P : Log S → Type 0)
      → OtherDevice P
      → (es : List Entry) → Preserves (λ (s : Session S). P s.log) (enter_started cf rates es)
  unfolding enter_started on_log push
  enter_started-Preserves P other [] s p = p
  enter_started-Preserves P other (e ∷ es) s p =
      bind-Preserves (λ (s : Session S). P s.log)
        (on_log cf rates (start cf rates e.block (milliseconds e.period_msec))) _
        (λ s p. start-Preserves cf P other rates e.block (milliseconds e.period_msec) s.log p)
        (λ id s p. enter_started-Preserves P other es _ p) s p

  enter_blocks-IsEntered :
      (s : Session S) (a : Unit {0})
      → IsReady s.log
      → (enter_blocks cf rates s).0 ≡ ok a
      → let t = (enter_blocks cf rates s).1 in
        (m : Mapping) × (t.session.id_mapping ≡ some m) × IsEntered s.session.entries m t.log
  unfolding enter_blocks
  enter_blocks-IsEntered s a r h =
      let es = s.session.entries in
      let (m, submitted, rest) = continue-ok (enter_submitted cf rates es [] s).0 _ _ h in
      let t = (enter_submitted cf rates es [] s).1 in
      let (b, started, last) =
        continue-ok (enter_started cf rates t.session.entries t).0 _ _ rest in
      let after = enter_submitted-Entered es [] m s r (empty-Numbers s.log) submitted in
      let kept =
        enter_started-Preserves (IsEntered es m) (IsEntered-OtherDevice es m) t.session.entries t
          (record { is_ready = after.is_ready; numbers = after.numbers; listed = after.listed }) in
      rw (submitted, started) (m, refl, kept)

  -- A session that does not remove the existing blocks, so that entering it does not reset the Log, is
  -- entered while the blocks of its Log are consistent (`IsReady`). When `__aenter__` has returned, each of
  -- its entries is found under the number of its block, and what is found under a number is an entry whose
  -- block has this number.
  pub aenter-IsEntered :
      (s : Session S) (a : Unit {0})
      → IsReady s.log
      → s.session.remove_existing ≡ false
      → (aenter cf rates s).0 ≡ ok a
      → let t = (aenter cf rates s).1 in
        (m : Mapping) × (t.session.id_mapping ≡ some m) × IsEntered s.session.entries m t.log
  unfolding aenter enter_all
  aenter-IsEntered s a r keep h = elim (Option-cases s.session.stack) [
    | inr (cs, e) ↦
        absurd (let raised : err runtime_error ≡ ok a = rw (e, aenter) at h in ground arith)
    | inl e ↦
        let start = record s {
          session = record s.session { stack = some []; remove_existing = false };
        } in
        let returned : (enter_blocks cf rates start).0 ≡ ok a = rw (e, keep, aenter) at h in
        rw (e, keep, aenter) (enter_blocks-IsEntered start a r returned)
  ]
