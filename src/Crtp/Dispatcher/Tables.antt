-- ===== src/Crtp/Dispatcher/Tables.antt =====
-- Which handlers a packet reaches, in terms of what was registered and disposed of.
use mathlib.Core.List.{Perm, perm_append_singleton, perm_middle}
use mathlib.Core.List.Perm
use aiocflib.Prelude.{
  ℕ, ◌≡◌, refl, sym, ap, Bool, true, false, List, [], ◌∷◌, ◌++◌, Option, none, some, Result, ok,
  err, bind-eq-ok, of_ok, ◌==◌, ==_iff, if◌then◌else◌, Bool-cases, inl, inr, subst, arith, Error,
}
use aiocflib.Prelude.Exec.{Exec, ◌>>◌, continue}
use aiocflib.Crtp.Port.{CrtpPort, to_port, port_value, port_value-to_port}
use aiocflib.Crtp.Packet.{CrtpPacket, port}
use aiocflib.Crtp.Dispatcher.{
  same_key, Dispatcher, Disposer, register, remove, run_all, dispatch, append_handler, port_key,
}

-- The handlers that a packet with the port `p` reaches, in their order.
unfoldable pub targets : Dispatcher → CrtpPort → List ℕ
targets d p =
    ((d.by_port_sync (some (port_value p)) ++ d.by_port_async (some (port_value p)))
      ++ d.by_port_sync none)
    ++ d.by_port_async none

-- The calls of handlers one after the other, from a state to what the calls give: each is called once, in
-- the order of the list, in the state that the one before it left. One that raises is the last.
pub data Calls {S : Type 0} (call : ℕ → CrtpPacket → Exec S (Unit {0})) (packet : CrtpPacket)
    : List ℕ → S → Result (Unit {0}) × S → Type 0 where
  finished : {s : S} → Calls call packet [] s (ok tt, s)
  returned :
      {h : ℕ} {hs : List ℕ} {s t : S} {end : Result (Unit {0}) × S}
      → call h packet s ≡ (ok tt, t)
      → Calls call packet hs t end
      → Calls call packet (h ∷ hs) s end
  raised :
      {h : ℕ} {hs : List ℕ} {s t : S} {e : Error}
      → call h packet s ≡ (err e, t)
      → Calls call packet (h ∷ hs) s (err e, t)

module _ {S : Type 0} (call : ℕ → CrtpPacket → Exec S (Unit {0})) where
  continue_run :
      (r : Result (Unit {0})) (hs gs : List ℕ) (p : CrtpPacket) (s : S)
      → ((t : S) → run_all call (hs ++ gs) p t ≡ (run_all call hs p >> run_all call gs p) t)
      → continue r (λ _. run_all call (hs ++ gs) p) s
        ≡ continue
            (continue r (λ _. run_all call hs p) s).0
            (λ _. run_all call gs p)
            (continue r (λ _. run_all call hs p) s).1
  continue_run (ok a) hs gs p s ih = ih s
  continue_run (err e) hs gs p s ih = refl

  run_all-append :
      (hs gs : List ℕ) (p : CrtpPacket) (s : S)
      → run_all call (hs ++ gs) p s ≡ (run_all call hs p >> run_all call gs p) s
  unfolding run_all
  run_all-append [] gs p s = refl
  run_all-append (h ∷ hs) gs p s =
      continue_run (call h p s).0 hs gs p (call h p s).1 (run_all-append hs gs p)

  dispatch-run_all :
      (d : Dispatcher) (packet : CrtpPacket) (p : CrtpPort) (s : S)
      → port packet ≡ ok p
      → dispatch call d packet s ≡ run_all call (targets d p) packet s
  unfolding dispatch targets
  dispatch-run_all d packet p s e =
      let key : Option ℕ = some (port_value p) in
      let a = d.by_port_sync key in
      let b = d.by_port_async key in
      let c = d.by_port_sync none in
      rw (
        e,
        dispatch,
        run_all-append ((a ++ b) ++ c) (d.by_port_async none) packet s,
        run_all-append (a ++ b) c packet s,
        run_all-append a b packet s,
      )

  first_call :
      (h : ℕ) (hs : List ℕ) (p : CrtpPacket) (s : S) (q : Result (Unit {0}) × S)
      → call h p s ≡ q
      → ((t : S) → Calls call p hs t (run_all call hs p t))
      → Calls call p (h ∷ hs) s (continue q.0 (λ _. run_all call hs p) q.1)
  first_call h hs p s (ok a, t) e k = returned e (k t)
  first_call h hs p s (err x, t) e k = raised e

  run_all-Calls : (hs : List ℕ) (p : CrtpPacket) (s : S) → Calls call p hs s (run_all call hs p s)
  unfolding run_all
  run_all-Calls [] p s = finished
  run_all-Calls (h ∷ hs) p s = first_call h hs p s (call h p s) refl (run_all-Calls hs p)

  -- Dispatching a packet whose port is known calls the handlers of this port and then those for all
  -- packets, synchronous ones first, in the order of the lists and each once for each time
  -- that it is registered. A handler that raises is the last that is called, and its error is raised.
  pub dispatch-Calls :
      (d : Dispatcher) (packet : CrtpPacket) (p : CrtpPort) (s : S)
      → port packet ≡ ok p
      → Calls call packet (targets d p) s (dispatch call d packet s)
  dispatch-Calls d packet p s e =
      rw (dispatch-run_all d packet p s e) (run_all-Calls (targets d p) packet s)

-- Whether a handler registered under the key is for packets with the port `p`.
abbrev pub concerns : Option ℕ → CrtpPort → Bool
concerns none p = true
concerns (some n) p = n == port_value p

-- A handler at the end of one of the four lists, moved to the front of all.
module _ (h : ℕ) (a b c e : List ℕ) where
  first_list : Perm ((((a ++ h ∷ []) ++ b) ++ c) ++ e) (h ∷ (((a ++ b) ++ c) ++ e))
  first_list =
      Perm.append
        (Perm.append (Perm.append (perm_append_singleton h a) (Perm.refl b)) (Perm.refl c))
        (Perm.refl e)

  second_list : Perm (((a ++ (b ++ h ∷ [])) ++ c) ++ e) (h ∷ (((a ++ b) ++ c) ++ e))
  second_list =
      Perm.append
        (Perm.append
          (Perm.trans (Perm.append (Perm.refl a) (perm_append_singleton h b)) (perm_middle a b))
          (Perm.refl c))
        (Perm.refl e)

  third_list : Perm (((a ++ b) ++ (c ++ h ∷ [])) ++ e) (h ∷ (((a ++ b) ++ c) ++ e))
  third_list =
      Perm.append
        (Perm.trans (Perm.append (Perm.refl (a ++ b)) (perm_append_singleton h c))
          (perm_middle (a ++ b) c))
        (Perm.refl e)

  fourth_list : Perm (((a ++ b) ++ c) ++ (e ++ h ∷ [])) (h ∷ (((a ++ b) ++ c) ++ e))
  fourth_list =
      Perm.trans (Perm.append (Perm.refl ((a ++ b) ++ c)) (perm_append_singleton h e))
        (perm_middle ((a ++ b) ++ c) e)

pub ==-refl : (n : ℕ) → (n == n) ≡ true
==-refl n = ground arith

module _ (h : ℕ) (d : Dispatcher) (p : CrtpPort) where
  open d use {by_port_sync, by_port_async}

  same_port :
      (is_async : Bool)
      → Perm (targets (append_handler is_async (some (port_value p)) h d) p) (h ∷ targets d p)
  unfolding targets append_handler
  same_port true = rw (==-refl (port_value p)) (
      second_list h (by_port_sync (some (port_value p))) (by_port_async (some (port_value p)))
        (by_port_sync none) (by_port_async none))
  same_port false = rw (==-refl (port_value p)) (
      first_list h (by_port_sync (some (port_value p))) (by_port_async (some (port_value p)))
        (by_port_sync none) (by_port_async none))

  targets-append_handler :
      (is_async : Bool) (key : Option ℕ)
      → concerns key p ≡ true
      → Perm (targets (append_handler is_async key h d) p) (h ∷ targets d p)
  unfolding targets append_handler
  targets-append_handler true none c =
      fourth_list h (by_port_sync (some (port_value p))) (by_port_async (some (port_value p)))
        (by_port_sync none) (by_port_async none)
  targets-append_handler false none c =
      third_list h (by_port_sync (some (port_value p))) (by_port_async (some (port_value p)))
        (by_port_sync none) (by_port_async none)
  targets-append_handler is_async (some n) c =
      subst (λ m. Perm (targets (append_handler is_async (some m) h d) p) (h ∷ targets d p))
        (sym ((==_iff n (port_value p)).0 c)) (same_port is_async)

  other_port :
      (is_async : Bool) (key : Option ℕ)
      → concerns key p ≡ false
      → targets (append_handler is_async key h d) p ≡ targets d p
  unfolding targets append_handler
  other_port is_async none c = absurd (ground arith)
  other_port true (some n) c = rw c
  other_port false (some n) c = rw c

port_key-ok : (key k : Option ℕ) → port_key key ≡ ok k → k ≡ key
port_key-ok none k e = ground arith
port_key-ok (some n) k e =
    let (p, f, g) = bind-eq-ok (to_port n) (λ q. ok (some (port_value q))) e in
    of_ok (λ m. m ≡ some n) g (ap some (port_value-to_port n p f))

pub register-ok :
    (h : ℕ) (is_async : Bool) (key : Option ℕ) (d : Dispatcher) {x : Dispatcher × Disposer}
    → register h is_async key d ≡ ok x
    → x ≡ (append_handler is_async key h d, record { is_async = is_async; key = key; handler = h })
unfolding register
register-ok h is_async key d {x} q =
    let (k, f, g) = bind-eq-ok (port_key key) _ q in
    of_ok
      (λ y.
        y
        ≡ (append_handler is_async key h d, record { is_async = is_async; key = key; handler = h }))
      g (rw (port_key-ok key k f))

-- After a registration for a port, or for all packets, a packet reaches the handler once more than before
-- if the registration concerns its port, and the same handlers as before otherwise.
pub targets-register :
    (h : ℕ) (is_async : Bool) (key : Option ℕ) (d e : Dispatcher) (r : Disposer) (p : CrtpPort)
    → register h is_async key d ≡ ok (e, r)
    → Perm (targets e p) (if concerns key p then h ∷ targets d p else targets d p)
targets-register h is_async key d e r p q =
    let same : e ≡ append_handler is_async key h d =
      ap (λ x. x.0) (register-ok h is_async key d q) in
    rw same (elim (Bool-cases (concerns key p)) [
      | inl c ↦ rw c (targets-append_handler h d p is_async key c)
      | inr c ↦ rw (c, other_port h d p is_async key c) (Perm.refl _)
    ])

pub remove-append :
    (h : ℕ) (xs : List ℕ) → (ys : List ℕ) × (remove h (xs ++ h ∷ []) ≡ ok ys) × Perm ys xs
unfolding remove
remove-append h [] = ([], rw (==-refl h), Perm.refl [])
remove-append h (x ∷ xs) =
    let (ys, e, p) = remove-append h xs in
    elim (Bool-cases (x == h)) [
      | inl c ↦
          let same : x ≡ h = (==_iff x h).0 c in
          (xs ++ h ∷ [], rw c, rw same (perm_append_singleton h xs))
      | inr c ↦ (x ∷ ys, rw (c, e), Perm.cons x p)
    ]

pub same_key→eq : (k q : Option ℕ) → same_key k q ≡ true → k ≡ q
same_key→eq none none e = refl
same_key→eq none (some b) e = absurd (ground arith)
same_key→eq (some a) none e = absurd (ground arith)
same_key→eq (some a) (some b) e = ap some ((==_iff a b).0 e)
