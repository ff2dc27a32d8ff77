-- ===== src/Crtp/Dispatcher/Disposal.antt =====
-- What disposing of a registration does to the handlers that a packet reaches.
use mathlib.Core.List.{Perm}
use mathlib.Core.List.Perm
use aiocflib.Prelude.{
  ℕ, ◌≡◌, refl, ap, Bool, true, false, List, [], ◌∷◌, ◌++◌, Option, none, some, ok, Bool-cases, inl,
  inr, subst,
}
use aiocflib.Crtp.Port.{CrtpPort}
use aiocflib.Crtp.Dispatcher.{
  Table, same_key, put, Dispatcher, Disposer, register, dispose, append_handler,
}
use aiocflib.Crtp.Dispatcher.Tables.{targets, remove-append, same_key→eq, ==-refl, register-ok}

-- Two writes under one key: only the last one shows.
put-put :
    (table : Table) (key : Option ℕ) (xs ys : List ℕ) (q : Option ℕ)
    → Perm ys (table key)
    → Perm (put (put table key xs) key ys q) (table q)
unfolding put
put-put table key xs ys q p = elim (Bool-cases (same_key key q)) [
  | inl c ↦ rw c (subst (λ k. Perm ys (table k)) (same_key→eq key q c) p)
  | inr c ↦ rw c (Perm.refl _)
]

targets_perm :
    (d e : Dispatcher) (p : CrtpPort)
    → ((q : Option ℕ) → Perm (d.by_port_sync q) (e.by_port_sync q))
    → ((q : Option ℕ) → Perm (d.by_port_async q) (e.by_port_async q))
    → Perm (targets d p) (targets e p)
unfolding targets
targets_perm d e p f g = Perm.append (Perm.append (Perm.append (f _) (g _)) (f none)) (g none)

same_key_refl : (k : Option ℕ) → same_key k k ≡ true
same_key_refl none = refl
same_key_refl (some n) = ==-refl n

dispose-append_handler :
    (h : ℕ) (is_async : Bool) (key : Option ℕ) (d : Dispatcher) (p : CrtpPort)
    → (f : Dispatcher) × (dispose
          (record { is_async = is_async; key = key; handler = h })
          (append_handler is_async key h d)
        ≡ ok f)
      × Perm (targets f p) (targets d p)
unfolding dispose append_handler put
dispose-append_handler h true key d p =
    let (ys, e, r) = remove-append h (d.by_port_async key) in
    let table = put d.by_port_async key (d.by_port_async key ++ h ∷ []) in
    (
      record d { by_port_async = put table key ys },
      rw (same_key_refl key, e),
      targets_perm (record d { by_port_async = put table key ys }) d p (λ q. Perm.refl _)
          (λ q. put-put d.by_port_async key _ ys q r),
    )
dispose-append_handler h false key d p =
    let (ys, e, r) = remove-append h (d.by_port_sync key) in
    let table = put d.by_port_sync key (d.by_port_sync key ++ h ∷ []) in
    (
      record d { by_port_sync = put table key ys },
      rw (same_key_refl key, e),
      targets_perm (record d { by_port_sync = put table key ys }) d p
          (λ q. put-put d.by_port_sync key _ ys q r) (λ q. Perm.refl _),
    )

-- The disposer that a registration returns does not raise on the dispatcher that it returns, and takes the
-- registration back: every packet reaches the handlers that it reached before, as often as before.
pub dispose-register :
    (h : ℕ) (is_async : Bool) (key : Option ℕ) (d e : Dispatcher) (r : Disposer) (p : CrtpPort)
    → register h is_async key d ≡ ok (e, r)
    → (f : Dispatcher) × (dispose r e ≡ ok f) × Perm (targets f p) (targets d p)
dispose-register h is_async key d e r p q =
    let both = register-ok h is_async key d q in
    let same : e ≡ append_handler is_async key h d = ap (λ x. x.0) both in
    let token : r ≡ record { is_async = is_async; key = key; handler = h } = ap (λ x. x.1) both in
    rw (same, token) (dispose-append_handler h is_async key d p)
