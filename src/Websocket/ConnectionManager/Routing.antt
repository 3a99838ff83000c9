-- ===== src/Websocket/ConnectionManager/Routing.antt =====
-- websocket/connection_manager.rs: who gets what is sent.
use zenth_dht.Prelude.{
  ℕ, ◌+◌, ◌<◌, ◌≡◌, ◌≢◌, Bool, some, List, [], ◌∷◌, Bytes, bytes_eq_iff, All, arith, Option-cases,
  Bool-cases, inl, inr, ◌∙◌, ap, sym, ◌⊎◌,
}
use mathlib.Core.Path.{subst₂}
use native.Mathlib.Nat.{lt_irrefl}
use zenth_dht.Websocket.ConnectionManager.{
  Sent, ConnectionManager, new, register, unregister, send_to_user,
}

-- What a client or a handler may ask of the manager.
pub data Op : Type 0 where
  registers unregisters : Bytes → Op
  sends : (ℕ → Bool) → Bytes → Bytes → Op

abbrev pub step : ConnectionManager → Op → ConnectionManager
step m (registers u) = (register u m).1
step m (unregisters u) = unregister u m
step m (sends listening u payload) = (send_to_user listening u payload m).1

abbrev pub run : ConnectionManager → List Op → ConnectionManager
run m [] = m
run m (op ∷ ops) = run (step m op) ops

-- Channel `c` has been opened, is the channel of nobody but `u`, and carried messages to `u` only.
pub record BelongsTo (u : Bytes) (c : ℕ) (m : ConnectionManager) : Type 0 where
  pub open_before : c < m.opened
  pub only : (v : Bytes) → m.connections v ≡ some c → v ≡ u
  pub carried : All (λ s. s.channel ≡ c → s.message.recipient_hash ≡ u) m.log

-- Channels are numbered below `opened`, and each belongs to its user.
pub record IsRouted (m : ConnectionManager) : Type 0 where
  pub below : All (λ s. s.channel < m.opened) m.log
  pub owned : (u : Bytes) (c : ℕ) → m.connections u ≡ some c → BelongsTo u c m

step-BelongsTo :
    (u : Bytes) (c : ℕ) (m : ConnectionManager) (op : Op)
    → BelongsTo u c m
    → BelongsTo u c (step m op)
unfolding register unregister send_to_user
step-BelongsTo u c m (registers v) h = elim (Option-cases (m.connections v)) [
  | inl absent ↦
      rw (absent, step, register)
        (record {
          open_before = omega arith;
          only = λ w. ground (arith, h.only w);
          carried = h.carried;
        })
  | inr (s, e) ↦ rw (e, step, register) h
]
step-BelongsTo u c m (unregisters v) h = record {
  open_before = h.open_before;
  only = λ w. ground (arith, h.only w);
  carried = h.carried;
}
step-BelongsTo u c m (sends listening v p) h = elim (Option-cases (m.connections v)) [
  | inl absent ↦ rw (absent, step, send_to_user) h
  | inr (s, e) ↦ elim (Bool-cases (listening s)) [
    | inl heard ↦
        rw (e, step, send_to_user)
          (rw heard (record {
            open_before = h.open_before;
            only = h.only;
            carried = ((λ (same : s ≡ c). h.only v (e ∙ ap some same)), h.carried);
          }))
    | inr unheard ↦ rw (e, step, send_to_user) (rw unheard h)
  ]
]

run-BelongsTo :
    (u : Bytes) (c : ℕ) (m : ConnectionManager) (ops : List Op)
    → BelongsTo u c m
    → BelongsTo u c (run m ops)
run-BelongsTo u c m [] h = h
run-BelongsTo u c m (op ∷ ops) h = run-BelongsTo u c (step m op) ops (step-BelongsTo u c m op h)

-- A fresh channel has carried nothing.
unused :
    (u : Bytes) (c : ℕ) (log : List Sent)
    → All (λ s. s.channel < c) log
    → All (λ s. s.channel ≡ c → s.message.recipient_hash ≡ u) log
unused u c [] h = tt
unused u c (s ∷ log) h = (λ (e : s.channel ≡ c). absurd (omega arith), unused u c log h.1)

below_suc :
    (n : ℕ) (log : List Sent) → All (λ s. s.channel < n) log → All (λ s. s.channel < n + 1) log
below_suc n [] h = tt
below_suc n (s ∷ log) h = (omega arith, below_suc n log h.1)

-- The channel that `register` hands out belongs to its user.
pub register-BelongsTo :
    (u : Bytes) (m : ConnectionManager) → IsRouted m → BelongsTo u (register u m).0 (register u m).1
unfolding register
register-BelongsTo u m h = elim (Option-cases (m.connections u)) [
  | inl absent ↦
      rw (absent, register)
        (record {
          open_before = omega arith;
          only = λ w. ground (arith, bytes_eq_iff u w, taken w);
          carried = unused u m.opened m.log h.below;
        })
  | inr (s, e) ↦ rw (e, register) (h.owned u s e)
]
  where
    taken : (w : Bytes) → m.connections w ≢ some m.opened
    taken w e = absurd (lt_irrefl _ (h.owned w m.opened e).open_before)

register_entry :
    (u : Bytes) (m : ConnectionManager) (w : Bytes) (c : ℕ)
    → (register u m).1.connections w ≡ some c
    → (m.connections w ≡ some c) ⊎ ((u ≡ w) × ((register u m).0 ≡ c))
unfolding register
register_entry u m w c h = ground (arith, bytes_eq_iff u w)

register_below :
    (u : Bytes) (m : ConnectionManager)
    → IsRouted m
    → All (λ s. s.channel < (register u m).1.opened) (register u m).1.log
unfolding register
register_below u m h = elim (Option-cases (m.connections u)) [
  | inl absent ↦ rw (absent, register) (below_suc m.opened m.log h.below)
  | inr (s, e) ↦ rw (e, register) h.below
]

register-IsRouted : (u : Bytes) (m : ConnectionManager) → IsRouted m → IsRouted (register u m).1
register-IsRouted u m h = record {
  below = register_below u m h;
  owned = λ w c e. elim (register_entry u m w c e) [
    | inl old ↦ step-BelongsTo w c m (registers u) (h.owned w c old)
    | inr (same, fresh) ↦
        subst₂ (λ v d. BelongsTo v d (register u m).1) same fresh (register-BelongsTo u m h)
  ];
}

unregister-IsRouted : (u : Bytes) (m : ConnectionManager) → IsRouted m → IsRouted (unregister u m)
unfolding unregister
unregister-IsRouted u m h = record {
  below = h.below;
  owned = λ w c e. step-BelongsTo w c m (unregisters u) (h.owned w c (ground arith));
}

send_entry :
    (listening : ℕ → Bool) (u p : Bytes) (m : ConnectionManager) (w : Bytes)
    → (send_to_user listening u p m).1.connections w ≡ m.connections w
unfolding send_to_user
send_entry listening u p m w = ground arith

send_below :
    (listening : ℕ → Bool) (u p : Bytes) (m : ConnectionManager)
    → IsRouted m
    → All
        (λ s. s.channel < (send_to_user listening u p m).1.opened)
        (send_to_user listening u p m).1.log
unfolding send_to_user
send_below listening u p m h = elim (Option-cases (m.connections u)) [
  | inl absent ↦ rw (absent, send_to_user) h.below
  | inr (s, e) ↦ elim (Bool-cases (listening s)) [
    | inl heard ↦ rw (e, send_to_user) (rw heard ((h.owned u s e).open_before, h.below))
    | inr unheard ↦ rw (e, send_to_user) (rw unheard h.below)
  ]
]

send-IsRouted :
    (listening : ℕ → Bool) (u p : Bytes) (m : ConnectionManager)
    → IsRouted m
    → IsRouted (send_to_user listening u p m).1
send-IsRouted listening u p m h = record {
  below = send_below listening u p m h;
  owned = λ w c e.
      step-BelongsTo w c m (sends listening u p)
        (h.owned w c (sym (send_entry listening u p m w) ∙ e));
}

step-IsRouted : (m : ConnectionManager) (op : Op) → IsRouted m → IsRouted (step m op)
step-IsRouted m (registers u) h = register-IsRouted u m h
step-IsRouted m (unregisters u) h = unregister-IsRouted u m h
step-IsRouted m (sends listening u p) h = send-IsRouted listening u p m h

pub run-IsRouted : (m : ConnectionManager) (ops : List Op) → IsRouted m → IsRouted (run m ops)
run-IsRouted m [] h = h
run-IsRouted m (op ∷ ops) h = run-IsRouted (step m op) ops (step-IsRouted m op h)

pub new-IsRouted : IsRouted new
unfolding new
new-IsRouted = record { below = tt; owned = λ u c e. cc }

-- Whatever registrations, disconnections and messages came before and come after, the channel that
-- a user gets from `register` never carries a message to anybody else.
pub register_private :
    (u : Bytes) (before after : List Op)
    → let (c, m) = register u (run new before) in
      All (λ s. s.channel ≡ c → s.message.recipient_hash ≡ u) (run m after).log
register_private u before after =
    (run-BelongsTo u (register u (run new before)).0 (register u (run new before)).1 after
      (register-BelongsTo u (run new before) (run-IsRouted new before new-IsRouted))).carried
