-- ===== src/Websocket/ConnectionManager/Closing.antt =====
-- websocket/connection_manager.rs: what the end of one socket does to the other sockets of its user.
use zenth_dht.Prelude.{
  ℕ, ◌<◌, ◌≡◌, ◌≢◌, refl, false, some, List, [], ◌∷◌, Bytes, bytes_eq_iff, bytes_eq_refl, arith,
  retain, ◌==◌, Option-cases, inl, inr, ◌∙◌, ap, sym,
}
use mathlib.Core.Path.{subst}
use zenth_dht.Websocket.ConnectionManager.{
  Sent, ConnectionManager, new, register, unregister, send_to_user, is_connected,
}
use zenth_dht.Websocket.ConnectionManager.Routing.{
  Op, registers, unregisters, sends, step, run, BelongsTo, register-BelongsTo, run-IsRouted,
  new-IsRouted,
}

-- What was sent on channel `c`.
abbrev pub on_channel : ℕ → List Sent → List Sent
on_channel c = retain (λ s. s.channel == c)

-- Nobody holds channel `c` any more, and no new channel will have its number.
record IsClosed (c : ℕ) (m : ConnectionManager) : Type 0 where
  open_before : c < m.opened
  unheld : (v : Bytes) → m.connections v ≢ some c

step-IsClosed : (c : ℕ) (m : ConnectionManager) (op : Op) → IsClosed c m → IsClosed c (step m op)
unfolding register unregister send_to_user
step-IsClosed c m (registers v) h = elim (Option-cases (m.connections v)) [
  | inl absent ↦
      rw (absent, step, register)
        (record { open_before = omega arith; unheld = λ w. ground (arith, h.unheld w) })
  | inr (s, e) ↦ rw (e, step, register) h
]
step-IsClosed c m (unregisters v) h = record {
  open_before = h.open_before;
  unheld = λ w. ground (arith, h.unheld w);
}
step-IsClosed c m (sends listening v p) h = record {
  open_before = ground arith;
  unheld = λ w. ground (arith, h.unheld w);
}

step_silent :
    (c : ℕ) (m : ConnectionManager) (op : Op)
    → IsClosed c m
    → on_channel c (step m op).log ≡ on_channel c m.log
unfolding register unregister send_to_user
step_silent c m (registers v) h = ground arith
step_silent c m (unregisters v) h = refl
step_silent c m (sends listening v p) h = ground (arith, h.unheld v)

run_silent :
    (c : ℕ) (m : ConnectionManager) (ops : List Op)
    → IsClosed c m
    → on_channel c (run m ops).log ≡ on_channel c m.log
run_silent c m [] h = refl
run_silent c m (op ∷ ops) h =
    run_silent c (step m op) ops (step-IsClosed c m op h) ∙ step_silent c m op h

unregister-IsClosed :
    (u : Bytes) (c : ℕ) (m : ConnectionManager) → BelongsTo u c m → IsClosed c (unregister u m)
unfolding unregister
unregister-IsClosed u c m h = record {
  open_before = h.open_before;
  unheld = λ v. ground (arith, h.only v, bytes_eq_iff u v);
}

register_twice :
    (u : Bytes) (m : ConnectionManager)
    → register u (register u m).1 ≡ ((register u m).0, (register u m).1)
unfolding register
register_twice u m = ground (arith, bytes_eq_refl u)

-- A second socket of a user gets the channel of the first. When either of the two unregisters, the
-- user counts as not connected, and the channel that the other socket still reads carries nothing
-- more, whatever follows, a new registration of the user included.
pub unregister_ends_both :
    (u : Bytes) (before after : List Op)
    → let (c, m) = register u (run new before) in
      ((register u m).0 ≡ c)
      × (is_connected u (unregister u (register u m).1) ≡ false)
      × (on_channel c (run (unregister u (register u m).1) after).log ≡ on_channel c m.log)
unfolding is_connected unregister
unregister_ends_both u before after =
    let r = register u (run new before) in
    (
      ap (λ (x : ℕ × ConnectionManager). x.0) (register_twice u (run new before)),
      ground (arith, bytes_eq_refl u),
      run_silent r.0 (unregister u (register u r.1).1) after
            (unregister-IsClosed u r.0 (register u r.1).1 belongs)
          ∙ ap (λ (x : ℕ × ConnectionManager). on_channel r.0 x.1.log)
              (register_twice u (run new before)),
    )
  where
    belongs :
        BelongsTo u (register u (run new before)).0 (register u (register u (run new before)).1).1
    belongs =
        subst (λ x. BelongsTo u (register u (run new before)).0 x.1)
          (sym (register_twice u (run new before)))
          (register-BelongsTo u (run new before) (run-IsRouted new before new-IsRouted))
