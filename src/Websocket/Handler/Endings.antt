-- ===== src/Websocket/Handler/Endings.antt =====
-- websocket/handler.rs: what is left of a session when its socket has ended.
use zenth_dht.Prelude.{
  ℕ, ◌+◌, ◌≡◌, ◌≢◌, ◌⊎◌, refl, inl, inr, false, Bool-cases, Option-cases, List, [], Option, none,
  some, Bytes, bytes_eq_refl, bytes_eq_iff, length, leb, arith,
}
use zenth_dht.Server.{Env, Readings, World}
use zenth_dht.Websocket.ConnectionManager.{unregister, is_connected}
use zenth_dht.Websocket.FileRelay.{get_sender, unregister_by_sender}
use zenth_dht.Websocket.FileRelay.Views.{get_sender-unregister_by_sender, without_sender}
use zenth_dht.Decompose.Codecs.{Packages}
use zenth_dht.Websocket.Handler.{
  FirstFrame, binary_first, no_binary, user_hash_size, Event, Ending, ended, unwound, join,
  leave_manager, leave_registry, leave, authenticate, serve_socket, serve_user, handle_websocket,
}
use zenth_dht.Websocket.Handler.Panics.{Panics, serve_socket-Panics}
use zenth_dht.Websocket.Handler.Messages.{WsPackages, manager_of}
use zenth_dht.Websocket.Handler.Authentication.{Admits, authenticate_iff, verify_untouched}

-- What is left of the session of `u`, whose loop ended in `v`. After a break, the user is first
-- without a connection, and in the end without a transfer; after a panic, which `P` says, everything
-- is as it was.
pub data SessionEnds (P : Type 0) (u : Bytes) (meanwhile : World → World) (v : World) (w' : World)
    : Ending → Type 0 where
  orderly :
      (x : World)
      → x.db ≡ v.db
      → is_connected u (manager_of x) ≡ false
      → w' ≡ record (meanwhile x) { registry = unregister_by_sender u (meanwhile x).registry }
      → ((tid : Bytes) (read : ℕ) → get_sender tid read w'.registry ≢ some u)
      → SessionEnds P u meanwhile v w' ended
  aborted : P → w' ≡ v → SessionEnds P u meanwhile v w' unwound

without_itself : (u : Bytes) (o : Option Bytes) → without_sender u o ≢ some u
without_itself u none = λ h. cc
without_itself u (some s) = ground (arith, bytes_eq_iff s u)

leave_manager-disconnected :
    (u : Bytes) (w : World) → is_connected u (manager_of (leave_manager u w)) ≡ false
unfolding leave_manager is_connected unregister
leave_manager-disconnected u w = ground (arith, bytes_eq_refl u)

leave-SessionEnds :
    (P : Type 0) (u : Bytes) (meanwhile : World → World) (ending : Ending) (w : World)
    → (ending ≡ unwound → P)
    → SessionEnds P u meanwhile w (leave u meanwhile ending w) ending
unfolding leave leave_registry leave_manager
leave-SessionEnds P u meanwhile ended w says =
    orderly (leave_manager u w) refl (leave_manager-disconnected u w) refl λ tid read.
      rw (get_sender-unregister_by_sender u tid read (meanwhile (leave_manager u w)).registry)
        (without_itself u _)
leave-SessionEnds P u meanwhile unwound w says = aborted (says refl) refl

pub authenticate_untouched :
    (env : Env) (at : Readings) (first : FirstFrame) (w : World)
    → (n : ℕ) × ((authenticate env at first w).1 ≡ record w { statements = n })
unfolding authenticate
authenticate_untouched env at no_binary w = (w.statements, refl)
authenticate_untouched env at (binary_first frame) w =
    elim (Bool-cases (leb (length frame) user_hash_size)) [
      | inl short ↦ rw short (w.statements, refl)
      | inr long ↦ rw long (w.statements + 1, verify_untouched env at _ _ w)
    ]

-- A socket that is not admitted is sent nothing and changes nothing. Of a socket that is admitted as a
-- user, whatever it, the other tasks and the senders of messages did before: where its loop ends by a
-- break, the user is left first without a connection and, after what other tasks do until then,
-- without a transfer; where it ends by a panic, neither is done, and the server stays as the panic
-- left it. It ends by a panic only if one of its requests sends a message whose expiry is no date, or
-- finds the pool without a connection.
pub handle_websocket_outcome :
    (env : Env) (packages : Packages) (ws : WsPackages) (meanwhile : World → World) (at : Readings)
    (first : FirstFrame) (events : List Event) (w : World)
    → let (frames, w') = handle_websocket env packages ws meanwhile at first events w in
      ((frames ≡ []) × ((n : ℕ) × (w' ≡ record w { statements = n })))
      ⊎ ((u : Bytes) × Admits env at first w u
          × (let (_, ending, v) =
                serve_socket env packages ws u events (join u (authenticate env at first w).1) in
              SessionEnds (Panics env packages ws events) u meanwhile v w' ending))
unfolding handle_websocket serve_user
handle_websocket_outcome env packages ws meanwhile at first events w =
    elim (Option-cases (authenticate env at first w).0) [
      | inl refused ↦ rw (refused, serve_user) (inl (refl, authenticate_untouched env at first w))
      | inr (u, admitted) ↦
          rw (admitted, serve_user)
            (inr (
              u,
              (authenticate_iff env at first w u).0 admitted,
              leave-SessionEnds _ u meanwhile _ _ (
                  serve_socket-Panics env packages ws u events
                    (join u (authenticate env at first w).1)),
            ))
    ]
