-- ===== src/Websocket/Handler/Panics.antt =====
-- websocket/handler.rs: which requests end the task of a socket by a panic.
use zenth_dht.Prelude.{ℕ, ◌≡◌, refl, ◌⊎◌, inl, inr, Bool, true, false, List, [], ◌∷◌, Bytes}
use zenth_dht.Server.{Exit, returned, panicked, map_exit, Env, Readings, World}
use zenth_dht.Decompose.{arms, match_arm, respond, process_request}
use zenth_dht.Decompose.Clear.{Clears, IsUnsendable, handled_clear}
use zenth_dht.Decompose.Codecs.{
  DhtRequest, DhtResponse, Handled, Decoded, parsed, malformed, Packages,
}
use zenth_dht.Websocket.Handler.{
  Event, binary, ping, close, other_frame, received, lagged, closed, elsewhere, unserved, Ending,
  unwound, Frame, sends_reply, serve_socket,
}
use zenth_dht.Websocket.Handler.Messages.{
  WsPackages, WsMethod, available, chunk_request, chunk, check_online, other_method, by_method,
  process_ws_request,
}

module _ (env : Env) (packages : Packages) (ws : WsPackages) where
  -- One of the events is a request that panics: it sends a message whose expiry is no date, or the
  -- pool has no connection for it.
  pub data Panics : List Event → Type 0 where
    unsendable :
        (at : Readings) (answered_at : ℕ) (frame : Bytes) (sent : Bool) (events : List Event)
        (req : DhtRequest)
        → packages.codecs.decode_request frame ≡ parsed req
        → IsUnsendable env packages at req
        → Panics (binary at answered_at frame sent ∷ events)
    unconnected : (f : World → World) (events : List Event) → Panics (unserved f ∷ events)
    later : (e : Event) (events : List Event) → Panics events → Panics (e ∷ events)

  module _ (at : Readings) (answered_at : ℕ) where
    process_request_panics :
        (req : DhtRequest) (w : World)
        → (process_request env packages at answered_at req w).0 ≡ panicked
        → IsUnsendable env packages at req
    unfolding process_request
    process_request_panics req w h =
        by_exit (match_arm req.method (arms env packages at) req.payload w).0
          (handled_clear env packages at req w) h
      where
        by_exit :
            (r : Exit Handled)
            → Clears env packages at req r
            → map_exit (respond env packages at answered_at req) r ≡ panicked
            → IsUnsendable env packages at req
        by_exit (returned x) clear e = cc
        by_exit panicked clear e = clear

    by_method_panics :
        (m : WsMethod) (req : DhtRequest) (user_hash : Bytes) (w : World)
        → (by_method env packages ws at answered_at m req user_hash w).0 ≡ panicked
        → IsUnsendable env packages at req
    unfolding by_method
    by_method_panics available req user_hash w h = cc
    by_method_panics chunk_request req user_hash w h = cc
    by_method_panics chunk req user_hash w h = cc
    by_method_panics check_online req user_hash w h = cc
    by_method_panics other_method req user_hash w h =
        by_exit (process_request env packages at answered_at req w).0 refl h
      where
        by_exit :
            (r : Exit DhtResponse)
            → (process_request env packages at answered_at req w).0 ≡ r
            → map_exit packages.codecs.encode_response r ≡ panicked
            → IsUnsendable env packages at req
        by_exit (returned x) same e = cc
        by_exit panicked same e = process_request_panics req w same

    request-Panics :
        (sent : Bool) (events : List Event) (user_hash frame : Bytes) (w : World)
        → (process_ws_request env packages ws at answered_at user_hash frame w).0 ≡ panicked
        → Panics (binary at answered_at frame sent ∷ events)
    unfolding process_ws_request
    request-Panics sent events user_hash frame w h =
        by_request (packages.codecs.decode_request frame) refl h
      where
        by_request :
            (d : Decoded DhtRequest)
            → packages.codecs.decode_request frame ≡ d
            → (process_ws_request env packages ws at answered_at user_hash frame w).0 ≡ panicked
            → Panics (binary at answered_at frame sent ∷ events)
        by_request (malformed e) bad = rw (bad, process_ws_request) λ q. cc
        by_request (parsed req) good =
            rw (good, process_ws_request)
              λ q.
                unsendable at answered_at frame sent events req good
                  (by_method_panics (ws.method_of req.method) req user_hash w q)

  reply_panics :
      (response : Exit Bytes) (sent : Bool) (rest : List Frame × Ending × World) (w : World)
      → (sends_reply response sent rest w).1 ≡ unwound
      → (response ≡ panicked) ⊎ (rest.1 ≡ unwound)
  reply_panics panicked sent rest w h = inl refl
  reply_panics (returned r) true rest w h = inr h
  reply_panics (returned r) false rest w h = cc

  -- The loop of a socket ends by a panic only if one of its requests panics.
  pub serve_socket-Panics :
      (user_hash : Bytes) (events : List Event) (w : World)
      → (serve_socket env packages ws user_hash events w).1 ≡ unwound
      → Panics events
  unfolding serve_socket
  serve_socket-Panics user_hash [] w h = cc
  serve_socket-Panics user_hash (binary at n frame sent ∷ events) w h =
      let answer = process_ws_request env packages ws at n user_hash frame w in
      elim (reply_panics answer.0 sent (serve_socket env packages ws user_hash events answer.1)
        answer.1 h) [
          | inl now ↦ request-Panics at n sent events user_hash frame w now
          | inr after ↦ later _ events (serve_socket-Panics user_hash events answer.1 after)
        ]
  serve_socket-Panics user_hash (ping bytes true ∷ events) w h =
      later _ events (serve_socket-Panics user_hash events w h)
  serve_socket-Panics user_hash (ping bytes false ∷ events) w h = cc
  serve_socket-Panics user_hash (close ∷ events) w h = cc
  serve_socket-Panics user_hash (other_frame ∷ events) w h =
      later _ events (serve_socket-Panics user_hash events w h)
  serve_socket-Panics user_hash (received payload true ∷ events) w h =
      later _ events (serve_socket-Panics user_hash events w h)
  serve_socket-Panics user_hash (received payload false ∷ events) w h = cc
  serve_socket-Panics user_hash (lagged ∷ events) w h =
      later _ events (serve_socket-Panics user_hash events w h)
  serve_socket-Panics user_hash (closed ∷ events) w h = cc
  serve_socket-Panics user_hash (elsewhere f ∷ events) w h =
      later _ events (serve_socket-Panics user_hash events (f w) h)
  serve_socket-Panics user_hash (unserved f ∷ events) w h = unconnected f events
