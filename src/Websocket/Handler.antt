-- ===== src/Websocket/Handler.antt =====
-- websocket/handler.rs: a socket is authenticated, then serves requests and passes on what is sent
-- to its user until it ends. The socket is the list of what it yields, with what other tasks do in
-- between.
pub mod Messages
pub mod Sessions
pub mod Authentication
pub mod Panics
pub mod Endings
pub mod Transfers
pub mod AfterLogin
pub mod Samples
mod Tests
use zenth_dht.Prelude.{
  ℕ, ◌&&◌, ◌++◌, Bool, true, false, List, [], ◌∷◌, Option, none, some, Bytes, bytes_eq, find, take,
  drop, length, ltb, leb, if◌then◌else◌,
}
use zenth_dht.Models.{Db, Session, NaiveDateTime}
use zenth_dht.Server.{
  DbResult, ok, not_found, err, Exit, returned, panicked, Env, Readings, World, statement,
}
use zenth_dht.Websocket.ConnectionManager.{register, unregister}
use zenth_dht.Websocket.FileRelay.{unregister_by_sender}
use zenth_dht.Method.Users.{first_row}
use zenth_dht.Decompose.Codecs.{Packages}
use zenth_dht.Websocket.Handler.Messages.{WsPackages, manager_of, process_ws_request}

abbrev pub user_hash_size : ℕ
user_hash_size = 32

-- What `timeout(10 s, receiver.next())` gives: a binary frame, or anything else.
pub data FirstFrame : Type 0 where
  binary_first : Bytes → FirstFrame
  no_binary : FirstFrame

abbrev pub is_session : Bytes → Bytes → Session → Bool
is_session token hash s = bytes_eq s.session_token token && bytes_eq s.user_hash_id hash

unfoldable pub find_session : Bytes → Bytes → Db → Option Session
find_session token hash db = find (is_session token hash) db.sessions

abbrev pub select_session : Bytes → Bytes → Db → DbResult Session × Db
select_session token hash db = (first_row (find_session token hash db), db)

abbrev pub is_open : NaiveDateTime → DbResult Session → Bool
is_open now (ok session) = ltb now session.session_expiry
is_open now not_found = false
is_open now (err e) = false

-- What the loop of a socket wakes up for; `sent` is whether the frame in reply goes out. `unserved` is
-- a request that panics since the pool has no connection for it, with what was done until then.
pub data Event : Type 0 where
  binary : Readings → ℕ → Bytes → Bool → Event
  ping : Bytes → Bool → Event
  close : Event
  other_frame : Event
  received : Bytes → Bool → Event
  lagged : Event
  closed : Event
  elsewhere : (World → World) → Event
  unserved : (World → World) → Event

pub data Frame : Type 0 where
  binary_frame : Bytes → Frame
  pong_frame : Bytes → Frame

-- How the loop of a socket ends: by a `break`, or by a panic, which ends the socket's task.
pub data Ending : Type 0 where
  ended : Ending
  unwound : Ending

abbrev pub then_sends : Frame → List Frame × Ending × World → List Frame × Ending × World
then_sends f (fs, e, w) = (f ∷ fs, e, w)

-- The frame in reply, and what the rest of the loop sends if the frame goes out.
abbrev pub sends_reply :
    Exit Bytes → Bool → List Frame × Ending × World → World → List Frame × Ending × World
sends_reply panicked sent rest w = ([], unwound, w)
sends_reply (returned response) sent rest w =
    if sent then then_sends (binary_frame response) rest else ([], ended, w)

-- `connection_manager.unregister(&user_hash)`
unfoldable pub leave_manager : Bytes → World → World
leave_manager user_hash w = record w { manager = some (unregister user_hash (manager_of w)) }

-- `unregister_by_sender(&user_hash)`
unfoldable pub leave_registry : Bytes → World → World
leave_registry user_hash w = record w { registry = unregister_by_sender user_hash w.registry }

-- The end of a session: its two calls, with what other tasks do in between. A panic skips them.
unfoldable pub leave : Bytes → (World → World) → Ending → World → World
leave user_hash meanwhile ended w = leave_registry user_hash (meanwhile (leave_manager user_hash w))
leave user_hash meanwhile unwound w = w

-- `connection_manager.register(user_hash)`
unfoldable pub join : Bytes → World → World
join user_hash w = record w { manager = some (register user_hash (manager_of w)).1 }

module _ (env : Env) where
  unfoldable pub verify_session_token : Readings → Bytes → Bytes → World → Bool × World
  verify_session_token at session_token user_hash w =
      let (row, w') = statement env (select_session session_token user_hash) w in
      (is_open at.utc row, w')

  unfoldable pub authenticate : Readings → FirstFrame → World → Option Bytes × World
  authenticate at no_binary w = (none, w)
  authenticate at (binary_first frame) w =
      if leb (length frame) user_hash_size
      then (none, w)
      else (let (verified, w') =
            verify_session_token at (drop user_hash_size frame) (take user_hash_size frame) w in
          (if verified then some (take user_hash_size frame) else none, w'))

  module _ (packages : Packages) (ws : WsPackages) (user_hash : Bytes) where
    -- The loop ends with the list, as with the stream.
    unfoldable pub serve_socket : List Event → World → List Frame × Ending × World
    serve_socket [] w = ([], ended, w)
    serve_socket (binary at answered_at frame sent ∷ events) w =
        let (response, w') = process_ws_request env packages ws at answered_at user_hash frame w in
        let rest = serve_socket events w' in sends_reply response sent rest w'
    serve_socket (ping bytes sent ∷ events) w =
        let rest = then_sends (pong_frame bytes) (serve_socket events w) in
        if sent then rest else ([], ended, w)
    serve_socket (close ∷ events) w = ([], ended, w)
    serve_socket (other_frame ∷ events) w = serve_socket events w
    serve_socket (received payload sent ∷ events) w =
        let rest = then_sends (binary_frame payload) (serve_socket events w) in
        if sent then rest else ([], ended, w)
    serve_socket (lagged ∷ events) w = serve_socket events w
    serve_socket (closed ∷ events) w = ([], ended, w)
    serve_socket (elsewhere f ∷ events) w = serve_socket events (f w)
    serve_socket (unserved f ∷ events) w = ([], unwound, f w)

  module _ (packages : Packages) (ws : WsPackages) (meanwhile : World → World) where
    -- The rest of the session, once the first frame has been judged.
    unfoldable pub serve_user : Option Bytes → List Event → World → List Frame × World
    serve_user none events w = ([], w)
    serve_user (some user_hash) events w =
        let (frames, ending, w') = serve_socket packages ws user_hash events (join user_hash w) in
        (frames, leave user_hash meanwhile ending w')

    unfoldable pub handle_websocket :
        Readings → FirstFrame → List Event → World → List Frame × World
    handle_websocket at first events w =
        let (user_hash, w') = authenticate at first w in serve_user user_hash events w'
