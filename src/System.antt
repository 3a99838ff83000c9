-- ===== src/System.antt =====
-- main.rs: the server as a whole. A step is one request of HTTP or of a socket, the beginning of a
-- socket's session, one of the two calls at its end, or a round of the cleanup; steps
-- follow one another in any order.
pub mod Invariant
pub mod Ownership
pub mod Keys
pub mod Start
mod Tests
use zenth_dht.Prelude.{◌≡◌, ℕ, Bool, Bytes}
use zenth_dht.Server.{Env, Readings, World}
use zenth_dht.Cleanup.{clean_round}
use zenth_dht.Decompose.{handle_post}
use zenth_dht.Decompose.Codecs.{Packages}
use zenth_dht.Websocket.Handler.{FirstFrame, authenticate, join, leave_manager, leave_registry}
use zenth_dht.Websocket.Handler.Messages.{WsPackages, process_ws_request}

module _ (env : Env) (packages : Packages) (ws : WsPackages) where
  pub data Step (w w' : World) : Type 0 where
    posted :
        (at : Readings) (answered_at : ℕ) (body : Bytes)
        → w' ≡ (handle_post env packages at answered_at body w).1
        → Step w w'
    spoken :
        (at : Readings) (answered_at : ℕ) (user_hash frame : Bytes)
        → w' ≡ (process_ws_request env packages ws at answered_at user_hash frame w).1
        → Step w w'
    judged : (at : Readings) (first : FirstFrame) → w' ≡ (authenticate env at first w).1 → Step w w'
    joined : (user_hash : Bytes) → w' ≡ join user_hash w → Step w w'
    left : (user_hash : Bytes) → w' ≡ leave_manager user_hash w → Step w w'
    forgotten : (user_hash : Bytes) → w' ≡ leave_registry user_hash w → Step w w'
    cleaned :
        (at : Readings) (tick : ℕ) (connected : Bool)
        → w' ≡ (clean_round env at tick connected w).1
        → Step w w'

  pub data Reach (w : World) : World → Type 0 where
    here : Reach w w
    then : {v v' : World} → Reach w v → Step v v' → Reach w v'
