-- ===== src/System/Start.antt =====
-- main.rs and migrations/: the state in which the server starts, and what holds of every state after
-- it. The environment, the servers and the pool are left out.
use zenth_dht.Prelude.{none, [], ◌∷◌}
use zenth_dht.Models.{Db}
use zenth_dht.RateLimit.{Limiters, init_limiters}
use zenth_dht.Websocket.ConnectionManager.{new, init_global}
use zenth_dht.Websocket.FileRelay.{init}
use zenth_dht.Server.{Env, World}
use zenth_dht.Decompose.Codecs.{Packages}
use zenth_dht.Decompose.Tables.{
  Table, users, auth_challenges, sessions, friend_requests, friend_responses, one_time_prekeys,
  messages, relay_messages, sync_blobs, app_config,
}
use zenth_dht.System.{Reach}
use zenth_dht.System.Keys.{KeysOf}
use zenth_dht.System.Keys.Requests.{Reach-KeysOf}
use zenth_dht.System.Ownership.Methods.{OwnedIn}
use zenth_dht.System.Ownership.Steps.{Reach-OwnedIn}
use zenth_dht.Websocket.Handler.Messages.{WsPackages}

-- The database that the migrations create, with the version that the last one requires.
abbrev pub migrated : Db
migrated = record {
  users = [];
  auth_challenges = [];
  sessions = [];
  friend_requests = [];
  next_friend_request = 1;
  friend_responses = [];
  next_friend_response = 1;
  one_time_prekeys = [];
  next_prekey = 1;
  messages = [];
  next_message = 1;
  relay_messages = [];
  next_relay_message = 1;
  sync_blobs = [];
  app_config = record { key = "required_version"; value = "0.1.2" } ∷ [];
}

abbrev unset : Limiters
unset = record { relay_push = none; blob_push = none; mid_msg = none; large_msg = none }

unfoldable pub start : Db → World
start db = record {
  db = db;
  statements = 0;
  limiters = init_limiters unset;
  manager = init_global new none;
  registry = init;
}

migrated-KeysOf : (t : Table) → KeysOf t migrated
migrated-KeysOf users = tt
migrated-KeysOf auth_challenges = tt
migrated-KeysOf sessions = tt
migrated-KeysOf friend_requests = tt
migrated-KeysOf friend_responses = record { ascends = tt; below = tt }
migrated-KeysOf one_time_prekeys = tt
migrated-KeysOf messages = tt
migrated-KeysOf relay_messages = record { ascends = tt; below = tt }
migrated-KeysOf sync_blobs = tt
migrated-KeysOf app_config = tt

-- Whatever happens to a new server, its rows are owned and the keys of its tables are kept.
pub reached_from_start :
    (env : Env) (packages : Packages) (ws : WsPackages) (w : World)
    → Reach env packages ws (start migrated) w
    → OwnedIn w.db × ((t : Table) → KeysOf t w.db)
unfolding start
reached_from_start env packages ws w r = (
  Reach-OwnedIn env packages ws (start migrated) w (record { parties = tt; owners = tt }) r,
  λ t. Reach-KeysOf env packages ws t (start migrated) w (migrated-KeysOf t) r,
)
