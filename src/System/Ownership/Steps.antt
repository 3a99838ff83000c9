-- ===== src/System/Ownership/Steps.antt =====
-- main.rs: in every state that the server reaches, the rows are owned.
use zenth_dht.Prelude.{All-retain}
use zenth_dht.Models.{Db, NaiveDateTime}
use zenth_dht.Server.{Env, World}
use zenth_dht.Cleanup.{delete_expired_messages}
use zenth_dht.Cleanup.Keeps.{clean_round-Keeps}
use zenth_dht.Decompose.Codecs.{Packages}
use zenth_dht.System.{Reach}
use zenth_dht.System.Invariant.{reach_keeps}
use zenth_dht.System.Ownership.{HasParties}
use zenth_dht.System.Ownership.Methods.{OwnedIn}
use zenth_dht.System.Ownership.Requests.{process_request-OwnedIn}
use zenth_dht.Websocket.Handler.Messages.{WsPackages}

without_expired :
    (now : NaiveDateTime) (db : Db) → OwnedIn db → OwnedIn (delete_expired_messages now db).1
without_expired now db o = record {
  parties = All-retain (HasParties db.users) _ db.messages o.parties;
  owners = o.owners;
}

-- Whatever requests, sessions of sockets and rounds of the cleanup follow one another, and whichever
-- statements the database refuses: if every stored message is between two registered users and every
-- stored session is of a registered user, it stays so.
pub Reach-OwnedIn :
    (env : Env) (packages : Packages) (ws : WsPackages) (w w' : World)
    → OwnedIn w.db
    → Reach env packages ws w w'
    → OwnedIn w'.db
Reach-OwnedIn env packages ws w w' owned r =
    reach_keeps OwnedIn env packages
      (λ at answered_at req v o. process_request-OwnedIn env packages at v o answered_at req) ws
      (clean_round-Keeps OwnedIn without_expired (λ now db o. o) (λ now db o. o) env) w w' owned r
