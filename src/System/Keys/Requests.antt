-- ===== src/System/Keys/Requests.antt =====
-- handlers/decompose.rs and main.rs: whatever is requested, the keys of the tables are kept.
use zenth_dht.Prelude.{ℕ, Bool, Distinct-retain}
use zenth_dht.Server.{Env, Readings, World}
use zenth_dht.Server.Keeps.{Keeps}
use zenth_dht.Cleanup.{clean_round}
use zenth_dht.Cleanup.Keeps.{clean_round-Keeps}
use zenth_dht.Decompose.{process_request}
use zenth_dht.Decompose.Codecs.{DhtRequest, Packages}
use zenth_dht.Decompose.Keeps.{process_request_keeps}
use zenth_dht.Decompose.Tables.{Table, messages, relay_messages, sync_blobs}
use zenth_dht.System.{Reach}
use zenth_dht.System.Invariant.{reach_keeps}
use zenth_dht.System.Keys.{same_message, same_device, IsSerial-retain, KeysOf}
use zenth_dht.System.Keys.Accounts.{
  register-KeysOf, login-KeysOf, delete_account-KeysOf, publish_recovery_key-KeysOf,
  recovery_claim-KeysOf,
}
use zenth_dht.System.Keys.Exchange.{
  contact-KeysOf, respond_friend_request-KeysOf, send_message-KeysOf, ack_message-KeysOf,
  upload_prekeys-KeysOf, replenish_prekeys-KeysOf, fetch_prekey_bundle-KeysOf, push_blob-KeysOf,
  delete_blob-KeysOf, push_relay-KeysOf, ack_relay-KeysOf,
}
use zenth_dht.Websocket.Handler.Messages.{WsPackages}

process_request-KeysOf :
    (env : Env) (packages : Packages) (t : Table) (at : Readings) (answered_at : ℕ)
    (req : DhtRequest) (w : World)
    → KeysOf t w.db
    → KeysOf t (process_request env packages at answered_at req w).1.db
process_request-KeysOf env packages t at answered_at req w =
    process_request_keeps (KeysOf t) env packages at answered_at req w (record {
      registers = λ e. register-KeysOf env at t;
      logs_in = λ e. login-KeysOf env at t;
      deletes = λ e. delete_account-KeysOf env at t;
      contacts = λ e. contact-KeysOf env at packages.encode_friend_request t;
      befriends = λ e. contact-KeysOf env at packages.encode_friend_request t;
      responds = λ e. respond_friend_request-KeysOf env at packages.encode_friend_response t;
      sends = λ e. send_message-KeysOf env at packages.formats t;
      uploads = λ e. upload_prekeys-KeysOf env at packages.decode_bundle t;
      delivers = λ e. fetch_prekey_bundle-KeysOf env at packages.decode_bundle t;
      replenishes = λ e. replenish_prekeys-KeysOf env at packages.decode_bundle t;
      puts_blob = λ e. push_blob-KeysOf env at t;
      deletes_blob = λ e. delete_blob-KeysOf env at t;
      relays = λ e. push_relay-KeysOf env at t;
      acks_relay = λ e. ack_relay-KeysOf env at t;
      acks_message = λ e. ack_message-KeysOf env at t;
      publishes = λ e. publish_recovery_key-KeysOf env at t;
      claims = λ e. recovery_claim-KeysOf env at t;
    })

clean_round-KeysOf :
    (t : Table) (env : Env) (at : Readings) (tick : ℕ) (connected : Bool)
    → Keeps (KeysOf t) (clean_round env at tick connected)
clean_round-KeysOf messages =
    clean_round-Keeps (KeysOf messages) (λ now db k. Distinct-retain same_message _ db.messages k)
      (λ now db k. k) (λ now db k. k)
clean_round-KeysOf relay_messages =
    clean_round-Keeps (KeysOf relay_messages) (λ now db k. k)
      (λ now db k. IsSerial-retain _ db.relay_messages db.next_relay_message k _) (λ now db k. k)
clean_round-KeysOf sync_blobs =
    clean_round-Keeps (KeysOf sync_blobs) (λ now db k. k) (λ now db k. k)
      (λ now db k. Distinct-retain same_device _ db.sync_blobs k)
clean_round-KeysOf t = clean_round-Keeps (KeysOf t) (λ now db k. k) (λ now db k. k) (λ now db k. k)

-- Whatever requests, sessions of sockets and rounds of the cleanup follow one another, and whichever
-- statements the database refuses, no two users come to have the same hash, no two challenges the same
-- id, no two sessions the same token, no two messages the same id, no two blobs the same device, no two
-- prekeys the same user and id, no two requests of friendship the same requester and target; and the
-- rows of responses and of mailboxes stay in the order of their serial numbers, below the next one.
pub Reach-KeysOf :
    (env : Env) (packages : Packages) (ws : WsPackages) (t : Table) (w w' : World)
    → KeysOf t w.db
    → Reach env packages ws w w'
    → KeysOf t w'.db
Reach-KeysOf env packages ws t w w' =
    reach_keeps (KeysOf t) env packages (process_request-KeysOf env packages t) ws
      (clean_round-KeysOf t env) w w'
