-- ===== src/Method/Keeps/Writers.antt =====
-- handlers/method/: what the handlers of friendships, messages, prekeys, mailboxes and blobs keep of
-- the database, if each statement that they send does.
use zenth_dht.Prelude.{ℕ, Bool, Bytes, ℤ, Option, none, some, List, arith}
use zenth_dht.Models.{Db, MessageModel, NaiveDateTime, OneTimePrekey, SyncBlob}
use zenth_dht.RateLimit.{Limiters}
use zenth_dht.Server.{Env, Readings}
use zenth_dht.Server.Keeps.{Keeps, Keeps-untouched, keeps_rules}
use zenth_dht.Method.Contact.{
  FriendRequest, update_request, insert_request, new_request, notify_friend_request, store_request,
  replace_request, put_request, contact,
}
use zenth_dht.Method.Respond.{
  FriendResponse, update_response, insert_response, new_response, notify_friend_response,
  store_response, replace_response, put_response, respond_friend_request,
}
use zenth_dht.Method.Message.{
  ZenthSignalEnvelope, MessageAck, Formats, insert_message, delete_message, ask, push_to_recipient,
  store_message, send_message, ack_message,
}
use zenth_dht.Method.Prekeys.{
  PreKeysRequest, PreKeyBundle, FetchPreKeyBundleRequest, upload_prekeys, replenish_prekeys,
  consume, hand_out, deliver, fetch_prekey_bundle,
}
use zenth_dht.Method.Prekeys.Table.{PreKey, insert_prekeys, update_used}
use zenth_dht.Method.SyncBlob.{
  SyncPushBlobRequest, SyncBlobRequest, blob_push_admitted, upsert_blob, delete_blobs, push_blob,
  delete_blob,
}
use zenth_dht.Method.Relay.{
  RelayPushRequest, RelayAckRequest, new_relay_message, insert_relay_message, relay_push_admitted,
  delete_acknowledged, push_relay, ack_relay,
}

module _ (I : Db → Type 0) (env : Env) where
  unchanged : (db : Db) → I db → I db
  unchanged db h = h

  module _ (encode : FriendRequest → Bytes) (at : Readings)
      (updated : (req : FriendRequest) (db : Db) → I db → I (update_request req db).1)
      (inserted : (req : FriendRequest) (db : Db)
        → I db
        → I (insert_request (new_request at req) db).1) where
    notify_friend_request-Keeps :
        (req : FriendRequest) → Keeps I (notify_friend_request env encode at req)
    unfolding notify_friend_request
    notify_friend_request-Keeps req = Keeps-untouched _ λ w. ground arith

    pub contact-Keeps : (req : FriendRequest) → Keeps I (contact env encode at req)
    unfolding contact put_request store_request replace_request
    contact-Keeps req = search (keeps_rules, unchanged, notify_friend_request-Keeps) depth 60

  module _ (encode : FriendResponse → Bytes) (at : Readings)
      (updated : (req : FriendResponse) (id : ℕ) (db : Db) → I db → I (update_response req id db).1)
      (inserted : (req : FriendResponse) (id : ℕ) (db : Db)
        → I db
        → I (insert_response (new_response at req id) db).1) where
    notify_friend_response-Keeps :
        (req : FriendResponse) → Keeps I (notify_friend_response env encode at req)
    unfolding notify_friend_response
    notify_friend_response-Keeps req = Keeps-untouched _ λ w. ground arith

    pub respond_friend_request-Keeps :
        (req : FriendResponse) → Keeps I (respond_friend_request env encode at req)
    unfolding respond_friend_request put_response store_response replace_response
    respond_friend_request-Keeps req =
        search (keeps_rules, unchanged, notify_friend_response-Keeps) depth 60

  ask-Keeps : (f : Limiters → Bool × Limiters) → Keeps I (ask f)
  unfolding ask
  ask-Keeps f = record { at = λ w h. h }

  module _ (at : Readings) (formats : Formats)
      (inserted : (row : ℕ → MessageModel) (db : Db) → I db → I (insert_message row db).1) where
    push_to_recipient-Keeps :
        (e : ZenthSignalEnvelope) → Keeps I (push_to_recipient env at formats e)
    unfolding push_to_recipient
    push_to_recipient-Keeps e = Keeps-untouched _ λ w. ground arith

    store_message-Keeps :
        (e : ZenthSignalEnvelope) (expiry : Option NaiveDateTime)
        → Keeps I (store_message env at formats e expiry)
    unfolding store_message
    store_message-Keeps e none = search keeps_rules
    store_message-Keeps e (some expiry) = search (keeps_rules, push_to_recipient-Keeps) depth 60

    pub send_message-Keeps : (e : ZenthSignalEnvelope) → Keeps I (send_message env at formats e)
    unfolding send_message
    send_message-Keeps e = search (keeps_rules, unchanged, ask-Keeps, store_message-Keeps) depth 60

  pub ack_message-Keeps :
      (at : Readings) (req : MessageAck)
      → ((id recipient : Bytes) (db : Db) → I db → I (delete_message id recipient db).1)
      → Keeps I (ack_message env at req)
  unfolding ack_message
  ack_message-Keeps at req deleted = search (keeps_rules, unchanged) depth 60

  module _ (decode_bundle : Bytes → Option PreKeyBundle) (at : Readings) where
    module _
        (inserted : (hash : Bytes) (now : NaiveDateTime) (pks : List PreKey) (db : Db)
          → I db
          → I (insert_prekeys hash now pks db).1) where
      pub upload_prekeys-Keeps :
          (req : PreKeysRequest) → Keeps I (upload_prekeys env decode_bundle at req)
      unfolding upload_prekeys
      upload_prekeys-Keeps req = search (keeps_rules, unchanged) depth 60

      pub replenish_prekeys-Keeps :
          (req : PreKeysRequest) → Keeps I (replenish_prekeys env decode_bundle at req)
      unfolding replenish_prekeys
      replenish_prekeys-Keeps req = search (keeps_rules, unchanged) depth 60

    module _ (used : (id : ℕ) (db : Db) → I db → I (update_used id db).1) where
      consume-Keeps :
          (b : PreKeyBundle) (o : Option OneTimePrekey) → Keeps I (consume env decode_bundle at b o)
      unfolding consume
      consume-Keeps b none = search keeps_rules
      consume-Keeps b (some k) = search keeps_rules depth 60

      deliver-Keeps :
          (hash : Bytes) (b : Option PreKeyBundle) → Keeps I (deliver env decode_bundle at hash b)
      unfolding deliver hand_out
      deliver-Keeps hash none = search keeps_rules
      deliver-Keeps hash (some b) = search (keeps_rules, unchanged, consume-Keeps) depth 60

      pub fetch_prekey_bundle-Keeps :
          (req : FetchPreKeyBundleRequest) → Keeps I (fetch_prekey_bundle env decode_bundle at req)
      unfolding fetch_prekey_bundle
      fetch_prekey_bundle-Keeps req = search (keeps_rules, unchanged, deliver-Keeps) depth 60

  blob_push_admitted-Keeps : (at : Readings) (key : Bytes) → Keeps I (blob_push_admitted at key)
  unfolding blob_push_admitted
  blob_push_admitted-Keeps at key = record { at = λ w h. h }

  pub push_blob-Keeps :
      (at : Readings) (req : SyncPushBlobRequest)
      → ((row : SyncBlob) (db : Db) → I db → I (upsert_blob row db).1)
      → Keeps I (push_blob env at req)
  unfolding push_blob
  push_blob-Keeps at req put = search (keeps_rules, blob_push_admitted-Keeps) depth 60

  pub delete_blob-Keeps :
      (at : Readings) (req : SyncBlobRequest)
      → ((device : Bytes) (db : Db) → I db → I (delete_blobs device db).1)
      → Keeps I (delete_blob env at req)
  unfolding delete_blob
  delete_blob-Keeps at req deleted = search keeps_rules depth 60

  relay_push_admitted-Keeps : (at : Readings) (key : Bytes) → Keeps I (relay_push_admitted at key)
  unfolding relay_push_admitted
  relay_push_admitted-Keeps at key = record { at = λ w h. h }

  pub push_relay-Keeps :
      (at : Readings) (req : RelayPushRequest)
      → ((db : Db) → I db → I (insert_relay_message (new_relay_message at req) db).1)
      → Keeps I (push_relay env at req)
  unfolding push_relay
  push_relay-Keeps at req inserted = search (keeps_rules, relay_push_admitted-Keeps) depth 60

  pub ack_relay-Keeps :
      (at : Readings) (req : RelayAckRequest)
      → ((device : Bytes) (up_to : ℤ) (db : Db) → I db → I (delete_acknowledged device up_to db).1)
      → Keeps I (ack_relay env at req)
  unfolding ack_relay
  ack_relay-Keeps at req deleted = search keeps_rules depth 60
