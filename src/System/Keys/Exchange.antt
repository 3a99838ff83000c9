-- ===== src/System/Keys/Exchange.antt =====
-- handlers/method/: the methods of friendships, messages, prekeys, mailboxes and blobs keep the keys of
-- the tables.
use zenth_dht.Prelude.{
  refl, inl, inr, Bool-cases, ℕ, any, Bytes, Option, bytes_eq_comm, ◌==◌, Distinct-append,
  Distinct-retain, Distinct-update_where, arith,
}
use zenth_dht.Models.{Db, FriendRequestModel, MessageModel, SyncBlob}
use zenth_dht.Server.{Env, Readings}
use zenth_dht.Server.Keeps.{Keeps}
use zenth_dht.Method.Contact.{
  FriendRequest, is_between, refreshed, insert_request, new_request, contact,
}
use zenth_dht.Method.Contact.Pairs.{same_pair, same_pair_comm}
use zenth_dht.Method.Respond.{
  FriendResponse, is_answer_to, revised, new_response, respond_friend_request,
}
use zenth_dht.Method.Message.{
  ZenthSignalEnvelope, MessageAck, Formats, has_message_id, insert_message, send_message,
  ack_message,
}
use zenth_dht.Method.Prekeys.{
  PreKeyBundle, PreKeysRequest, FetchPreKeyBundleRequest, upload_prekeys, replenish_prekeys,
  fetch_prekey_bundle,
}
use zenth_dht.Method.Prekeys.Table.{use_up, stock, mark_used}
use zenth_dht.Method.Prekeys.Upload.{same_prekey, add_prekeys-Distinct}
use zenth_dht.Method.SyncBlob.{
  SyncPushBlobRequest, SyncBlobRequest, is_for, put_blob, push_blob, delete_blob,
}
use zenth_dht.Method.Relay.{
  RelayPushRequest, RelayAckRequest, new_relay_message, insert_relay_message, push_relay, ack_relay,
}
use zenth_dht.Method.Keeps.Writers.{
  contact-Keeps, respond_friend_request-Keeps, send_message-Keeps, ack_message-Keeps,
  upload_prekeys-Keeps, replenish_prekeys-Keeps, fetch_prekey_bundle-Keeps, push_blob-Keeps,
  delete_blob-Keeps, push_relay-Keeps, ack_relay-Keeps,
}
use zenth_dht.Decompose.Tables.{
  Table, friend_requests, friend_responses, one_time_prekeys, messages, relay_messages, sync_blobs,
}
use zenth_dht.System.Keys.{
  same_message, same_device, IsSerial-append, IsSerial-retain, IsSerial-update_where, KeysOf,
}

request_inserted :
    (row : ℕ → FriendRequestModel) (db : Db)
    → KeysOf friend_requests db
    → KeysOf friend_requests (insert_request row db).1
unfolding insert_request
request_inserted row db h =
    let r = row db.next_friend_request in
    elim (Bool-cases (any (is_between r.requester_hash_id r.target_hash_id) db.friend_requests)) [
      | inl held ↦ rw (held, insert_request) h
      | inr free ↦
          rw (free, insert_request)
            (Distinct-append same_pair same_pair_comm db.friend_requests r free h)
    ]

message_inserted :
    (row : ℕ → MessageModel) (db : Db)
    → KeysOf messages db
    → KeysOf messages (insert_message row db).1
unfolding insert_message
message_inserted row db h =
    elim (Bool-cases (any (has_message_id (row db.next_message).message_id) db.messages)) [
      | inl held ↦ rw (held, insert_message) h
      | inr free ↦
          rw (free, insert_message)
            (Distinct-append same_message (λ m n. bytes_eq_comm n.message_id m.message_id)
              db.messages (row db.next_message) free h)
    ]

blob_put :
    (row : SyncBlob) (db : Db)
    → KeysOf sync_blobs db
    → KeysOf sync_blobs (record db { sync_blobs = put_blob row db.sync_blobs })
unfolding put_blob
blob_put row db h = elim (Bool-cases (any (is_for row.for_device_dilithium_pubkey) db.sync_blobs)) [
  | inl held ↦
      rw (held, put_blob)
        (Distinct-update_where same_device (is_for row.for_device_dilithium_pubkey) _ db.sync_blobs
          (λ a b. refl) (λ a b. refl) h)
  | inr free ↦
      rw (free, put_blob)
        (Distinct-append same_device
          (λ a b. bytes_eq_comm b.for_device_dilithium_pubkey a.for_device_dilithium_pubkey)
          db.sync_blobs row free h)
]

module _ (env : Env) (at : Readings) where
  pub contact-KeysOf :
      (encode : FriendRequest → Bytes) (t : Table) (req : FriendRequest)
      → Keeps (KeysOf t) (contact env encode at req)
  unfolding insert_request
  contact-KeysOf encode friend_requests req =
      contact-Keeps (KeysOf friend_requests) env encode at
        (λ r db k.
          Distinct-update_where same_pair (is_between r.requester_hash_id r.target_hash_id)
            (refreshed r) db.friend_requests (λ a b. refl) (λ a b. refl) k)
        (λ r db k. request_inserted (new_request at r) db k) req
  contact-KeysOf encode t req =
      contact-Keeps (KeysOf t) env encode at (λ r db k. k) (λ r db k. ground arith) req

  pub respond_friend_request-KeysOf :
      (encode : FriendResponse → Bytes) (t : Table) (req : FriendResponse)
      → Keeps (KeysOf t) (respond_friend_request env encode at req)
  respond_friend_request-KeysOf encode friend_responses req =
      respond_friend_request-Keeps (KeysOf friend_responses) env encode at
        (λ r id db k.
          IsSerial-update_where _ db.friend_responses db.next_friend_response k (is_answer_to id)
            (revised r) (λ x. refl))
        (λ r id db k.
          IsSerial-append _ db.friend_responses db.next_friend_response k
            (new_response at r id db.next_friend_response) refl)
        req
  respond_friend_request-KeysOf encode t req =
      respond_friend_request-Keeps (KeysOf t) env encode at (λ r id db k. k) (λ r id db k. k) req

  pub send_message-KeysOf :
      (formats : Formats) (t : Table) (req : ZenthSignalEnvelope)
      → Keeps (KeysOf t) (send_message env at formats req)
  unfolding insert_message
  send_message-KeysOf formats messages req =
      send_message-Keeps (KeysOf messages) env at formats message_inserted req
  send_message-KeysOf formats t req =
      send_message-Keeps (KeysOf t) env at formats (λ row db k. ground arith) req

  pub ack_message-KeysOf :
      (t : Table) (req : MessageAck) → Keeps (KeysOf t) (ack_message env at req)
  ack_message-KeysOf messages req =
      ack_message-Keeps (KeysOf messages) env at req
        λ id recipient db k. Distinct-retain same_message _ db.messages k
  ack_message-KeysOf t req = ack_message-Keeps (KeysOf t) env at req (λ id recipient db k. k)

  module _ (decode_bundle : Bytes → Option PreKeyBundle) where
    pub upload_prekeys-KeysOf :
        (t : Table) (req : PreKeysRequest)
        → Keeps (KeysOf t) (upload_prekeys env decode_bundle at req)
    upload_prekeys-KeysOf one_time_prekeys req =
        upload_prekeys-Keeps (KeysOf one_time_prekeys) env decode_bundle at
          (λ hash now pks db k. add_prekeys-Distinct hash now pks (stock db) k) req
    upload_prekeys-KeysOf t req =
        upload_prekeys-Keeps (KeysOf t) env decode_bundle at (λ hash now pks db k. k) req

    pub replenish_prekeys-KeysOf :
        (t : Table) (req : PreKeysRequest)
        → Keeps (KeysOf t) (replenish_prekeys env decode_bundle at req)
    replenish_prekeys-KeysOf one_time_prekeys req =
        replenish_prekeys-Keeps (KeysOf one_time_prekeys) env decode_bundle at
          (λ hash now pks db k. add_prekeys-Distinct hash now pks (stock db) k) req
    replenish_prekeys-KeysOf t req =
        replenish_prekeys-Keeps (KeysOf t) env decode_bundle at (λ hash now pks db k. k) req

    pub fetch_prekey_bundle-KeysOf :
        (t : Table) (req : FetchPreKeyBundleRequest)
        → Keeps (KeysOf t) (fetch_prekey_bundle env decode_bundle at req)
    unfolding mark_used
    fetch_prekey_bundle-KeysOf one_time_prekeys req =
        fetch_prekey_bundle-Keeps (KeysOf one_time_prekeys) env decode_bundle at
          (λ id db k.
            Distinct-update_where same_prekey (λ x. x.id == id) use_up db.one_time_prekeys
              (λ a b. refl) (λ a b. refl) k)
          req
    fetch_prekey_bundle-KeysOf t req =
        fetch_prekey_bundle-Keeps (KeysOf t) env decode_bundle at (λ id db k. k) req

  pub push_blob-KeysOf :
      (t : Table) (req : SyncPushBlobRequest) → Keeps (KeysOf t) (push_blob env at req)
  push_blob-KeysOf sync_blobs req = push_blob-Keeps (KeysOf sync_blobs) env at req blob_put
  push_blob-KeysOf t req = push_blob-Keeps (KeysOf t) env at req (λ row db k. k)

  pub delete_blob-KeysOf :
      (t : Table) (req : SyncBlobRequest) → Keeps (KeysOf t) (delete_blob env at req)
  delete_blob-KeysOf sync_blobs req =
      delete_blob-Keeps (KeysOf sync_blobs) env at req
        λ device db k. Distinct-retain same_device _ db.sync_blobs k
  delete_blob-KeysOf t req = delete_blob-Keeps (KeysOf t) env at req (λ device db k. k)

  pub push_relay-KeysOf :
      (t : Table) (req : RelayPushRequest) → Keeps (KeysOf t) (push_relay env at req)
  unfolding insert_relay_message
  push_relay-KeysOf relay_messages req = push_relay-Keeps (KeysOf relay_messages) env at req λ db k.
      IsSerial-append _ db.relay_messages db.next_relay_message k
        (new_relay_message at req db.next_relay_message) refl
  push_relay-KeysOf t req = push_relay-Keeps (KeysOf t) env at req (λ db k. k)

  pub ack_relay-KeysOf :
      (t : Table) (req : RelayAckRequest) → Keeps (KeysOf t) (ack_relay env at req)
  ack_relay-KeysOf relay_messages req =
      ack_relay-Keeps (KeysOf relay_messages) env at req
        λ device up_to db k. IsSerial-retain _ db.relay_messages db.next_relay_message k _
  ack_relay-KeysOf t req = ack_relay-Keeps (KeysOf t) env at req (λ device up_to db k. k)
