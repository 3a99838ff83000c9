-- ===== src/Decompose/Footprint/Exchange.antt =====
-- handlers/decompose.rs: the methods of friendships, messages, prekeys, mailboxes and blobs leave
-- alone every table that they are not listed to write.
use zenth_dht.Prelude.{◌≡◌, false, Option, Bytes, arith}
use zenth_dht.Models.{Db}
use zenth_dht.Server.{Env, Readings}
use zenth_dht.Server.Keeps.{Keeps}
use zenth_dht.Method.Contact.{FriendRequest, insert_request, contact}
use zenth_dht.Method.Respond.{FriendResponse, respond_friend_request}
use zenth_dht.Method.Message.{
  ZenthSignalEnvelope, MessageAck, Formats, insert_message, send_message, ack_message,
}
use zenth_dht.Method.Prekeys.{
  PreKeyBundle, PreKeysRequest, FetchPreKeyBundleRequest, upload_prekeys, replenish_prekeys,
  fetch_prekey_bundle,
}
use zenth_dht.Method.SyncBlob.{SyncPushBlobRequest, SyncBlobRequest, push_blob, delete_blob}
use zenth_dht.Method.Relay.{
  RelayPushRequest, RelayAckRequest, insert_relay_message, push_relay, ack_relay,
}
use zenth_dht.Method.Keeps.Writers.{
  contact-Keeps, respond_friend_request-Keeps, send_message-Keeps, ack_message-Keeps,
  upload_prekeys-Keeps, replenish_prekeys-Keeps, fetch_prekey_bundle-Keeps, push_blob-Keeps,
  delete_blob-Keeps, push_relay-Keeps, ack_relay-Keeps,
}
use zenth_dht.Decompose.{
  method_contact, method_respond_friend_request, method_send_message, method_ack_message,
  method_upload_prekeys, method_replenish_prekeys, method_fetch_prekey_bundle,
  method_sync_push_blob, method_sync_delete_blob, method_relay_push, method_relay_ack,
}
use zenth_dht.Decompose.Tables.{
  Table, friend_requests, friend_responses, one_time_prekeys, messages, relay_messages, sync_blobs,
  Same, writes,
}

module _ (base : Db) (env : Env) (at : Readings) where
  abbrev Kept : Table → Db → Type 0
  Kept t db = Same t db base

  pub contact-Same :
      (encode_request : FriendRequest → Bytes) (t : Table) (req : FriendRequest)
      → writes t method_contact ≡ false
      → Keeps (Kept t) (contact env encode_request at req)
  unfolding insert_request
  contact-Same encode_request friend_requests req h = cc
  contact-Same encode_request t req h =
      contact-Keeps (Kept t) env encode_request at (λ hash db k. k) (λ row db k. ground arith) req

  pub respond_friend_request-Same :
      (encode_response : FriendResponse → Bytes) (t : Table) (req : FriendResponse)
      → writes t method_respond_friend_request ≡ false
      → Keeps (Kept t) (respond_friend_request env encode_response at req)
  respond_friend_request-Same encode_response friend_responses req h = cc
  respond_friend_request-Same encode_response t req h =
      respond_friend_request-Keeps (Kept t) env encode_response at (λ r id db k. k) (λ r id db k. k)
        req

  pub send_message-Same :
      (formats : Formats) (t : Table) (req : ZenthSignalEnvelope)
      → writes t method_send_message ≡ false
      → Keeps (Kept t) (send_message env at formats req)
  unfolding insert_message
  send_message-Same formats messages req h = cc
  send_message-Same formats t req h =
      send_message-Keeps (Kept t) env at formats (λ row db k. ground arith) req

  pub ack_message-Same :
      (t : Table) (req : MessageAck)
      → writes t method_ack_message ≡ false
      → Keeps (Kept t) (ack_message env at req)
  ack_message-Same messages req h = cc
  ack_message-Same t req h = ack_message-Keeps (Kept t) env at req (λ id recipient db k. k)

  pub upload_prekeys-Same :
      (decode_bundle : Bytes → Option PreKeyBundle) (t : Table) (req : PreKeysRequest)
      → writes t method_upload_prekeys ≡ false
      → Keeps (Kept t) (upload_prekeys env decode_bundle at req)
  upload_prekeys-Same decode_bundle one_time_prekeys req h = cc
  upload_prekeys-Same decode_bundle t req h =
      upload_prekeys-Keeps (Kept t) env decode_bundle at (λ hash now pks db k. k) req

  pub replenish_prekeys-Same :
      (decode_bundle : Bytes → Option PreKeyBundle) (t : Table) (req : PreKeysRequest)
      → writes t method_replenish_prekeys ≡ false
      → Keeps (Kept t) (replenish_prekeys env decode_bundle at req)
  replenish_prekeys-Same decode_bundle one_time_prekeys req h = cc
  replenish_prekeys-Same decode_bundle t req h =
      replenish_prekeys-Keeps (Kept t) env decode_bundle at (λ hash now pks db k. k) req

  pub fetch_prekey_bundle-Same :
      (decode_bundle : Bytes → Option PreKeyBundle) (t : Table) (req : FetchPreKeyBundleRequest)
      → writes t method_fetch_prekey_bundle ≡ false
      → Keeps (Kept t) (fetch_prekey_bundle env decode_bundle at req)
  fetch_prekey_bundle-Same decode_bundle one_time_prekeys req h = cc
  fetch_prekey_bundle-Same decode_bundle t req h =
      fetch_prekey_bundle-Keeps (Kept t) env decode_bundle at (λ id db k. k) req

  pub push_blob-Same :
      (t : Table) (req : SyncPushBlobRequest)
      → writes t method_sync_push_blob ≡ false
      → Keeps (Kept t) (push_blob env at req)
  push_blob-Same sync_blobs req h = cc
  push_blob-Same t req h = push_blob-Keeps (Kept t) env at req (λ row db k. k)

  pub delete_blob-Same :
      (t : Table) (req : SyncBlobRequest)
      → writes t method_sync_delete_blob ≡ false
      → Keeps (Kept t) (delete_blob env at req)
  delete_blob-Same sync_blobs req h = cc
  delete_blob-Same t req h = delete_blob-Keeps (Kept t) env at req (λ device db k. k)

  pub push_relay-Same :
      (t : Table) (req : RelayPushRequest)
      → writes t method_relay_push ≡ false
      → Keeps (Kept t) (push_relay env at req)
  unfolding insert_relay_message
  push_relay-Same relay_messages req h = cc
  push_relay-Same t req h = push_relay-Keeps (Kept t) env at req (λ db k. ground arith)

  pub ack_relay-Same :
      (t : Table) (req : RelayAckRequest)
      → writes t method_relay_ack ≡ false
      → Keeps (Kept t) (ack_relay env at req)
  ack_relay-Same relay_messages req h = cc
  ack_relay-Same t req h = ack_relay-Keeps (Kept t) env at req (λ device up_to db k. k)
