-- ===== src/Decompose/Keeps.antt =====
-- handlers/decompose.rs: what a request keeps of the database, if the methods that write do.
use zenth_dht.Prelude.{◌≡◌, ℕ, ℤ}
use zenth_dht.Models.{Db}
use zenth_dht.Server.{Env, Readings, World}
use zenth_dht.Server.Keeps.{Keeps}
use zenth_dht.Method.Register.{RegistrationRequest, register}
use zenth_dht.Method.Login.{LoginRequest, login}
use zenth_dht.Method.Delete.{DeleteRequest, delete_account}
use zenth_dht.Method.Recovery.{
  PublishRecoveryKeyRequest, RecoveryClaimRequest, publish_recovery_key, recovery_claim,
}
use zenth_dht.Method.Contact.{FriendRequest, contact}
use zenth_dht.Method.Respond.{FriendResponse, respond_friend_request}
use zenth_dht.Method.Message.{ZenthSignalEnvelope, MessageAck, send_message, ack_message}
use zenth_dht.Method.Prekeys.{
  PreKeysRequest, FetchPreKeyBundleRequest, upload_prekeys, replenish_prekeys, fetch_prekey_bundle,
}
use zenth_dht.Method.SyncBlob.{SyncPushBlobRequest, SyncBlobRequest, push_blob, delete_blob}
use zenth_dht.Method.Relay.{RelayPushRequest, RelayAckRequest, push_relay, ack_relay}
use zenth_dht.Method.Keeps.Readers.{
  lookup_user-Keeps, fetch_friend_requests-Keeps, fetch_messages-Keeps,
  fetch_friend_responses-Keeps, check_prekey_count-Keeps, fetch_blob-Keeps, fetch_relay-Keeps,
  fetch_my_accepted-Keeps,
}
use zenth_dht.Decompose.{
  arms, process_request, method_register, method_login, method_delete, method_contact,
  method_send_friend_request, method_respond_friend_request, method_send_message,
  method_upload_prekeys, method_fetch_prekey_bundle, method_replenish_prekeys,
  method_sync_push_blob, method_sync_delete_blob, method_relay_push, method_relay_ack,
  method_ack_message, method_publish_recovery_key, method_recovery_claim,
}
use zenth_dht.Decompose.Codecs.{DhtRequest, Packages}
use zenth_dht.Decompose.Handlers.{
  handle_ack_message, handle_block, handle_check_prekey_count, handle_contact, handle_delete,
  handle_fetch_friend_requests, handle_fetch_friend_responses, handle_fetch_messages,
  handle_fetch_my_accepted, handle_fetch_prekey_bundle, handle_get_update_chunk,
  handle_get_update_manifest, handle_group, handle_login, handle_lookup_user,
  handle_publish_recovery_key, handle_recovery_claim, handle_register, handle_relay_ack,
  handle_relay_fetch, handle_relay_push, handle_replenish_prekeys, handle_report,
  handle_respond_friend_request, handle_send_message, handle_sync_delete_blob,
  handle_sync_fetch_blob, handle_sync_push_blob, handle_upload_prekeys,
}
use zenth_dht.Decompose.Dispatch.{
  ◌also◌, on_match, on_serve, on_serve_exit, on_triple, on_acknowledged,
}

-- The handler of the method, if it is one that writes, keeps `I`.
pub record WritersKeep (I : Db → Type 0) (env : Env) (packages : Packages) (at : Readings)
    (method : ℤ) : Type 0 where
  pub registers :
      method ≡ method_register → (req : RegistrationRequest) → Keeps I (register env at req)
  pub logs_in : method ≡ method_login → (req : LoginRequest) → Keeps I (login env at req)
  pub deletes : method ≡ method_delete → (req : DeleteRequest) → Keeps I (delete_account env at req)
  pub contacts :
      method ≡ method_contact
      → (req : FriendRequest) → Keeps I (contact env packages.encode_friend_request at req)
  pub befriends :
      method ≡ method_send_friend_request
      → (req : FriendRequest) → Keeps I (contact env packages.encode_friend_request at req)
  pub responds :
      method ≡ method_respond_friend_request
      → (req : FriendResponse)
      → Keeps I (respond_friend_request env packages.encode_friend_response at req)
  pub sends :
      method ≡ method_send_message
      → (req : ZenthSignalEnvelope) → Keeps I (send_message env at packages.formats req)
  pub uploads :
      method ≡ method_upload_prekeys
      → (req : PreKeysRequest) → Keeps I (upload_prekeys env packages.decode_bundle at req)
  pub delivers :
      method ≡ method_fetch_prekey_bundle
      → (req : FetchPreKeyBundleRequest)
      → Keeps I (fetch_prekey_bundle env packages.decode_bundle at req)
  pub replenishes :
      method ≡ method_replenish_prekeys
      → (req : PreKeysRequest) → Keeps I (replenish_prekeys env packages.decode_bundle at req)
  pub puts_blob :
      method ≡ method_sync_push_blob → (req : SyncPushBlobRequest) → Keeps I (push_blob env at req)
  pub deletes_blob :
      method ≡ method_sync_delete_blob → (req : SyncBlobRequest) → Keeps I (delete_blob env at req)
  pub relays :
      method ≡ method_relay_push → (req : RelayPushRequest) → Keeps I (push_relay env at req)
  pub acks_relay :
      method ≡ method_relay_ack → (req : RelayAckRequest) → Keeps I (ack_relay env at req)
  pub acks_message :
      method ≡ method_ack_message → (req : MessageAck) → Keeps I (ack_message env at req)
  pub publishes :
      method ≡ method_publish_recovery_key
      → (req : PublishRecoveryKeyRequest) → Keeps I (publish_recovery_key env at req)
  pub claims :
      method ≡ method_recovery_claim
      → (req : RecoveryClaimRequest) → Keeps I (recovery_claim env at req)

pub process_request_keeps :
    (I : Db → Type 0) (env : Env) (packages : Packages) (at : Readings) (answered_at : ℕ)
    (req : DhtRequest) (w : World)
    → WritersKeep I env packages at req.method
    → I w.db
    → I (process_request env packages at answered_at req w).1.db
unfolding process_request arms handle_ack_message handle_block handle_check_prekey_count
    handle_contact handle_delete handle_fetch_friend_requests handle_fetch_friend_responses
    handle_fetch_messages handle_fetch_my_accepted handle_fetch_prekey_bundle
    handle_get_update_chunk handle_get_update_manifest handle_group handle_login handle_lookup_user
    handle_publish_recovery_key handle_recovery_claim handle_register handle_relay_ack
    handle_relay_fetch handle_relay_push handle_replenish_prekeys handle_report
    handle_respond_friend_request handle_send_message handle_sync_delete_blob handle_sync_fetch_blob
    handle_sync_push_blob handle_upload_prekeys
process_request_keeps I env packages at answered_at req w writers k =
    on_match (λ r. I r.1.db) req.method req.payload w _ k
      ((λ e. on_serve I _ _ _ _ _ _ w (writers.registers e) k)
        also (λ e. on_serve I _ _ _ _ _ _ w (writers.logs_in e) k)
        also (λ e. on_serve I _ _ _ _ _ _ w (writers.deletes e) k)
        also (λ e. k)
        also (λ e. k)
        also (λ e. on_triple I _ _ _ w (writers.contacts e) k)
        also (λ e. k)
        also (λ e. on_serve I _ _ _ _ _ _ w (lookup_user-Keeps I env packages.decode_bundle) k)
        also (λ e. on_triple I _ _ _ w (writers.befriends e) k)
        also (λ e. on_serve I _ _ _ _ _ _ w (fetch_friend_requests-Keeps I env at) k)
        also (λ e. on_triple I _ _ _ w (writers.responds e) k)
        also (λ e. on_serve_exit I _ _ _ _ _ _ w (writers.sends e) k)
        also (λ e. on_serve I _ _ _ _ _ _ w (fetch_messages-Keeps I env packages.decoder at) k)
        also (λ e.
            on_serve I _ _ _ _ _ _ w (fetch_friend_responses-Keeps I env at packages.latest) k)
        also (λ e. on_serve I _ _ _ _ _ _ w (writers.uploads e) k)
        also (λ e. on_serve I _ _ _ _ _ _ w (writers.delivers e) k)
        also (λ e.
            on_serve I _ _ _ _ _ _ w (check_prekey_count-Keeps I env packages.decode_bundle at) k)
        also (λ e. on_serve I _ _ _ _ _ _ w (writers.replenishes e) k)
        also (λ e. on_serve I _ _ _ _ _ _ w (λ req. record { at = λ u h. h }) k)
        also (λ e. on_serve I _ _ _ _ _ _ w (λ req. record { at = λ u h. h }) k)
        also (λ e. on_serve I _ _ _ _ _ _ w (writers.puts_blob e) k)
        also (λ e. on_serve I _ _ _ _ _ _ w (fetch_blob-Keeps I env at) k)
        also (λ e. on_serve I _ _ _ _ _ _ w (writers.deletes_blob e) k)
        also (λ e. on_serve I _ _ _ _ _ _ w (writers.relays e) k)
        also (λ e. on_serve I _ _ _ _ _ _ w (fetch_relay-Keeps I env at) k)
        also (λ e. on_serve I _ _ _ _ _ _ w (writers.acks_relay e) k)
        also (λ e. on_serve I _ _ _ _ _ _ w (fetch_my_accepted-Keeps I env at packages.latest) k)
        also (λ e. on_acknowledged I _ _ _ w (writers.acks_message e) k)
        also (λ e. on_serve I _ _ _ _ _ _ w (writers.publishes e) k)
        also (λ e. on_serve I _ _ _ _ _ _ w (writers.claims e) k)
        also tt)
