-- ===== src/Decompose/Handlers.antt =====
-- handlers/decompose.rs: the handle_* functions, which decode a payload, run the handler of a method
-- and encode its response.
use zenth_dht.Prelude.{true, Bytes}
use zenth_dht.Server.{text, with_text, with_message, Exit, Env, Readings, World}
use zenth_dht.Method.Register.{register}
use zenth_dht.Method.Login.{login}
use zenth_dht.Method.Delete.{delete_account}
use zenth_dht.Method.Contact.{contact}
use zenth_dht.Method.Lookup.{lookup_user}
use zenth_dht.Method.Friends.{fetch_friend_requests, fetch_friend_responses, fetch_my_accepted}
use zenth_dht.Method.Respond.{respond_friend_request}
use zenth_dht.Method.Message.{send_message, ack_message}
use zenth_dht.Method.Inbox.{fetch_messages}
use zenth_dht.Method.Prekeys.{
  upload_prekeys, replenish_prekeys, check_prekey_count, fetch_prekey_bundle,
}
use zenth_dht.Method.Updates.{get_update_manifest, get_update_chunk}
use zenth_dht.Method.SyncBlob.{push_blob, fetch_blob, delete_blob}
use zenth_dht.Method.Relay.{push_relay, fetch_relay, ack_relay}
use zenth_dht.Method.Recovery.{publish_recovery_key, recovery_claim}
use zenth_dht.Decompose.Codecs.{Handled, Packages}
use zenth_dht.Decompose.Serve.{
  refused, plain, explained, decoded, serve, serve_exit, triple, acknowledged,
}

module _ (env : Env) (packages : Packages) (at : Readings) where
  unfoldable pub handle_register : Bytes → World → Handled × World
  handle_register =
      serve (with_text "Erreur décodage RegistrationRequest: {}") packages.codecs.registration
        (register env at) (λ r. plain r.success) (λ e. e)

  unfoldable pub handle_login : Bytes → World → Handled × World
  handle_login =
      serve (with_text "Erreur décodage LoginRequest: {}") packages.codecs.login (login env at)
        (λ r. plain r.success) (λ e. e)

  unfoldable pub handle_delete : Bytes → World → Handled × World
  handle_delete =
      serve (with_text "Error decoding DeleteRequest: {}") packages.codecs.delete
        (delete_account env at) (λ r. explained r.success r.error_message) (λ e. e)

  unfoldable pub handle_lookup_user : Bytes → World → Handled × World
  handle_lookup_user =
      serve (with_text "Error decoding LookupUserRequest: {}") packages.codecs.lookup_user
        (lookup_user env packages.decode_bundle) (λ r. plain true) (λ e. e)

  unfoldable pub handle_fetch_friend_requests : Bytes → World → Handled × World
  handle_fetch_friend_requests =
      serve (with_text "Error decoding FetchFriendRequestsRequest: {}")
        packages.codecs.fetch_friend_requests (fetch_friend_requests env at) (λ r. plain true)
        (λ e. e)

  unfoldable pub handle_send_message : Bytes → World → Exit Handled × World
  handle_send_message =
      serve_exit (with_text "Error decoding ZenthSignalEnvelope: {}") packages.codecs.send_message
        (send_message env at packages.formats) (λ r. plain r.success)
        (with_message "Send message error: {}")

  unfoldable pub handle_fetch_messages : Bytes → World → Handled × World
  handle_fetch_messages =
      serve (with_text "Error decoding FetchMessagesRequest: {}") packages.codecs.fetch_messages
        (fetch_messages packages.decoder env at) (λ r. plain true)
        (with_message "Fetch messages error: {}")

  unfoldable pub handle_fetch_friend_responses : Bytes → World → Handled × World
  handle_fetch_friend_responses =
      serve (with_text "Error decoding FetchFriendResponsesRequest: {}")
        packages.codecs.fetch_friend_responses (fetch_friend_responses env at packages.latest)
        (λ r. plain true) (λ e. e)

  unfoldable pub handle_upload_prekeys : Bytes → World → Handled × World
  handle_upload_prekeys =
      serve (with_text "Error decoding UploadPreKeysRequest: {}") packages.codecs.upload_prekeys
        (upload_prekeys env packages.decode_bundle at) (λ r. explained r.success r.error_message)
        (λ e. e)

  unfoldable pub handle_fetch_prekey_bundle : Bytes → World → Handled × World
  handle_fetch_prekey_bundle =
      serve (with_text "Error decoding FetchPreKeyBundleRequest: {}")
        packages.codecs.fetch_prekey_bundle (fetch_prekey_bundle env packages.decode_bundle at)
        (λ r. explained r.success r.error_message) (λ e. e)

  unfoldable pub handle_check_prekey_count : Bytes → World → Handled × World
  handle_check_prekey_count =
      serve (with_text "Error decoding CheckPreKeyCountRequest: {}")
        packages.codecs.check_prekey_count (check_prekey_count env packages.decode_bundle at)
        (λ r. explained r.success r.error_message) (λ e. e)

  unfoldable pub handle_replenish_prekeys : Bytes → World → Handled × World
  handle_replenish_prekeys =
      serve (with_text "Error decoding ReplenishPreKeysRequest: {}")
        packages.codecs.replenish_prekeys (replenish_prekeys env packages.decode_bundle at)
        (λ r. explained r.success r.error_message) (λ e. e)

  unfoldable pub handle_get_update_manifest : Bytes → World → Handled × World
  handle_get_update_manifest =
      serve (with_text "Error decoding UpdateManifestRequest: {}") packages.codecs.update_manifest
        (λ req w. (get_update_manifest packages.storage req, w)) (λ r. plain true) (λ e. e)

  unfoldable pub handle_get_update_chunk : Bytes → World → Handled × World
  handle_get_update_chunk =
      serve (with_text "Error decoding UpdateChunkRequest: {}") packages.codecs.update_chunk
        (λ req w. (get_update_chunk packages.storage req, w)) (λ r. plain true) (λ e. e)

  unfoldable pub handle_sync_push_blob : Bytes → World → Handled × World
  handle_sync_push_blob =
      serve (with_text "Error decoding SyncPushBlobRequest: {}") packages.codecs.sync_push_blob
        (push_blob env at) (λ r. explained r.success r.error_message) (λ e. e)

  unfoldable pub handle_sync_fetch_blob : Bytes → World → Handled × World
  handle_sync_fetch_blob =
      serve (with_text "Error decoding SyncFetchBlobRequest: {}") packages.codecs.sync_fetch_blob
        (fetch_blob env at) (λ r. explained r.success r.error_message) (λ e. e)

  unfoldable pub handle_sync_delete_blob : Bytes → World → Handled × World
  handle_sync_delete_blob =
      serve (with_text "Error decoding SyncDeleteBlobRequest: {}") packages.codecs.sync_delete_blob
        (delete_blob env at) (λ r. explained r.success r.error_message) (λ e. e)

  unfoldable pub handle_relay_push : Bytes → World → Handled × World
  handle_relay_push =
      serve (with_text "Error decoding RelayPushRequest: {}") packages.codecs.relay_push
        (push_relay env at) (λ r. explained r.success r.error_message) (λ e. e)

  unfoldable pub handle_relay_fetch : Bytes → World → Handled × World
  handle_relay_fetch =
      serve (with_text "Error decoding RelayFetchRequest: {}") packages.codecs.relay_fetch
        (fetch_relay env at) (λ r. plain true) (λ e. e)

  unfoldable pub handle_relay_ack : Bytes → World → Handled × World
  handle_relay_ack =
      serve (with_text "Error decoding RelayAckRequest: {}") packages.codecs.relay_ack
        (ack_relay env at) (λ r. explained r.success r.error_message) (λ e. e)

  unfoldable pub handle_fetch_my_accepted : Bytes → World → Handled × World
  handle_fetch_my_accepted =
      serve (with_text "Error decoding FetchFriendResponsesRequest: {}")
        packages.codecs.fetch_friend_responses (fetch_my_accepted env at packages.latest)
        (λ r. plain true) (λ e. e)

  unfoldable pub handle_publish_recovery_key : Bytes → World → Handled × World
  handle_publish_recovery_key =
      serve (with_text "Error decoding PublishRecoveryKeyRequest: {}")
        packages.codecs.publish_recovery_key (publish_recovery_key env at)
        (λ r. explained r.success r.error_message) (λ e. e)

  unfoldable pub handle_recovery_claim : Bytes → World → Handled × World
  handle_recovery_claim =
      serve (with_text "Error decoding RecoveryClaimRequest: {}") packages.codecs.recovery_claim
        (recovery_claim env at) (λ r. explained r.success r.error_message) (λ e. e)

  unfoldable pub handle_block : Bytes → World → Handled × World
  handle_block payload w = (refused (text "BLOCK non implémenté"), w)

  unfoldable pub handle_group : Bytes → World → Handled × World
  handle_group payload w = (refused (text "GROUP non implémenté"), w)

  unfoldable pub handle_report : Bytes → World → Handled × World
  handle_report payload w = (refused (text "REPORT non implémenté"), w)

  unfoldable pub handle_contact : Bytes → World → Handled × World
  handle_contact payload =
      decoded (with_text "Error decoding FriendRequest: {}")
        (packages.codecs.decode_friend_request payload)
        λ req w. triple (contact env packages.encode_friend_request at req w)

  unfoldable pub handle_respond_friend_request : Bytes → World → Handled × World
  handle_respond_friend_request payload =
      decoded (with_text "Error decoding FriendResponse: {}")
        (packages.codecs.decode_friend_response payload)
        λ req w. triple (respond_friend_request env packages.encode_friend_response at req w)

  unfoldable pub handle_ack_message : Bytes → World → Handled × World
  handle_ack_message payload =
      decoded (with_text "Error decoding MessageAck: {}")
        (packages.codecs.decode_message_ack payload)
        λ req w. acknowledged (ack_message env at req w)
