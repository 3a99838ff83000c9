-- ===== src/Decompose/Tables.antt =====
-- handlers/decompose.rs: the tables of the database, and the methods that may write each of them.
use zenth_dht.Prelude.{◌≡◌, Bool, List, [], ◌∷◌, ℤ, any}
use zenth_dht.Models.{Db}
use zenth_dht.Decompose.{
  same_method, method_register, method_login, method_delete, method_contact,
  method_send_friend_request, method_respond_friend_request, method_send_message,
  method_upload_prekeys, method_fetch_prekey_bundle, method_replenish_prekeys,
  method_sync_push_blob, method_sync_delete_blob, method_relay_push, method_relay_ack,
  method_ack_message, method_publish_recovery_key, method_recovery_claim,
}

pub data Table : Type 0 where
  users : Table
  auth_challenges : Table
  sessions : Table
  friend_requests : Table
  friend_responses : Table
  one_time_prekeys : Table
  messages : Table
  relay_messages : Table
  sync_blobs : Table
  app_config : Table

-- The table holds the same rows, in the same order, and has the same next serial number.
abbrev pub Same : Table → Db → Db → Type 0
Same users a b = a.users ≡ b.users
Same auth_challenges a b = a.auth_challenges ≡ b.auth_challenges
Same sessions a b = a.sessions ≡ b.sessions
Same friend_requests a b =
    (a.friend_requests ≡ b.friend_requests) × (a.next_friend_request ≡ b.next_friend_request)
Same friend_responses a b =
    (a.friend_responses ≡ b.friend_responses) × (a.next_friend_response ≡ b.next_friend_response)
Same one_time_prekeys a b =
    (a.one_time_prekeys ≡ b.one_time_prekeys) × (a.next_prekey ≡ b.next_prekey)
Same messages a b = (a.messages ≡ b.messages) × (a.next_message ≡ b.next_message)
Same relay_messages a b =
    (a.relay_messages ≡ b.relay_messages) × (a.next_relay_message ≡ b.next_relay_message)
Same sync_blobs a b = a.sync_blobs ≡ b.sync_blobs
Same app_config a b = a.app_config ≡ b.app_config

abbrev pub writers : Table → List ℤ
writers users =
    method_register ∷ method_delete ∷ method_publish_recovery_key ∷ method_recovery_claim ∷ []
writers auth_challenges = method_login ∷ method_delete ∷ []
writers sessions = method_login ∷ method_delete ∷ method_recovery_claim ∷ []
writers friend_requests = method_contact ∷ method_send_friend_request ∷ method_delete ∷ []
writers friend_responses = method_respond_friend_request ∷ method_delete ∷ []
writers one_time_prekeys =
    method_upload_prekeys ∷ method_fetch_prekey_bundle ∷ method_replenish_prekeys ∷ method_delete
    ∷ []
writers messages = method_send_message ∷ method_ack_message ∷ method_delete ∷ []
writers relay_messages = method_relay_push ∷ method_relay_ack ∷ []
writers sync_blobs = method_sync_push_blob ∷ method_sync_delete_blob ∷ []
writers app_config = []

abbrev pub writes : Table → ℤ → Bool
writes t method = any (same_method method) (writers t)
