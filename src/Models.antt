-- ===== src/Models.antt =====
-- models.rs, schema.rs and migrations/: the rows of the tables, and the database as its tables.
-- Rows stand in the order of their insertion. A `NaiveDateTime` is a number of microseconds; serial
-- numbers count from the table's `next_` field; `created_at` is the database's clock at the insert.
use zenth_dht.Prelude.{ℕ, ◌*◌, Bool, Option, List, String, Bytes, ℤ}

abbrev pub NaiveDateTime : Type 0
NaiveDateTime = ℕ

-- `chrono::Duration::seconds(n)`
abbrev pub seconds : ℕ → ℕ
seconds n = n * 1_000_000

-- `chrono::Duration::hours(n)`
abbrev pub hours : ℕ → ℕ
hours n = seconds (n * 3600)

-- `chrono::Duration::days(n)`
abbrev pub days : ℕ → ℕ
days n = hours (n * 24)

pub record User : Type 0 where
  pub user_hash_id : Bytes
  pub password_commitment : Bytes
  pub identity_key_dilithium : Bytes
  pub identity_signature : Bytes
  pub pre_key_bundle : Bytes
  pub proof_type : ℤ
  pub created_at : NaiveDateTime
  pub recovery_dilithium_pubkey : Option Bytes

pub record AuthChallenge : Type 0 where
  pub challenge_id : Bytes
  pub user_hash_id : Bytes
  pub nonce : Bytes
  pub required_proof_type : ℤ
  pub public_parameters : Bytes
  pub difficulty : ℤ
  pub created_at : NaiveDateTime
  pub expires_at : NaiveDateTime

pub record Session : Type 0 where
  pub session_token : Bytes
  pub user_hash_id : Bytes
  pub session_expiry : NaiveDateTime
  pub created_at : NaiveDateTime

pub record FriendRequestModel : Type 0 where
  pub id : ℕ
  pub requester_hash_id : Bytes
  pub target_hash_id : Bytes
  pub pre_key_bundle : Bytes
  pub dilithium_signature : Bytes
  pub encrypted_message : Option Bytes
  pub timestamp : ℤ
  pub created_at : NaiveDateTime

pub record FriendResponseModel : Type 0 where
  pub id : ℕ
  pub request_id : ℕ
  pub responder_hash_id : Bytes
  pub requester_hash_id : Bytes
  pub accepted : Bool
  pub pre_key_bundle : Option Bytes
  pub dilithium_signature : Bytes
  pub delivered : Bool
  pub created_at : NaiveDateTime

pub record OneTimePrekey : Type 0 where
  pub id : ℕ
  pub user_hash_id : Bytes
  pub prekey_id : ℕ
  pub public_key : Bytes
  pub used : Bool
  pub created_at : NaiveDateTime

pub record MessageModel : Type 0 where
  pub id : ℕ
  pub message_id : Bytes
  pub sender_hash_id : Bytes
  pub recipient_hash_id : Bytes
  pub content : Bytes
  pub dilithium_signature : Bytes
  pub timestamp : ℤ
  pub server_timestamp : ℤ
  pub delivered : Bool
  pub created_at : NaiveDateTime
  pub expires_at : NaiveDateTime

pub record RelayMessage : Type 0 where
  pub id : ℕ
  pub for_device_dilithium_pubkey : Bytes
  pub ciphertext : Bytes
  pub nonce : Bytes
  pub expires_at : NaiveDateTime

pub record SyncBlob : Type 0 where
  pub for_device_dilithium_pubkey : Bytes
  pub ciphertext : Bytes
  pub signature : Bytes
  pub expires_at : NaiveDateTime

pub record ConfigEntry : Type 0 where
  pub key : String
  pub value : String

pub record Db : Type 0 where
  pub users : List User
  pub auth_challenges : List AuthChallenge
  pub sessions : List Session
  pub friend_requests : List FriendRequestModel
  pub next_friend_request : ℕ
  pub friend_responses : List FriendResponseModel
  pub next_friend_response : ℕ
  pub one_time_prekeys : List OneTimePrekey
  pub next_prekey : ℕ
  pub messages : List MessageModel
  pub next_message : ℕ
  pub relay_messages : List RelayMessage
  pub next_relay_message : ℕ
  pub sync_blobs : List SyncBlob
  pub app_config : List ConfigEntry
