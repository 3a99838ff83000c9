-- ===== src/Method/Prekeys/Dto.antt =====
-- handlers/method/: the messages of zenth_dto for upload_prekeys.rs, replenish_prekeys.rs,
-- check_prekey_count.rs and fetch_prekey_bundle.rs, with the fields that the code uses.
use zenth_dht.Prelude.{ℕ, Bool, List, Option, Bytes}
use zenth_dht.Server.{Message}
use zenth_dht.Method.Prekeys.Table.{PreKey}

-- zenth_dto's bundle: what the code reads and writes of it, and the rest.
pub record PreKeyBundle : Type 0 where
  pub pre_key_id : ℕ
  pub pre_key_public : Bytes
  pub signed_pre_key_public : Bytes
  pub pq_pre_key_public : Option Bytes
  pub others : Bytes

-- The request of `upload_prekeys` and of `replenish_prekeys`.
pub record PreKeysRequest : Type 0 where
  pub username_hash : Bytes
  pub prekeys : List PreKey
  pub auth_signature : Bytes
  pub timestamp : ℕ

-- The response to both: `prekeys_stored`, or `total_prekeys`.
pub record PreKeysResponse : Type 0 where
  pub success : Bool
  pub count : ℕ
  pub error_message : Message

pub record CheckPreKeyCountRequest : Type 0 where
  pub username_hash : Bytes
  pub auth_signature : Bytes
  pub timestamp : ℕ

pub record CheckPreKeyCountResponse : Type 0 where
  pub success : Bool
  pub one_time_prekey_count : ℕ
  pub has_signed_prekey : Bool
  pub has_kyber_prekey : Bool
  pub error_message : Message

pub record FetchPreKeyBundleRequest : Type 0 where
  pub requester_hash : Bytes
  pub target_hash : Bytes
  pub auth_signature : Bytes
  pub timestamp : ℕ

pub record FetchPreKeyBundleResponse : Type 0 where
  pub success : Bool
  pub bundle : Option PreKeyBundle
  pub error_message : Message
