-- ===== src/Method/Relay/Dto.antt =====
-- handlers/method/: the messages of zenth_dto for relay.rs, with the fields that the code uses.
use zenth_dht.Prelude.{ℕ, Bool, List, Bytes, ℤ}
use zenth_dht.Server.{Message}

pub record RelayPushRequest : Type 0 where
  pub for_device_dilithium_pubkey : Bytes
  pub ciphertext : Bytes
  pub nonce : Bytes
  pub sender_dilithium_pubkey : Bytes
  pub sender_signature : Bytes
  pub timestamp : ℕ
  pub ttl_secs : ℕ

pub record RelayPushResponse : Type 0 where
  pub success : Bool
  pub relay_id : ℕ
  pub error_message : Message

pub record RelayFetchRequest : Type 0 where
  pub for_device_dilithium_pubkey : Bytes
  pub since_id : ℤ
  pub limit : ℕ
  pub signature : Bytes
  pub timestamp : ℕ

pub record RelayEntry : Type 0 where
  pub id : ℕ
  pub ciphertext : Bytes
  pub nonce : Bytes

pub record RelayFetchResponse : Type 0 where
  pub success : Bool
  pub entries : List RelayEntry
  pub error_message : Message

pub record RelayAckRequest : Type 0 where
  pub for_device_dilithium_pubkey : Bytes
  pub up_to_id : ℤ
  pub signature : Bytes
  pub timestamp : ℕ

pub record RelayAckResponse : Type 0 where
  pub success : Bool
  pub error_message : Message
