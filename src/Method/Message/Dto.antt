-- ===== src/Method/Message/Dto.antt =====
-- handlers/method/: the messages of zenth_dto for send_message.rs and ack_message.rs, with the
-- fields that the code uses.
use zenth_dht.Prelude.{ℕ, Bool, Option, Bytes}
use zenth_dht.Models.{NaiveDateTime}
use zenth_dht.Server.{Message}

-- `Content` of zenth_dto, whose two messages are their bytes under `encode_to_vec`.
pub data Content : Type 0 where
  prekey_message : Bytes → Content
  regular_message : Bytes → Content

pub record ZenthSignalEnvelope : Type 0 where
  pub version : ℕ
  pub sender_hash_id : Bytes
  pub recipient_hash_id : Bytes
  pub content : Option Content
  pub dilithium_signature : Bytes
  pub timestamp : ℕ
  pub message_id : Bytes
  pub sequence_number : ℕ

pub record SendMessageResponse : Type 0 where
  pub success : Bool
  pub message_id : Bytes
  pub server_timestamp : ℕ
  pub error_message : Message

pub record MessageNotification : Type 0 where
  pub sender_hash_id : Bytes
  pub message_id : Bytes
  pub timestamp : ℕ

pub record MessageAck : Type 0 where
  pub message_id : Bytes
  pub recipient_hash_id : Bytes
  pub dilithium_signature : Bytes
  pub timestamp : ℕ

-- What the handlers take from prost and from chrono: the bytes of a `WsNotification` of type
-- MessageReceived with the given time, and the ends of chrono's range of dates, the later one as a
-- date and the earlier one as microseconds before 1970.
pub record Formats : Type 0 where
  pub encode_notification : ℕ → MessageNotification → Bytes
  pub latest : NaiveDateTime
  pub before_epoch : ℕ
