-- ===== src/Method/Inbox.antt =====
-- handlers/method/fetch_message.rs: a user reads the messages that wait for the user.
-- `group_messages` of the response is always empty and is left out.
pub mod Waiting
mod Tests
use Prim.Native.Nat.{min}
use zenth_dht.Prelude.{
  ℕ, zero, suc, ◌+◌, ◌-◌, ◌%◌, ◌^◌, Bool, true, false, not, ◌&&◌, ◌||◌, List, [], ◌∷◌, ◌++◌, map,
  Option, none, some, Bytes, ℤ, pos, negsuc, lt_ℤb, as_i64, as_u64, i64_bound, u64_le_bytes,
  u32_le_bytes, bytes_eq, length, retain, take, order_by, ltb, if◌then◌else◌,
}
use zenth_dht.Models.{Db, User, MessageModel, NaiveDateTime}
use zenth_dht.Crypto.{verify_dilithium_signature}
use zenth_dht.Server.{
  DbResult, ok, not_found, err, DbError, Message, text, with_error, Result, done, failed, Env,
  Readings, World, ◌>>=◌, ◌>>◌, act, body, give, reject_if, row_or, sql,
}
use zenth_dht.Method.Users.{select_user}
use zenth_dht.Method.Message.{Content, prekey_message, regular_message, ZenthSignalEnvelope}

pub record FetchMessagesRequest : Type 0 where
  pub user_hash : Bytes
  pub since_timestamp : ℕ
  pub limit : ℕ
  pub timestamp : ℕ
  pub dilithium_signature : Bytes

pub record FetchMessagesResponse : Type 0 where
  pub messages : List ZenthSignalEnvelope
  pub timestamp : ℕ
  pub remaining_count : ℕ

-- What the handler takes from prost: a message is its bytes under `encode_to_vec`.
pub record Decoder : Type 0 where
  pub decode_prekey : Bytes → Option Bytes
  pub has_base_key_or_message : Bytes → Bool
  pub decode_regular_or_default : Bytes → Bytes

-- The order of i64 as an order of ℕ.
abbrev pub rank : ℤ → ℕ
rank (pos n) = i64_bound + n
rank (negsuc n) = i64_bound - (n + 1)

-- `if since_timestamp > 0 { query.filter(server_timestamp.gt(since)) }`
abbrev pub is_since : ℕ → MessageModel → Bool
is_since since m = not (ltb 0 since) || lt_ℤb (as_i64 since) m.server_timestamp

abbrev pub is_waiting_for : Bytes → NaiveDateTime → MessageModel → Bool
is_waiting_for hash now m = bytes_eq m.recipient_hash_id hash && ltb now m.expires_at

-- The messages for a user that have not expired and are newer than `since`, the oldest first.
unfoldable pub inbox : Bytes → ℕ → NaiveDateTime → List MessageModel → List MessageModel
inbox hash since now rows =
    order_by (λ m. rank m.server_timestamp)
      (retain (λ m. is_waiting_for hash now m && is_since since m) rows)

unfoldable pub total_count : Bytes → ℕ → NaiveDateTime → List MessageModel → ℕ
total_count hash since now rows =
    length (retain (λ m. is_waiting_for hash now m && lt_ℤb (as_i64 since) m.server_timestamp) rows)

-- `match request.limit { 0 => DEFAULT_LIMIT, n => n.min(MAX_LIMIT) }`
abbrev pub page_size : ℕ → ℕ
page_size zero = 100
page_size (suc n) = min (suc n) 200

unfoldable pub fetch_signed_data : FetchMessagesRequest → Bytes
fetch_signed_data req =
    ((req.user_hash ++ u64_le_bytes req.since_timestamp) ++ u32_le_bytes req.limit)
    ++ u64_le_bytes req.timestamp

abbrev pub select_count : Bytes → ℕ → NaiveDateTime → Db → DbResult ℕ × Db
select_count hash since now db = (ok (total_count hash since now db.messages), db)

abbrev pub select_inbox : Bytes → ℕ → NaiveDateTime → ℕ → Db → DbResult (List MessageModel) × Db
select_inbox hash since now limit db = (ok (take limit (inbox hash since now db.messages)), db)

abbrev pub nothing : Result FetchMessagesResponse
nothing = done (record { messages = []; timestamp = 0; remaining_count = 0 })

abbrev pub database_failed {ℓ} : {A : Type ℓ} → DbError → Result A
database_failed e = failed (with_error "{}" e)

-- `(total_count - envelopes.len() as i64).max(0) as u32`
abbrev pub remaining : ℕ → ℕ → ℕ
remaining total shown = (total - shown) % 2 ^ 32

module _ (decoder : Decoder) where
  -- A stored content carries no type: a PreKeyMessage is tried first.
  unfoldable pub content_of : Bytes → Content
  content_of bytes = elim (decoder.decode_prekey bytes) [
    | none ↦ regular_message (decoder.decode_regular_or_default bytes)
    | some msg ↦
        (if decoder.has_base_key_or_message msg
          then prekey_message msg
          else regular_message (decoder.decode_regular_or_default bytes))
  ]

  unfoldable pub envelope_of : MessageModel → ZenthSignalEnvelope
  envelope_of m = record {
    version = 1;
    sender_hash_id = m.sender_hash_id;
    recipient_hash_id = m.recipient_hash_id;
    content = some (content_of m.content);
    dilithium_signature = m.dilithium_signature;
    timestamp = as_u64 m.timestamp;
    message_id = m.message_id;
    sequence_number = 0;
  }

  module _ (env : Env) (at : Readings) where
    abbrev pub page : ℕ → List MessageModel → FetchMessagesResponse
    page total rows = record {
      messages = map envelope_of rows;
      timestamp = at.unix_millis;
      remaining_count = remaining total (length (map envelope_of rows));
    }

    unfoldable pub fetch_messages :
        FetchMessagesRequest → World → Result FetchMessagesResponse × World
    fetch_messages req = body do
      row ← sql env (select_user req.user_hash)
      user ← row_or row nothing database_failed
      reject_if
          (not (
            verify_dilithium_signature env.dilithium user.identity_key_dilithium
              (fetch_signed_data req) req.dilithium_signature))
          nothing
      counted ← sql env (select_count req.user_hash req.since_timestamp at.utc)
      total ← row_or counted (failed (text "NotFound")) database_failed
      loaded ← sql env (select_inbox req.user_hash req.since_timestamp at.utc (page_size req.limit))
      rows ← row_or loaded (failed (text "NotFound")) database_failed
      give (done (page total rows))
