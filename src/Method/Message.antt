-- ===== src/Method/Message.antt =====
-- handlers/method/send_message.rs and ack_message.rs: a message is stored for its recipient, who
-- acknowledges it away.
-- The requests and responses have the fields of zenth_dto's messages that the code uses. The task
-- that `push_to_recipient` spawns runs at the end of the handler.
mod Dto
pub mod Sending
pub mod Acknowledging
pub mod Orphans
pub mod Panics
mod Tests
pub use Dto.*
use zenth_dht.Prelude.{
  ℕ, zero, suc, ◌+◌, ◌-◌, ◌*◌, Bool, true, false, not, ◌&&◌, ◌||◌, List, [], ◌∷◌, ◌++◌, Option,
  none, some, Bytes, ℤ, pos, negsuc, as_i64, as_u64, u64_le_bytes, bytes_eq, is_empty, length,
  retain, any, ltb, leb, ◌==◌, if◌then◌else◌,
}
use zenth_dht.Models.{Db, User, MessageModel, NaiveDateTime, seconds, hours}
use zenth_dht.Crypto.{verify_dilithium_signature}
use zenth_dht.RateLimit.{Limiters, mid_msg_allowed, large_msg_allowed}
use zenth_dht.Websocket.ConnectionManager.{ConnectionManager, send_to_user}
use zenth_dht.Server.{
  DbResult, ok, not_found, err, DbError, unique_violation, Message, text, with_error, no_message,
  Result, done, failed, Exit, returned, panicked, Env, Readings, World, Handler, ◌>>=◌, ◌>>◌, act,
  body, give, reject_if, row_or, sql,
}
use zenth_dht.Method.Users.{select_user}

abbrev pub mid_threshold : ℕ
mid_threshold = 1024 * 1024

abbrev pub large_threshold : ℕ
large_threshold = 10 * 1024 * 1024

abbrev pub max_threshold : ℕ
max_threshold = 25 * 1024 * 1024

abbrev pub encode_to_vec : Content → Bytes
encode_to_vec (prekey_message b) = b
encode_to_vec (regular_message b) = b

abbrev pub content_bytes : Option Content → Bytes
content_bytes none = []
content_bytes (some c) = encode_to_vec c

abbrev pub size_of : ZenthSignalEnvelope → ℕ
size_of e = length (content_bytes e.content)

unfoldable pub envelope_signed_data : ZenthSignalEnvelope → Bytes
envelope_signed_data e =
    (((e.sender_hash_id ++ e.recipient_hash_id) ++ e.message_id) ++ u64_le_bytes e.timestamp)
    ++ content_bytes e.content

-- 9999-12-31 23:59:59
abbrev pub no_expiry : NaiveDateTime
no_expiry = seconds 253_402_300_799

-- `now + Duration::hours(n)`, which panics outside of chrono's range. A date before 1970 is 1970.
abbrev pub plus_hours : Formats → NaiveDateTime → ℤ → Option NaiveDateTime
plus_hours f now (pos n) = if leb (now + hours n) f.latest then some (now + hours n) else none
plus_hours f now (negsuc n) =
    if leb (hours (n + 1)) (now + f.before_epoch) then some (now - hours (n + 1)) else none

-- `sequence_number` carries the lifetime in hours, 0 for no end.
unfoldable pub expires_at : Formats → NaiveDateTime → ℕ → Option NaiveDateTime
expires_at f now zero = some no_expiry
expires_at f now (suc n) = plus_hours f now (as_i64 (suc n))

abbrev pub has_message_id : Bytes → MessageModel → Bool
has_message_id id m = bytes_eq m.message_id id

-- `message_id` is unique. A refused row has drawn its serial number.
unfoldable pub insert_message : (ℕ → MessageModel) → Db → DbResult (Unit {0}) × Db
insert_message row db =
    if any (has_message_id (row db.next_message).message_id) db.messages
    then (err unique_violation, record db { next_message = db.next_message + 1 })
    else (
      ok tt,
      record db {
        messages = db.messages ++ row db.next_message ∷ [];
        next_message = db.next_message + 1;
      },
    )

abbrev pub new_message : Readings → ZenthSignalEnvelope → NaiveDateTime → ℕ → MessageModel
new_message at e expiry id = record {
  id = id;
  message_id = e.message_id;
  sender_hash_id = e.sender_hash_id;
  recipient_hash_id = e.recipient_hash_id;
  content = content_bytes e.content;
  dilithium_signature = e.dilithium_signature;
  timestamp = as_i64 e.timestamp;
  server_timestamp = as_i64 at.unix_millis;
  delivered = false;
  created_at = at.db_now;
  expires_at = expiry;
}

abbrev pub send_refused : Message → Exit (Result SendMessageResponse)
send_refused m =
    returned
      (done (record { success = false; message_id = []; server_timestamp = 0; error_message = m }))

-- A limiter is asked only for the sizes above its threshold.
unfoldable pub large_admitted : Readings → Bytes → ℕ → Limiters → Bool × Limiters
large_admitted at sender size l =
    if ltb large_threshold size
    then large_msg_allowed l sender at.instant at.instant_read
    else (true, l)

unfoldable pub mid_admitted : Readings → Bytes → ℕ → Limiters → Bool × Limiters
mid_admitted at sender size l =
    if ltb mid_threshold size
    then mid_msg_allowed l sender at.instant at.instant_read
    else (true, l)

unfoldable pub ask : (Limiters → Bool × Limiters) → World → Bool × World
ask f w = let (admitted, l) = f w.limiters in (admitted, record w { limiters = l })

abbrev pub is_message_to : Bytes → Bytes → MessageModel → Bool
is_message_to id recipient m = has_message_id id m && bytes_eq m.recipient_hash_id recipient

abbrev pub delete_message : Bytes → Bytes → Db → DbResult (Unit {0}) × Db
delete_message id recipient db =
    (ok tt, record db { messages = retain (λ m. not (is_message_to id recipient m)) db.messages })

unfoldable pub ack_signed_data : MessageAck → Bytes
ack_signed_data req = (req.message_id ++ req.recipient_hash_id) ++ u64_le_bytes req.timestamp

abbrev pub ack_reply : DbResult (Unit {0}) → Result (Unit {0})
ack_reply (ok n) = done tt
ack_reply not_found = failed (text "Suppression échouée: NotFound")
ack_reply (err e) = failed (with_error "Suppression échouée: {}" e)

module _ (env : Env) (at : Readings) where
  module _ (formats : Formats) where
    unfoldable pub push_to_recipient : ZenthSignalEnvelope → World → Unit {0} × World
    push_to_recipient e w = elim w.manager [
      | none ↦ (tt, w)
      | some manager ↦
          (let note = formats.encode_notification at.unix_secs (record {
            sender_hash_id = e.sender_hash_id;
            message_id = e.message_id;
            timestamp = e.timestamp;
          }) in
            (
              tt,
              record w {
                manager = some (send_to_user env.listening e.recipient_hash_id note manager).1;
              },
            ))
    ]

    -- The handler from the expiry on. The sum that gives the expiry panics where it is no date.
    unfoldable pub store_message :
        ZenthSignalEnvelope
        → Option NaiveDateTime
        → Handler (Exit (Result SendMessageResponse)) (Exit (Result SendMessageResponse))
    store_message e none = give panicked
    store_message e (some expiry) = do
      inserted ← sql env (insert_message (new_message at e expiry))
      row_or inserted (returned (failed (text "NotFound")))
          (λ f. returned (failed (with_error "{}" f)))
      act (push_to_recipient e)
      give (
          returned (
            done (record {
              success = true;
              message_id = e.message_id;
              server_timestamp = as_u64 (as_i64 at.unix_millis);
              error_message = no_message;
            })))

    unfoldable pub send_message :
        ZenthSignalEnvelope → World → Exit (Result SendMessageResponse) × World
    send_message e = body do
      row ← sql env (select_user e.sender_hash_id)
      sender ←
          row_or row (send_refused (text "Sender not found"))
            (λ f. send_refused (text "Database error"))
      reject_if
          (not (
            verify_dilithium_signature env.dilithium sender.identity_key_dilithium
              (envelope_signed_data e) e.dilithium_signature))
          (send_refused (text "Invalid signature"))
      row' ← sql env (select_user e.recipient_hash_id)
      recipient ←
          row_or row' (send_refused (text "Recipient not found"))
            (λ f. send_refused (text "Database error"))
      reject_if (ltb max_threshold (size_of e)) (
          send_refused (
            text
              "Fichier trop volumineux : maximum 25 Mo par message (utilisez le transfert P2P pour les fichiers plus grands)"))
      large ← act (ask (large_admitted at e.sender_hash_id (size_of e)))
      reject_if (not large)
          (send_refused (text "Limite dépassée : 1 fichier > 10 Mo autorisé par 30 secondes"))
      mid ← act (ask (mid_admitted at e.sender_hash_id (size_of e)))
      reject_if (not mid)
          (send_refused (text "Limite dépassée : 1 fichier > 1 Mo autorisé par 10 secondes"))
      store_message e (expires_at formats at.utc e.sequence_number)

  unfoldable pub ack_message : MessageAck → World → Result (Unit {0}) × World
  ack_message req = body do
    reject_if (is_empty req.message_id || is_empty req.recipient_hash_id)
        (failed (text "message_id et recipient_hash_id requis"))
    reject_if (is_empty req.dilithium_signature) (failed (text "Signature Dilithium requise"))
    row ← sql env (select_user req.recipient_hash_id)
    user ←
        row_or row (failed (text "Destinataire introuvable"))
          (λ e. failed (with_error "DB error: {}" e))
    reject_if
        (not (
          verify_dilithium_signature env.dilithium user.identity_key_dilithium (ack_signed_data req)
            req.dilithium_signature))
        (failed (text "Signature invalide"))
    deleted ← sql env (delete_message req.message_id req.recipient_hash_id)
    give (ack_reply deleted)
