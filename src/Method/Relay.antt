-- ===== src/Method/Relay.antt =====
-- handlers/method/relay.rs: the mailbox of a device: push, fetch and acknowledge.
-- The requests and responses have the fields of zenth_dto's messages that the code uses.
mod Dto
pub mod Push
pub mod Fetch
pub mod Ack
mod Tests
pub use Dto.*
use Prim.Native.Nat.{min, max}
use zenth_dht.Prelude.{
  ℕ, zero, suc, ◌+◌, Bool, true, false, not, ◌&&◌, ◌||◌, List, [], ◌∷◌, ◌++◌, map, String, Bytes, ℤ,
  pos, lt_ℤb, le_ℤb, as_u64, u64_le_bytes, bytes_eq, is_empty, length, retain, take, order_by, ltb,
  ◌==◌, if◌then◌else◌,
}
use zenth_dht.Models.{Db, RelayMessage, NaiveDateTime, seconds}
use zenth_dht.Crypto.{verify_dilithium_signature}
use zenth_dht.Timestamp.{is_timestamp_fresh}
use zenth_dht.RateLimit.{relay_push_allowed}
use zenth_dht.Server.{
  DbResult, ok, not_found, err, Message, text, with_error, no_message, Result, done, failed, Env,
  Readings, World, ◌>>=◌, ◌>>◌, act, body, give, reject_if, sql,
}

abbrev pub max_ttl : ℕ
max_ttl = 86_400

abbrev pub default_limit : ℕ
default_limit = 50

abbrev pub max_limit : ℕ
max_limit = 200

-- `INSERT ... RETURNING id`
unfoldable pub insert_relay_message : (ℕ → RelayMessage) → Db → DbResult ℕ × Db
insert_relay_message row db = (
  ok db.next_relay_message,
  record db {
    relay_messages = db.relay_messages ++ row db.next_relay_message ∷ [];
    next_relay_message = db.next_relay_message + 1;
  },
)

-- `req.ttl_secs.min(MAX_TTL).max(60)`
abbrev pub relay_ttl : ℕ → ℕ
relay_ttl ttl_secs = max (min ttl_secs max_ttl) 60

unfoldable pub push_signed_data : RelayPushRequest → Bytes
push_signed_data req = req.for_device_dilithium_pubkey ++ u64_le_bytes req.timestamp

abbrev pub push_refused : Message → Result RelayPushResponse
push_refused m = done (record { success = false; relay_id = 0; error_message = m })

abbrev pub push_reply : DbResult ℕ → Result RelayPushResponse
push_reply (ok id) = done (record { success = true; relay_id = id; error_message = no_message })
push_reply not_found = push_refused (text "DB error: NotFound")
push_reply (err e) = push_refused (with_error "DB error: {}" e)

abbrev pub new_relay_message : Readings → RelayPushRequest → ℕ → RelayMessage
new_relay_message at req id = record {
  id = id;
  for_device_dilithium_pubkey = req.for_device_dilithium_pubkey;
  ciphertext = req.ciphertext;
  nonce = req.nonce;
  expires_at = at.utc + seconds (relay_ttl req.ttl_secs);
}

-- The rows of a device that are newer than `since` and not expired, the oldest first.
unfoldable pub pending : Bytes → ℤ → NaiveDateTime → List RelayMessage → List RelayMessage
pending device since now rows =
    order_by (λ r. r.id)
      (retain
        (λ r.
          bytes_eq r.for_device_dilithium_pubkey device
          && lt_ℤb since (pos r.id)
          && ltb now r.expires_at)
        rows)

-- `match req.limit { 0 => DEFAULT_LIMIT, n => n.min(MAX_LIMIT) }`
abbrev pub relay_limit : ℕ → ℕ
relay_limit zero = default_limit
relay_limit (suc n) = min (suc n) max_limit

abbrev pub select_pending : Bytes → ℤ → NaiveDateTime → ℕ → Db → DbResult (List RelayMessage) × Db
select_pending device since now limit db =
    (ok (take limit (pending device since now db.relay_messages)), db)

abbrev pub to_entry : RelayMessage → RelayEntry
to_entry r = record { id = r.id; ciphertext = r.ciphertext; nonce = r.nonce }

unfoldable pub fetch_signed_data : RelayFetchRequest → Bytes
fetch_signed_data req =
    (req.for_device_dilithium_pubkey ++ u64_le_bytes (as_u64 req.since_id))
    ++ u64_le_bytes req.timestamp

abbrev pub fetch_refused : Message → Result RelayFetchResponse
fetch_refused m = done (record { success = false; entries = []; error_message = m })

abbrev pub fetch_reply : DbResult (List RelayMessage) → Result RelayFetchResponse
fetch_reply (ok rows) =
    done (record { success = true; entries = map to_entry rows; error_message = no_message })
fetch_reply not_found = failed (text "DB error: NotFound")
fetch_reply (err e) = failed (with_error "DB error: {}" e)

unfoldable pub is_acknowledged : Bytes → ℤ → RelayMessage → Bool
is_acknowledged device up_to r =
    bytes_eq r.for_device_dilithium_pubkey device && le_ℤb (pos r.id) up_to

abbrev pub delete_acknowledged : Bytes → ℤ → Db → DbResult (Unit {0}) × Db
delete_acknowledged device up_to db = (
  ok tt,
  record db {
    relay_messages = retain (λ r. not (is_acknowledged device up_to r)) db.relay_messages;
  },
)

unfoldable pub ack_signed_data : RelayAckRequest → Bytes
ack_signed_data req =
    (req.for_device_dilithium_pubkey ++ u64_le_bytes (as_u64 req.up_to_id))
    ++ u64_le_bytes req.timestamp

abbrev pub ack_refused : Message → Result RelayAckResponse
ack_refused m = done (record { success = false; error_message = m })

abbrev pub ack_reply : DbResult (Unit {0}) → Result RelayAckResponse
ack_reply (ok n) = done (record { success = true; error_message = no_message })
ack_reply not_found = ack_refused (text "DB error: NotFound")
ack_reply (err e) = ack_refused (with_error "DB error: {}" e)

unfoldable pub relay_push_admitted : Readings → Bytes → World → Bool × World
relay_push_admitted at key w =
    let (admitted, l) = relay_push_allowed w.limiters key at.instant at.instant_read in
    (admitted, record w { limiters = l })

module _ (env : Env) (at : Readings) where
  unfoldable pub push_relay : RelayPushRequest → World → Result RelayPushResponse × World
  push_relay req = body do
    reject_if (is_empty req.for_device_dilithium_pubkey) (push_refused (text "destinataire vide"))
    reject_if (is_empty req.ciphertext || not (length req.nonce == 12))
        (push_refused (text "ciphertext ou nonce invalide"))
    reject_if (is_empty req.sender_dilithium_pubkey || is_empty req.sender_signature)
        (push_refused (text "sender_dilithium_pubkey et sender_signature requis"))
    reject_if (not (is_timestamp_fresh at.unix_secs req.timestamp))
        (push_refused (text "Request timestamp expired"))
    admitted ← act (relay_push_admitted at req.sender_dilithium_pubkey)
    reject_if (not admitted) (push_refused (text "Rate limit dépassé - réessayez dans 1 minute"))
    reject_if
        (not (
          verify_dilithium_signature env.dilithium req.sender_dilithium_pubkey
            (push_signed_data req) req.sender_signature))
        (push_refused (text "Signature invalide"))
    inserted ← sql env (insert_relay_message (new_relay_message at req))
    give (push_reply inserted)

  unfoldable pub fetch_relay : RelayFetchRequest → World → Result RelayFetchResponse × World
  fetch_relay req = body do
    reject_if (is_empty req.for_device_dilithium_pubkey) (fetch_refused (text "destinataire vide"))
    reject_if (is_empty req.signature) (fetch_refused (text "signature requise"))
    reject_if (not (is_timestamp_fresh at.unix_secs req.timestamp))
        (fetch_refused (text "Request timestamp expired"))
    reject_if
        (not (
          verify_dilithium_signature env.dilithium req.for_device_dilithium_pubkey
            (fetch_signed_data req) req.signature))
        (fetch_refused (text "Signature invalide"))
    rows ←
        sql env (
          select_pending req.for_device_dilithium_pubkey req.since_id at.utc
            (relay_limit req.limit))
    give (fetch_reply rows)

  unfoldable pub ack_relay : RelayAckRequest → World → Result RelayAckResponse × World
  ack_relay req = body do
    reject_if (is_empty req.for_device_dilithium_pubkey) (ack_refused (text "destinataire vide"))
    reject_if (is_empty req.signature) (ack_refused (text "signature requise"))
    reject_if (not (is_timestamp_fresh at.unix_secs req.timestamp))
        (ack_refused (text "Request timestamp expired"))
    reject_if
        (not (
          verify_dilithium_signature env.dilithium req.for_device_dilithium_pubkey
            (ack_signed_data req) req.signature))
        (ack_refused (text "Signature invalide"))
    deleted ← sql env (delete_acknowledged req.for_device_dilithium_pubkey req.up_to_id)
    give (ack_reply deleted)
