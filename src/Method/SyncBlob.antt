-- ===== src/Method/SyncBlob.antt =====
-- handlers/method/sync_blob.rs: the one blob that waits for a device.
-- The requests and responses have the fields of zenth_dto's messages that the code uses.
pub mod Outcomes
pub mod Blobs
mod Tests
use Prim.Native.Nat.{min, max}
use zenth_dht.Prelude.{
  ℕ, ◌+◌, Bool, true, false, not, ◌&&◌, ◌||◌, List, [], ◌∷◌, ◌++◌, Option, none, some, Bytes,
  u64_le_bytes, bytes_eq, is_empty, retain, find, any, update_where, ltb, if◌then◌else◌,
}
use zenth_dht.Models.{Db, SyncBlob, NaiveDateTime, seconds}
use zenth_dht.Crypto.{verify_dilithium_signature}
use zenth_dht.Timestamp.{is_timestamp_fresh}
use zenth_dht.RateLimit.{blob_push_allowed}
use zenth_dht.Server.{
  DbResult, ok, not_found, err, Message, text, with_error, no_message, Result, done, failed, Env,
  Readings, World, ◌>>=◌, ◌>>◌, act, body, give, reject_if, sql,
}

pub record SyncPushBlobRequest : Type 0 where
  pub for_device_dilithium_pubkey : Bytes
  pub ciphertext : Bytes
  pub signature : Bytes
  pub sender_dilithium_pubkey : Bytes
  pub auth_signature : Bytes
  pub timestamp : ℕ
  pub ttl_secs : ℕ

-- The response to a push and to a deletion.
pub record SyncResponse : Type 0 where
  pub success : Bool
  pub error_message : Message

-- The request of `fetch_blob` and of `delete_blob`.
pub record SyncBlobRequest : Type 0 where
  pub for_device_dilithium_pubkey : Bytes
  pub requester_dilithium_pubkey : Bytes
  pub signature : Bytes
  pub timestamp : ℕ

pub record SyncFetchBlobResponse : Type 0 where
  pub success : Bool
  pub ciphertext : Bytes
  pub signature : Bytes
  pub error_message : Message

-- `req.ttl_secs.min(3600).max(60)`
abbrev pub blob_ttl : ℕ → ℕ
blob_ttl ttl_secs = max (min ttl_secs 3600) 60

abbrev pub is_for : Bytes → SyncBlob → Bool
is_for device b = bytes_eq b.for_device_dilithium_pubkey device

-- `INSERT ... ON CONFLICT (for_device_dilithium_pubkey) DO UPDATE`
unfoldable pub put_blob : SyncBlob → List SyncBlob → List SyncBlob
put_blob row rows =
    if any (is_for row.for_device_dilithium_pubkey) rows
    then update_where (is_for row.for_device_dilithium_pubkey)
        (λ b. record b {
          ciphertext = row.ciphertext;
          signature = row.signature;
          expires_at = row.expires_at;
        })
        rows
    else rows ++ row ∷ []

abbrev pub upsert_blob : SyncBlob → Db → DbResult (Unit {0}) × Db
upsert_blob row db = (ok tt, record db { sync_blobs = put_blob row db.sync_blobs })

unfoldable pub push_signed_data : SyncPushBlobRequest → Bytes
push_signed_data req =
    (req.for_device_dilithium_pubkey ++ req.ciphertext) ++ u64_le_bytes req.timestamp

abbrev pub refused : Message → Result SyncResponse
refused m = done (record { success = false; error_message = m })

abbrev pub reply : DbResult (Unit {0}) → Result SyncResponse
reply (ok n) = done (record { success = true; error_message = no_message })
reply not_found = refused (text "DB error: NotFound")
reply (err e) = refused (with_error "DB error: {}" e)

abbrev pub new_blob : Readings → SyncPushBlobRequest → SyncBlob
new_blob at req = record {
  for_device_dilithium_pubkey = req.for_device_dilithium_pubkey;
  ciphertext = req.ciphertext;
  signature = req.signature;
  expires_at = at.utc + seconds (blob_ttl req.ttl_secs);
}

-- The key with which a requester signs: its own in a pairing, or the device's.
abbrev pub verify_key : SyncBlobRequest → Bytes
verify_key req =
    if is_empty req.requester_dilithium_pubkey
    then req.for_device_dilithium_pubkey
    else req.requester_dilithium_pubkey

unfoldable pub blob_signed_data : SyncBlobRequest → Bytes
blob_signed_data req = req.for_device_dilithium_pubkey ++ u64_le_bytes req.timestamp

-- The device's row, unless it has expired.
unfoldable pub current_blob : Bytes → NaiveDateTime → List SyncBlob → Option SyncBlob
current_blob device now = find (λ b. is_for device b && ltb now b.expires_at)

abbrev first : Option SyncBlob → DbResult SyncBlob
first none = not_found
first (some b) = ok b

abbrev pub select_blob : Bytes → NaiveDateTime → Db → DbResult SyncBlob × Db
select_blob device now db = (first (current_blob device now db.sync_blobs), db)

abbrev pub fetch_refused : Message → Result SyncFetchBlobResponse
fetch_refused m =
    done (record { success = false; ciphertext = []; signature = []; error_message = m })

abbrev pub fetch_reply : DbResult SyncBlob → Result SyncFetchBlobResponse
fetch_reply (ok b) = done (record {
  success = true;
  ciphertext = b.ciphertext;
  signature = b.signature;
  error_message = no_message;
})
fetch_reply not_found = fetch_refused (text "Blob introuvable ou expiré")
fetch_reply (err e) = fetch_refused (with_error "DB error: {}" e)

abbrev pub delete_blobs : Bytes → Db → DbResult (Unit {0}) × Db
delete_blobs device db =
    (ok tt, record db { sync_blobs = retain (λ b. not (is_for device b)) db.sync_blobs })

unfoldable pub blob_push_admitted : Readings → Bytes → World → Bool × World
blob_push_admitted at key w =
    let (admitted, l) = blob_push_allowed w.limiters key at.instant at.instant_read in
    (admitted, record w { limiters = l })

module _ (env : Env) (at : Readings) where
  unfoldable pub push_blob : SyncPushBlobRequest → World → Result SyncResponse × World
  push_blob req = body do
    reject_if (is_empty req.for_device_dilithium_pubkey)
        (refused (text "for_device_dilithium_pubkey vide"))
    reject_if (is_empty req.ciphertext) (refused (text "ciphertext vide"))
    reject_if (is_empty req.sender_dilithium_pubkey || is_empty req.auth_signature)
        (refused (text "sender_dilithium_pubkey et auth_signature requis"))
    reject_if (not (is_timestamp_fresh at.unix_secs req.timestamp))
        (refused (text "Request timestamp expired"))
    admitted ← act (blob_push_admitted at req.sender_dilithium_pubkey)
    reject_if (not admitted) (refused (text "Rate limit dépassé - réessayez dans 1 minute"))
    reject_if
        (not (
          verify_dilithium_signature env.dilithium req.sender_dilithium_pubkey
            (push_signed_data req) req.auth_signature))
        (refused (text "Signature invalide"))
    inserted ← sql env (upsert_blob (new_blob at req))
    give (reply inserted)

  unfoldable pub fetch_blob : SyncBlobRequest → World → Result SyncFetchBlobResponse × World
  fetch_blob req = body do
    reject_if (is_empty req.for_device_dilithium_pubkey)
        (fetch_refused (text "for_device_dilithium_pubkey vide"))
    reject_if (is_empty req.signature) (fetch_refused (text "signature requise"))
    reject_if (not (is_timestamp_fresh at.unix_secs req.timestamp))
        (fetch_refused (text "Request timestamp expired"))
    reject_if
        (not (
          verify_dilithium_signature env.dilithium (verify_key req) (blob_signed_data req)
            req.signature))
        (fetch_refused (text "Signature invalide"))
    row ← sql env (select_blob req.for_device_dilithium_pubkey at.utc)
    give (fetch_reply row)

  unfoldable pub delete_blob : SyncBlobRequest → World → Result SyncResponse × World
  delete_blob req = body do
    reject_if (is_empty req.for_device_dilithium_pubkey)
        (refused (text "for_device_dilithium_pubkey vide"))
    reject_if (is_empty req.signature) (refused (text "signature requise"))
    reject_if (not (is_timestamp_fresh at.unix_secs req.timestamp))
        (refused (text "Request timestamp expired"))
    reject_if
        (not (
          verify_dilithium_signature env.dilithium (verify_key req) (blob_signed_data req)
            req.signature))
        (refused (text "Signature invalide"))
    deleted ← sql env (delete_blobs req.for_device_dilithium_pubkey)
    give (reply deleted)
