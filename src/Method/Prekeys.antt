-- ===== src/Method/Prekeys.antt =====
-- handlers/method/upload_prekeys.rs, replenish_prekeys.rs, check_prekey_count.rs and
-- fetch_prekey_bundle.rs: the one-time prekeys of a user.
-- The requests and responses have the fields of zenth_dto's messages that the code uses.
mod Dto
pub mod Table
pub mod Delivery
pub mod Race
pub mod Upload
pub mod Signed
mod Tests
pub use Dto.*
use zenth_dht.Prelude.{
  ℕ, zero, suc, ◌+◌, ◌%◌, ◌^◌, Bool, true, false, not, ◌&&◌, ◌||◌, List, [], ◌∷◌, ◌++◌, Option,
  none, some, Bytes, ℤ, u64_le_bytes, bytes_eq, is_empty, length, retain, find, any, update_where,
  order_by, ◌==◌, if◌then◌else◌,
}
use zenth_dht.Models.{Db, User, OneTimePrekey, NaiveDateTime}
use zenth_dht.Crypto.{verify_dilithium_signature}
use zenth_dht.Timestamp.{is_timestamp_fresh}
use zenth_dht.Server.{
  DbResult, ok, not_found, err, DbError, Message, text, with_error, no_message, Result, done,
  failed, Env, Readings, World, Handler, ◌>>=◌, ◌>>◌, act, body, give, reject_if, row_or, sql,
}
use zenth_dht.Method.Users.{first_row, select_user}
use zenth_dht.Method.Prekeys.Table.{
  PreKey, insert_prekeys, select_unused_count, select_unused, update_used,
}

-- `n as u32`
abbrev pub as_u32 : ℕ → ℕ
as_u32 n = n % 2 ^ 32

-- What a user signs to upload, to replenish and to count: hash || timestamp.
unfoldable pub user_signed_data : Bytes → ℕ → Bytes
user_signed_data hash timestamp = hash ++ u64_le_bytes timestamp

unfoldable pub bundle_signed_data : FetchPreKeyBundleRequest → Bytes
bundle_signed_data req = (req.requester_hash ++ req.target_hash) ++ u64_le_bytes req.timestamp

-- `hash.is_empty() || hash.len() != 32`
abbrev pub is_bad_hash : Bytes → Bool
is_bad_hash hash = is_empty hash || not (length hash == 32)

abbrev pub prekeys_refused : Message → Result PreKeysResponse
prekeys_refused m = done (record { success = false; count = 0; error_message = m })

abbrev pub prekeys_reply : ℕ → Result PreKeysResponse
prekeys_reply n = done (record { success = true; count = as_u32 n; error_message = no_message })

abbrev pub count_refused : Message → Result CheckPreKeyCountResponse
count_refused m = done (record {
  success = false;
  one_time_prekey_count = 0;
  has_signed_prekey = false;
  has_kyber_prekey = false;
  error_message = m;
})

abbrev pub bundle_refused : Message → Result FetchPreKeyBundleResponse
bundle_refused m = done (record { success = false; bundle = none; error_message = m })

abbrev pub bundle_reply : PreKeyBundle → Result FetchPreKeyBundleResponse
bundle_reply b = done (record { success = true; bundle = some b; error_message = no_message })

-- `.map_err(|e| format!("Database error: {}", e))?`
abbrev pub db_failed {ℓ} : {A : Type ℓ} → DbError → Result A
db_failed e = failed (with_error "Database error: {}" e)

abbrev pub has_signed : Option PreKeyBundle → Bool
has_signed none = false
has_signed (some b) = not (is_empty b.signed_pre_key_public)

abbrev pub has_kyber : Option PreKeyBundle → Bool
has_kyber none = false
has_kyber (some b) = elim b.pq_pre_key_public [ none ↦ false | some k ↦ true ]

-- `bundle.pre_key_id = ..; bundle.pre_key_public = ..`
abbrev pub with_prekey : PreKeyBundle → OneTimePrekey → PreKeyBundle
with_prekey b k = record b { pre_key_id = k.prekey_id; pre_key_public = k.public_key }

-- `PreKeyBundle::decode` of prost is a parameter.
module _ (env : Env) (decode_bundle : Bytes → Option PreKeyBundle) (at : Readings) where
  unfoldable pub upload_prekeys : PreKeysRequest → World → Result PreKeysResponse × World
  upload_prekeys req = body do
    reject_if (is_bad_hash req.username_hash) (prekeys_refused (text "Invalid username hash"))
    reject_if (is_empty req.auth_signature) (prekeys_refused (text "Auth signature required"))
    reject_if (not (is_timestamp_fresh at.unix_secs req.timestamp))
        (prekeys_refused (text "Request timestamp expired"))
    reject_if (is_empty req.prekeys) (prekeys_refused (text "No prekeys provided"))
    row ← sql env (select_user req.username_hash)
    user ← row_or row (prekeys_refused (text "User not found")) db_failed
    reject_if
        (not (
          verify_dilithium_signature env.dilithium user.identity_key_dilithium
            (user_signed_data req.username_hash req.timestamp) req.auth_signature))
        (prekeys_refused (text "Invalid signature"))
    inserted ← sql env (insert_prekeys req.username_hash at.db_now req.prekeys)
    n ← row_or inserted (failed (text "Database error: NotFound")) db_failed
    give (prekeys_reply n)

  unfoldable pub replenish_prekeys : PreKeysRequest → World → Result PreKeysResponse × World
  replenish_prekeys req = body do
    reject_if (is_bad_hash req.username_hash) (prekeys_refused (text "Invalid username hash"))
    reject_if (is_empty req.auth_signature) (prekeys_refused (text "Auth signature required"))
    reject_if (is_empty req.prekeys) (prekeys_refused (text "No prekeys provided"))
    row ← sql env (select_user req.username_hash)
    user ← row_or row (prekeys_refused (text "User not found")) db_failed
    reject_if
        (not (
          verify_dilithium_signature env.dilithium user.identity_key_dilithium
            (user_signed_data req.username_hash req.timestamp) req.auth_signature))
        (prekeys_refused (text "Invalid signature"))
    inserted ← sql env (insert_prekeys req.username_hash at.db_now req.prekeys)
    n ← row_or inserted (failed (text "Database error: NotFound")) db_failed
    counted ← sql env (select_unused_count req.username_hash)
    total ← row_or counted (failed (text "Database error: NotFound")) db_failed
    give (prekeys_reply total)

  unfoldable pub check_prekey_count :
      CheckPreKeyCountRequest → World → Result CheckPreKeyCountResponse × World
  check_prekey_count req = body do
    reject_if (is_bad_hash req.username_hash) (count_refused (text "Invalid username hash"))
    reject_if (is_empty req.auth_signature) (count_refused (text "Auth signature required"))
    row ← sql env (select_user req.username_hash)
    user ← row_or row (count_refused (text "User not found")) db_failed
    reject_if
        (not (
          verify_dilithium_signature env.dilithium user.identity_key_dilithium
            (user_signed_data req.username_hash req.timestamp) req.auth_signature))
        (count_refused (text "Invalid signature"))
    counted ← sql env (select_unused_count req.username_hash)
    count ← row_or counted (failed (text "Database error: NotFound")) db_failed
    give (
        done (record {
          success = true;
          one_time_prekey_count = as_u32 count;
          has_signed_prekey = has_signed (decode_bundle user.pre_key_bundle);
          has_kyber_prekey = has_kyber (decode_bundle user.pre_key_bundle);
          error_message = no_message;
        }))

  -- `if let Some(..) = otpk { update; bundle.pre_key_id = ..; }` and the response
  unfoldable pub consume :
      PreKeyBundle
      → Option OneTimePrekey
      → Handler (Result FetchPreKeyBundleResponse) (Result FetchPreKeyBundleResponse)
  consume b none = give (bundle_reply b)
  consume b (some k) = do
    marked ← sql env (update_used k.id)
    row_or marked (failed (text "Failed to mark OTPK as used: NotFound"))
        (λ e. failed (with_error "Failed to mark OTPK as used: {}" e))
    give (bundle_reply (with_prekey b k))

  -- What follows the query for a prekey: `.map_err(..)?`, and `consume`.
  unfoldable pub hand_out :
      PreKeyBundle
      → DbResult (Option OneTimePrekey)
      → Handler (Result FetchPreKeyBundleResponse) (Result FetchPreKeyBundleResponse)
  hand_out b picked = do
    otpk ← row_or picked (failed (text "Database error: NotFound")) db_failed
    consume b otpk

  -- The rest of the handler, once the target's bundle is decoded.
  unfoldable pub deliver :
      Bytes
      → Option PreKeyBundle
      → Handler (Result FetchPreKeyBundleResponse) (Result FetchPreKeyBundleResponse)
  deliver target none = give (bundle_refused (text "Failed to decode user's PreKeyBundle"))
  deliver target (some b) = do picked ← sql env (select_unused target); hand_out b picked

  unfoldable pub fetch_prekey_bundle :
      FetchPreKeyBundleRequest → World → Result FetchPreKeyBundleResponse × World
  fetch_prekey_bundle req = body do
    reject_if (is_bad_hash req.requester_hash) (bundle_refused (text "Invalid requester hash"))
    reject_if (is_bad_hash req.target_hash) (bundle_refused (text "Invalid target hash"))
    reject_if (is_empty req.auth_signature) (bundle_refused (text "Auth signature is required"))
    row ← sql env (select_user req.requester_hash)
    requester ← row_or row (bundle_refused (text "Requester not found")) db_failed
    reject_if
        (not (
          verify_dilithium_signature env.dilithium requester.identity_key_dilithium
            (bundle_signed_data req) req.auth_signature))
        (bundle_refused (text "Invalid signature"))
    row' ← sql env (select_user req.target_hash)
    target ← row_or row' (bundle_refused (text "Target user not found")) db_failed
    deliver req.target_hash (decode_bundle target.pre_key_bundle)
