-- ===== src/Method/Recovery.antt =====
-- handlers/method/recovery.rs: a recovery key is published with the identity key, and later gives
-- the account a new identity key.
pub mod Claims
use zenth_dht.Prelude.{
  ℕ, ◌+◌, Bool, true, false, not, List, [], ◌++◌, Option, none, some, Bytes, u64_le_bytes, bytes_eq,
  is_empty, length, update_where, ◌==◌, if◌then◌else◌,
}
use zenth_dht.Models.{Db, User, Session, days}
use zenth_dht.Crypto.{verify_dilithium_signature}
use zenth_dht.Server.{
  DbResult, ok, not_found, err, Message, text, with_error, no_message, Result, done, failed, Env,
  Readings, World, Handler, ◌>>=◌, ◌>>◌, act, body, give, reject_if, row_or, sql,
}
use zenth_dht.Timestamp.{is_timestamp_fresh}
use zenth_dht.Method.Users.{is_user, select_user}
use zenth_dht.Method.Login.{insert_session}

pub record PublishRecoveryKeyRequest : Type 0 where
  pub username_hash : Bytes
  pub recovery_dilithium_pubkey : Bytes
  pub auth_signature : Bytes
  pub timestamp : ℕ

pub record PublishRecoveryKeyResponse : Type 0 where
  pub success : Bool
  pub error_message : Message

pub record RecoveryClaimRequest : Type 0 where
  pub username_hash : Bytes
  pub new_identity_dilithium_pubkey : Bytes
  pub new_identity_signature : Bytes
  pub new_pre_key_bundle : Bytes
  pub recovery_signature : Bytes
  pub timestamp : ℕ

pub record RecoveryClaimResponse : Type 0 where
  pub success : Bool
  pub session_token : Bytes
  pub error_message : Message

-- The signed message: username_hash || recovery_pubkey || timestamp.
unfoldable pub publish_signed_data : PublishRecoveryKeyRequest → Bytes
publish_signed_data req =
    (req.username_hash ++ req.recovery_dilithium_pubkey) ++ u64_le_bytes req.timestamp

-- The signed message: username_hash || new_identity_pubkey || timestamp.
unfoldable pub claim_signed_data : RecoveryClaimRequest → Bytes
claim_signed_data req =
    (req.username_hash ++ req.new_identity_dilithium_pubkey) ++ u64_le_bytes req.timestamp

-- `UPDATE users SET .. WHERE user_hash_id = hash`
abbrev pub update_user : Bytes → (User → User) → Db → DbResult (Unit {0}) × Db
update_user hash f db = (ok tt, record db { users = update_where (is_user hash) f db.users })

abbrev pub with_recovery_key : Bytes → User → User
with_recovery_key key u = record u { recovery_dilithium_pubkey = some key }

abbrev pub with_identity : RecoveryClaimRequest → User → User
with_identity req u = record u {
  identity_key_dilithium = req.new_identity_dilithium_pubkey;
  identity_signature = req.new_identity_signature;
  pre_key_bundle = req.new_pre_key_bundle;
}

-- `.as_deref().filter(|k| !k.is_empty())`, where `None` is the query's answer for no row
abbrev pub recovery_key : User → DbResult Bytes
recovery_key u = elim u.recovery_dilithium_pubkey [
  | none ↦ not_found
  | some k ↦ (if is_empty k then not_found else ok k)
]

abbrev pub publish_refused : Message → Result PublishRecoveryKeyResponse
publish_refused m = done (record { success = false; error_message = m })

abbrev pub claim_refused : Message → Result RecoveryClaimResponse
claim_refused m = done (record { success = false; session_token = []; error_message = m })

module _ (env : Env) (at : Readings) where
  abbrev pub recovery_session : Bytes → Session
  recovery_session hash = record {
    session_token = at.random_token;
    user_hash_id = hash;
    session_expiry = at.utc + days 30;
    created_at = at.db_now;
  }

  unfoldable pub publish_recovery_key :
      PublishRecoveryKeyRequest → World → Result PublishRecoveryKeyResponse × World
  publish_recovery_key req = body do
    reject_if (not (length req.username_hash == 32)) (failed (text "username_hash invalide"))
    reject_if (is_empty req.recovery_dilithium_pubkey)
        (failed (text "recovery_dilithium_pubkey vide"))
    reject_if (is_empty req.auth_signature) (failed (text "auth_signature vide"))
    reject_if (not (is_timestamp_fresh at.unix_secs req.timestamp))
        (failed (text "Request timestamp expired"))
    row ← sql env (select_user req.username_hash)
    user ←
        row_or row (failed (text "Utilisateur introuvable"))
          (λ e. failed (text "Utilisateur introuvable"))
    reject_if
        (not (
          verify_dilithium_signature env.dilithium user.identity_key_dilithium
            (publish_signed_data req) req.auth_signature))
        (publish_refused (text "Signature invalide"))
    updated ←
        sql env (update_user req.username_hash (with_recovery_key req.recovery_dilithium_pubkey))
    row_or updated (failed (text "DB update: NotFound"))
        (λ e. failed (with_error "DB update: {}" e))
    give (done (record { success = true; error_message = no_message }))

  -- `Issue a new session token`, and the response.
  unfoldable pub issue_session :
      Bytes → Handler (Result RecoveryClaimResponse) (Result RecoveryClaimResponse)
  issue_session hash = do
    inserted ← sql env (insert_session (recovery_session hash))
    row_or inserted (failed (text "DB insert session: NotFound"))
        (λ e. failed (with_error "DB insert session: {}" e))
    give (
        done
          (record { success = true; session_token = at.random_token; error_message = no_message }))

  unfoldable pub recovery_claim :
      RecoveryClaimRequest → World → Result RecoveryClaimResponse × World
  recovery_claim req = body do
    reject_if (not (length req.username_hash == 32)) (failed (text "username_hash invalide"))
    reject_if (is_empty req.new_identity_dilithium_pubkey)
        (failed (text "new_identity_dilithium_pubkey vide"))
    reject_if (is_empty req.recovery_signature) (failed (text "recovery_signature vide"))
    reject_if (not (is_timestamp_fresh at.unix_secs req.timestamp))
        (failed (text "Request timestamp expired"))
    row ← sql env (select_user req.username_hash)
    user ←
        row_or row (failed (text "Utilisateur introuvable"))
          (λ e. failed (text "Utilisateur introuvable"))
    key ←
        row_or (recovery_key user)
          (failed (text "Aucune clé de récupération enregistrée pour ce compte"))
          (λ e. failed no_message)
    reject_if
        (not (
          verify_dilithium_signature env.dilithium key (claim_signed_data req)
            req.recovery_signature))
        (claim_refused (text "Signature de récupération invalide"))
    updated ← sql env (update_user req.username_hash (with_identity req))
    row_or updated (failed (text "DB update identity: NotFound"))
        (λ e. failed (with_error "DB update identity: {}" e))
    issue_session req.username_hash
