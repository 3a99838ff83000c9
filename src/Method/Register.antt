-- ===== src/Method/Register.antt =====
-- handlers/method/register.rs: a user is registered under the hash of the name.
pub mod Once
use package.text.Mathlib.Text.{find?}
use zenth_dht.Prelude.{
  ℕ, ◌+◌, Bool, true, false, not, ◌||◌, List, [], ◌∷◌, ◌++◌, Option, none, some, String, Bytes, ℤ,
  is_empty, length, any, ◌==◌, if◌then◌else◌,
}
use zenth_dht.Models.{Db, User}
use zenth_dht.Server.{
  DbResult, ok, not_found, err, DbError, unique_violation, connection_failure, Message, text,
  with_number, with_error, no_message, Result, done, failed, Env, Readings, World, ◌>>=◌, ◌>>◌, act,
  body, give, reject_if, sql,
}
use zenth_dht.Method.Users.{is_user}

pub record RegistrationRequest : Type 0 where
  pub username_hash : Bytes
  pub pre_key_bundle : Bytes
  pub password_commitment : Bytes
  pub identity_key_dilithium : Bytes
  pub identity_signature : Bytes
  pub proof_type : ℤ

pub record RegistrationResponse : Type 0 where
  pub success : Bool
  pub user_hash_id : Bytes
  pub error_message : Message

-- `s.contains(part)`
abbrev contains : String → String → Bool
contains s part = elim (find? s part) [ none ↦ false | some at ↦ true ]

-- PostgreSQL's text for a violated key has both phrases; another failure may quote anything.
unfoldable pub is_duplicate : DbError → Bool
is_duplicate unique_violation = true
is_duplicate (connection_failure s) = contains s "duplicate key" || contains s "unique constraint"

-- `user_hash_id` is the primary key.
unfoldable pub insert_user : User → Db → DbResult (Unit {0}) × Db
insert_user row db =
    if any (is_user row.user_hash_id) db.users
    then (err unique_violation, db)
    else (ok tt, record db { users = db.users ++ row ∷ [] })

abbrev pub new_user : Readings → RegistrationRequest → User
new_user at req = record {
  user_hash_id = req.username_hash;
  password_commitment = req.password_commitment;
  identity_key_dilithium = req.identity_key_dilithium;
  identity_signature = req.identity_signature;
  pre_key_bundle = req.pre_key_bundle;
  proof_type = req.proof_type;
  created_at = at.db_now;
  recovery_dilithium_pubkey = none;
}

abbrev pub refused : Message → Result RegistrationResponse
refused m = done (record { success = false; user_hash_id = []; error_message = m })

abbrev pub reply : RegistrationRequest → DbResult (Unit {0}) → Result RegistrationResponse
reply req (ok n) =
    done (record { success = true; user_hash_id = req.username_hash; error_message = no_message })
reply req not_found = refused (text "Database error: NotFound")
reply req (err e) =
    if is_duplicate e
    then refused (text "User already exists")
    else refused (with_error "Database error: {}" e)

module _ (env : Env) (at : Readings) where
  unfoldable pub register : RegistrationRequest → World → Result RegistrationResponse × World
  register req = body do
    reject_if (is_empty req.username_hash) (failed (text "Username hash vide"))
    reject_if (not (length req.username_hash == 32)) (
        failed (
          with_number "Username hash invalide: attendu 32 bytes, reçu {}"
            (length req.username_hash)))
    reject_if (is_empty req.pre_key_bundle) (failed (text "Pre-key bundle vide"))
    reject_if (is_empty req.password_commitment) (failed (text "Password commitment vide"))
    reject_if (is_empty req.identity_key_dilithium) (failed (text "Identity key vide"))
    reject_if (is_empty req.identity_signature) (failed (text "Identity signature vide"))
    inserted ← sql env (insert_user (new_user at req))
    give (reply req inserted)
