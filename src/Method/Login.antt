-- ===== src/Method/Login.antt =====
-- handlers/method/login.rs: the login in two steps, a challenge and its proof.
-- The requests and responses have the fields of zenth_dto's messages that the code uses.
mod Dto
pub mod Proof
pub mod Once
pub use Dto.*
use zenth_dht.Prelude.{
  str_eq, ℕ, zero, ◌+◌, ◌/◌, Bool, true, false, not, ◌&&◌, List, [], ◌∷◌, ◌++◌, Option, none, some,
  String, Bytes, ℤ, pos, u64_le_bytes, bytes_eq, is_empty, length, retain, find, any, ltb, ◌==◌,
  if◌then◌else◌,
}
use zenth_dht.Models.{Db, User, AuthChallenge, Session, ConfigEntry, NaiveDateTime, seconds, hours}
use zenth_dht.Crypto.{verify_dilithium_signature}
use zenth_dht.Server.{
  DbResult, ok, not_found, err, DbError, unique_violation, Message, text, with_number, no_message,
  Result, done, Env, Readings, World, Handler, ◌>>=◌, ◌>>◌, act, body, give, reject_if, row_or, sql,
}
use zenth_dht.Method.Users.{first_row, select_user}

abbrev pub challenge_expiry_seconds : ℕ
challenge_expiry_seconds = 300

abbrev pub session_expiry_hours : ℕ
session_expiry_hours = 24

abbrev pub refused : Message → Result LoginResponse
refused m = done (record {
  success = false;
  challenge = none;
  session_token = [];
  session_expiry = 0;
  error_message = m;
  version_outdated = none;
})

abbrev pub outdated : String → Result LoginResponse
outdated required = done (record {
  success = false;
  challenge = none;
  session_token = [];
  session_expiry = 0;
  error_message = no_message;
  version_outdated = some (record { min_version = required; latest_version = required });
})

abbrev pub challenged : DtoAuthChallenge → Result LoginResponse
challenged c = done (record {
  success = true;
  challenge = some c;
  session_token = [];
  session_expiry = 0;
  error_message = no_message;
  version_outdated = none;
})

abbrev pub admitted : Bytes → ℕ → Result LoginResponse
admitted token expiry = done (record {
  success = true;
  challenge = none;
  session_token = token;
  session_expiry = expiry;
  error_message = no_message;
  version_outdated = none;
})

abbrev value_of : Option ConfigEntry → DbResult String
value_of none = not_found
value_of (some c) = ok c.value

-- The query of `get_required_version`.
abbrev pub select_required_version : Db → DbResult String × Db
select_required_version db =
    (value_of (find (λ c. str_eq c.key "required_version") db.app_config), db)

-- `if let Some(required) = ...ok() { if app_version != required { return } }`: the test ...
unfoldable pub is_outdated : DbResult String → String → Bool
is_outdated (ok required) version = not (str_eq version required)
is_outdated not_found version = false
is_outdated (err e) version = false

-- ... and the response.
abbrev pub outdated_reply : DbResult String → Result LoginResponse
outdated_reply (ok required) = outdated required
outdated_reply _ = refused no_message

abbrev pub is_challenge_of : Bytes → AuthChallenge → Bool
is_challenge_of hash c = bytes_eq c.user_hash_id hash

abbrev pub has_challenge_id : Bytes → AuthChallenge → Bool
has_challenge_id id c = bytes_eq c.challenge_id id

abbrev pub delete_challenges_of : Bytes → Db → DbResult (Unit {0}) × Db
delete_challenges_of hash db = (
  ok tt,
  record db { auth_challenges = retain (λ c. not (is_challenge_of hash c)) db.auth_challenges },
)

abbrev pub delete_challenge : Bytes → Db → DbResult (Unit {0}) × Db
delete_challenge id db = (
  ok tt,
  record db { auth_challenges = retain (λ c. not (has_challenge_id id c)) db.auth_challenges },
)

-- `challenge_id` is the primary key.
unfoldable pub insert_challenge : AuthChallenge → Db → DbResult (Unit {0}) × Db
insert_challenge row db =
    if any (has_challenge_id row.challenge_id) db.auth_challenges
    then (err unique_violation, db)
    else (ok tt, record db { auth_challenges = db.auth_challenges ++ row ∷ [] })

unfoldable pub find_challenge : Bytes → Bytes → Db → Option AuthChallenge
find_challenge id hash db =
    find (λ c. has_challenge_id id c && is_challenge_of hash c) db.auth_challenges

abbrev pub select_challenge : Bytes → Bytes → Db → DbResult AuthChallenge × Db
select_challenge id hash db = (first_row (find_challenge id hash db), db)

abbrev pub has_token : Bytes → Session → Bool
has_token token s = bytes_eq s.session_token token

-- `session_token` is the primary key.
unfoldable pub insert_session : Session → Db → DbResult (Unit {0}) × Db
insert_session row db =
    if any (has_token row.session_token) db.sessions
    then (err unique_violation, db)
    else (ok tt, record db { sessions = db.sessions ++ row ∷ [] })

unfoldable pub proof_signed_data : AuthChallenge → User → AuthProof → Bytes
proof_signed_data c user proof = (c.nonce ++ user.user_hash_id) ++ u64_le_bytes proof.timestamp

module _ (env : Env) (at : Readings) where
  abbrev pub new_challenge : Bytes → ℤ → AuthChallenge
  new_challenge hash proof_type = record {
    challenge_id = at.random_id;
    user_hash_id = hash;
    nonce = at.random_nonce;
    required_proof_type = proof_type;
    public_parameters = [];
    difficulty = pos 0;
    created_at = at.db_now;
    expires_at = at.utc + seconds challenge_expiry_seconds;
  }

  abbrev pub challenge_reply : ℤ → DbResult (Unit {0}) → Result LoginResponse
  challenge_reply proof_type (ok n) = challenged (record {
    challenge_id = at.random_id;
    nonce = at.random_nonce;
    required_proof_type = proof_type;
    public_parameters = [];
    timestamp = at.utc_later / 1_000_000;
    difficulty = pos 0;
  })
  challenge_reply proof_type _ = refused (text "Failed to create challenge")

  unfoldable pub handle_challenge_request :
      Bytes → ℤ → Handler (Result LoginResponse) (Result LoginResponse)
  handle_challenge_request hash proof_type = do
    sql env (delete_challenges_of hash)
    inserted ← sql env (insert_challenge (new_challenge hash proof_type))
    give (challenge_reply proof_type inserted)

  abbrev pub new_session : User → Session
  new_session user = record {
    session_token = at.random_token;
    user_hash_id = user.user_hash_id;
    session_expiry = at.utc + hours session_expiry_hours;
    created_at = at.db_now;
  }

  abbrev pub session_reply : DbResult (Unit {0}) → Result LoginResponse
  session_reply (ok n) =
      admitted at.random_token ((at.utc_later + hours session_expiry_hours) / 1_000_000)
  session_reply _ = refused (text "Failed to create session")

  -- `if now > expires_at { delete; return }`, and the rest of the handler otherwise
  unfoldable pub check_proof :
      User → AuthProof → AuthChallenge → Handler (Result LoginResponse) (Result LoginResponse)
  check_proof user proof c =
      if ltb c.expires_at at.utc
      then (do
        sql env (delete_challenge proof.challenge_id)
        give (refused (text "Challenge expired")))
      else (do
        reject_if
            (not (
              verify_dilithium_signature env.dilithium user.identity_key_dilithium
                (proof_signed_data c user proof) proof.proof))
            (refused (text "Invalid proof signature"))
        sql env (delete_challenge proof.challenge_id)
        inserted ← sql env (insert_session (new_session user))
        give (session_reply inserted))

  unfoldable pub handle_proof_verification :
      User → AuthProof → Handler (Result LoginResponse) (Result LoginResponse)
  handle_proof_verification user proof = do
    row ← sql env (select_challenge proof.challenge_id user.user_hash_id)
    c ←
        row_or row (refused (text "Invalid or expired challenge"))
          (λ e. refused (text "Database error"))
    check_proof user proof c

  -- `if request_challenge { .. } if let Some(proof) = .. { .. }` and the last response
  unfoldable pub second_step :
      Bytes → Bool → Option AuthProof → User → Handler (Result LoginResponse) (Result LoginResponse)
  second_step hash true proof user = handle_challenge_request hash user.proof_type
  second_step hash false (some proof) user = handle_proof_verification user proof
  second_step hash false none user =
      give (refused (text "Either request_challenge or proof must be provided"))

  unfoldable pub login : LoginRequest → World → Result LoginResponse × World
  login req = body do
    required ← sql env select_required_version
    reject_if (is_outdated required req.app_version) (outdated_reply required)
    reject_if (is_empty req.user_hash_id) (refused (text "User hash ID is required"))
    reject_if (not (length req.user_hash_id == 32)) (
        refused (
          with_number "Invalid user hash ID length: expected 32, got {}" (length req.user_hash_id)))
    row ← sql env (select_user req.user_hash_id)
    user ← row_or row (refused (text "User not found")) (λ e. refused (text "Database error"))
    second_step req.user_hash_id req.request_challenge req.proof user
