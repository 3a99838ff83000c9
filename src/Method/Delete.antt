-- ===== src/Method/Delete.antt =====
-- handlers/method/delete.rs: the deletion of an account, one statement after the other and with no
-- transaction.
pub mod Completeness
use zenth_dht.Prelude.{
  ℕ, ◌+◌, Bool, true, false, not, ◌&&◌, ◌||◌, List, [], ◌∷◌, ◌++◌, Option, none, some, String,
  Bytes, u64_le_bytes, bytes_eq, is_empty, length, retain, any, map, ◌==◌, if◌then◌else◌,
}
use zenth_dht.Models.{
  Db, User, AuthChallenge, Session, FriendRequestModel, FriendResponseModel, MessageModel,
  OneTimePrekey,
}
use zenth_dht.Crypto.{verify_dilithium_signature}
use zenth_dht.Timestamp.{is_timestamp_fresh}
use zenth_dht.Websocket.ConnectionManager.{ConnectionManager, unregister}
use zenth_dht.Server.{
  DbResult, ok, not_found, err, DbError, Message, text, with_error, no_message, Result, done,
  failed, Env, Readings, World, Handler, ◌>>=◌, ◌>>◌, act, body, give, reject_if, row_or, sql,
}
use zenth_dht.Method.Users.{select_user, is_user}

pub record DeleteRequest : Type 0 where
  pub user_hash_id : Bytes
  pub dilithium_signature : Bytes
  pub timestamp : ℕ

pub record DeleteResponse : Type 0 where
  pub success : Bool
  pub error_message : Message

-- The request was sent by the user or to the user.
abbrev pub involves : Bytes → FriendRequestModel → Bool
involves hash r = bytes_eq r.requester_hash_id hash || bytes_eq r.target_hash_id hash

abbrev pub request_ids : Bytes → List FriendRequestModel → List ℕ
request_ids hash rows = map (λ r. r.id) (retain (involves hash) rows)

abbrev pub select_request_ids : Bytes → Db → DbResult (List ℕ) × Db
select_request_ids hash db = (ok (request_ids hash db.friend_requests), db)

-- `friend_responses::request_id.eq_any(ids)`
abbrev pub answers_any : List ℕ → FriendResponseModel → Bool
answers_any ids r = any (λ id. r.request_id == id) ids

abbrev pub delete_responses : List ℕ → Db → DbResult (Unit {0}) × Db
delete_responses ids db = (
  ok tt,
  record db { friend_responses = retain (λ r. not (answers_any ids r)) db.friend_responses },
)

-- The deleted requests take the responses that refer to them along: `ON DELETE CASCADE`.
abbrev pub delete_requests : Bytes → Db → DbResult (Unit {0}) × Db
delete_requests hash db = (
  ok tt,
  record db {
    friend_requests = retain (λ r. not (involves hash r)) db.friend_requests;
    friend_responses =
        retain (λ r. not (answers_any (request_ids hash db.friend_requests) r)) db.friend_responses;
  },
)

abbrev pub is_message_of : Bytes → MessageModel → Bool
is_message_of hash m = bytes_eq m.sender_hash_id hash || bytes_eq m.recipient_hash_id hash

abbrev pub delete_messages : Bytes → Db → DbResult (Unit {0}) × Db
delete_messages hash db =
    (ok tt, record db { messages = retain (λ m. not (is_message_of hash m)) db.messages })

abbrev pub is_session_of : Bytes → Session → Bool
is_session_of hash s = bytes_eq s.user_hash_id hash

abbrev pub delete_sessions : Bytes → Db → DbResult (Unit {0}) × Db
delete_sessions hash db =
    (ok tt, record db { sessions = retain (λ s. not (is_session_of hash s)) db.sessions })

abbrev pub is_challenge_of : Bytes → AuthChallenge → Bool
is_challenge_of hash c = bytes_eq c.user_hash_id hash

abbrev pub delete_challenges : Bytes → Db → DbResult (Unit {0}) × Db
delete_challenges hash db = (
  ok tt,
  record db { auth_challenges = retain (λ c. not (is_challenge_of hash c)) db.auth_challenges },
)

abbrev pub is_prekey_of : Bytes → OneTimePrekey → Bool
is_prekey_of hash k = bytes_eq k.user_hash_id hash

-- The deleted user takes along what refers to it: `ON DELETE CASCADE` on the challenges, sessions,
-- requests (and so on the responses to them) and one-time prekeys.
abbrev pub delete_user : Bytes → Db → DbResult (Unit {0}) × Db
delete_user hash db = (
  ok tt,
  record db {
    users = retain (λ u. not (is_user hash u)) db.users;
    auth_challenges = retain (λ c. not (is_challenge_of hash c)) db.auth_challenges;
    sessions = retain (λ s. not (is_session_of hash s)) db.sessions;
    friend_requests = retain (λ r. not (involves hash r)) db.friend_requests;
    friend_responses =
        retain (λ r. not (answers_any (request_ids hash db.friend_requests) r)) db.friend_responses;
    one_time_prekeys = retain (λ k. not (is_prekey_of hash k)) db.one_time_prekeys;
  },
)

-- `.map_err(|e| format!(m, e))?`
abbrev pub or_fail : {R A : Type 0} → String → DbResult A → Handler (Result R) A
or_fail m r = row_or r (failed (text m)) (λ e. failed (with_error m e))

-- `manager.unregister(hash)`, where a manager has been set
unfoldable pub disconnect : Bytes → World → Unit {0} × World
disconnect hash w = elim w.manager [
  | none ↦ (tt, w)
  | some m ↦ (tt, record w { manager = some (unregister hash m) })
]

-- What a user signs to delete the account: hash || timestamp.
unfoldable pub delete_signed_data : DeleteRequest → Bytes
delete_signed_data req = req.user_hash_id ++ u64_le_bytes req.timestamp

abbrev pub refused : Message → Result DeleteResponse
refused m = done (record { success = false; error_message = m })

-- `if let Err(e) = delete_user_data(..) { return }`
abbrev pub failure_reply : Result (Unit {0}) → Result DeleteResponse
failure_reply (done n) = refused no_message
failure_reply (failed m) = refused m

abbrev pub is_failure : Result (Unit {0}) → Bool
is_failure (done n) = false
is_failure (failed m) = true

module _ (env : Env) (at : Readings) where
  -- `if !request_ids.is_empty() { delete }`
  unfoldable pub delete_responses_to : List ℕ → Handler (Result (Unit {0})) (Unit {0})
  delete_responses_to ids = if is_empty ids then act (λ w. (tt, w)) else (do
    deleted ← sql env (delete_responses ids)
    or_fail "Failed to delete friend responses: {}" deleted)

  -- `delete_user_data` from the deletion of the requests on.
  unfoldable pub delete_rows : Bytes → Handler (Result (Unit {0})) (Result (Unit {0}))
  delete_rows hash = do
    requests ← sql env (delete_requests hash)
    or_fail "Failed to delete friend requests: {}" requests
    messages ← sql env (delete_messages hash)
    or_fail "Failed to delete messages: {}" messages
    sessions ← sql env (delete_sessions hash)
    or_fail "Failed to delete sessions: {}" sessions
    challenges ← sql env (delete_challenges hash)
    or_fail "Failed to delete auth challenges: {}" challenges
    user ← sql env (delete_user hash)
    or_fail "Failed to delete user: {}" user
    give (done tt)

  unfoldable pub delete_user_data : Bytes → World → Result (Unit {0}) × World
  delete_user_data hash = body do
    loaded ← sql env (select_request_ids hash)
    ids ← or_fail "Failed to load friend request ids: {}" loaded
    delete_responses_to ids
    delete_rows hash

  unfoldable pub delete_account : DeleteRequest → World → Result DeleteResponse × World
  delete_account req = body do
    reject_if (is_empty req.user_hash_id || not (length req.user_hash_id == 32))
        (refused (text "Invalid user hash"))
    reject_if (is_empty req.dilithium_signature) (refused (text "Signature required"))
    reject_if (not (is_timestamp_fresh at.unix_secs req.timestamp))
        (refused (text "Request timestamp expired"))
    row ← sql env (select_user req.user_hash_id)
    user ← row_or row (refused (text "User not found")) (λ e. refused (text "Database error"))
    reject_if
        (not (
          verify_dilithium_signature env.dilithium user.identity_key_dilithium
            (delete_signed_data req) req.dilithium_signature))
        (refused (text "Invalid signature"))
    deleted ← act (delete_user_data req.user_hash_id)
    reject_if (is_failure deleted) (failure_reply deleted)
    act (disconnect req.user_hash_id)
    give (done (record { success = true; error_message = no_message }))
