-- ===== src/Method/Friends.antt =====
-- handlers/method/fetch_friend_requests.rs, fetch_friend_response.rs and fetch_my_accepted.rs:
-- what a user reads about requests of friendship and the answers to them. From the check that there
-- is a signature on, the three handlers are alike but for the query and three error texts.
pub mod Lists
mod Tests
use zenth_dht.Prelude.{
  ℕ, ◌+◌, ◌-◌, ◌/◌, ◌^◌, Bool, true, false, not, ◌&&◌, ◌||◌, List, [], ◌∷◌, ◌++◌, map, Option, none,
  some, String, Bytes, ℤ, pos, negsuc, lt_ℤb, as_i64, as_u64, u64_le_bytes, bytes_eq, is_empty,
  length, retain, order_by, ltb, leb, ◌==◌, if◌then◌else◌,
}
use zenth_dht.Models.{Db, User, FriendRequestModel, FriendResponseModel, NaiveDateTime, seconds}
use zenth_dht.Crypto.{verify_dilithium_signature}
use zenth_dht.Server.{
  DbResult, ok, not_found, err, DbError, Message, text, with_number, with_error, with_text,
  no_message, Result, done, failed, Env, Readings, World, Handler, ◌>>=◌, ◌>>◌, act, body, give,
  reject_if, row_or, sql,
}
use zenth_dht.Method.Users.{select_user}
use zenth_dht.Method.Inbox.{rank}
use zenth_dht.Method.Contact.{FriendRequest}
use zenth_dht.Method.Respond.{FriendResponse}

-- The request of the three lists.
pub record FetchRequest : Type 0 where
  pub user_hash : Bytes
  pub since_timestamp : ℕ
  pub timestamp : ℕ
  pub dilithium_signature : Bytes

-- The response with rows of type `A`, and the server's time.
pub record FetchResponse (A : Type 0) : Type 0 where
  pub rows : List A
  pub timestamp : ℕ

-- user || since || timestamp
unfoldable pub list_signed_data : FetchRequest → Bytes
list_signed_data req =
    (req.user_hash ++ u64_le_bytes req.since_timestamp) ++ u64_le_bytes req.timestamp

-- `unwrap_or_default()`
abbrev pub or_empty : Option Bytes → Bytes
or_empty none = []
or_empty (some b) = b

abbrev pub is_newer : ℕ → FriendRequestModel → Bool
is_newer since r = not (ltb 0 since) || lt_ℤb (as_i64 since) r.timestamp

-- The requests to a user that are newer than `since`, the newest first.
unfoldable pub requests_to : Bytes → ℕ → List FriendRequestModel → List FriendRequestModel
requests_to hash since rows =
    order_by (λ r. 2 ^ 64 - rank r.timestamp)
      (retain (λ r. bytes_eq r.target_hash_id hash && is_newer since r) rows)

abbrev pub to_request : FriendRequestModel → FriendRequest
to_request r = record {
  requester_hash_id = r.requester_hash_id;
  target_hash_id = r.target_hash_id;
  pre_key_bundle = r.pre_key_bundle;
  dilithium_signature = r.dilithium_signature;
  encrypted_message = or_empty r.encrypted_message;
  timestamp = as_u64 r.timestamp;
}

-- `DateTime::from_timestamp(since as i64, 0)`, or 1970 where that is no date; `latest` is chrono's last
-- date. A date before 1970 is 1970.
abbrev pub since_date : NaiveDateTime → ℤ → NaiveDateTime
since_date latest (pos n) = if leb (seconds n) latest then seconds n else 0
since_date latest (negsuc n) = 0

abbrev pub is_created_since : NaiveDateTime → ℕ → NaiveDateTime → Bool
is_created_since latest since created =
    not (ltb 0 since) || ltb (since_date latest (as_i64 since)) created

unfoldable pub responses_to :
    NaiveDateTime → Bytes → ℕ → List FriendResponseModel → List FriendResponseModel
responses_to latest hash since rows =
    retain (λ r. bytes_eq r.requester_hash_id hash && is_created_since latest since r.created_at)
      rows

-- `created_at.and_utc().timestamp() as u64`
abbrev pub unix_time : NaiveDateTime → ℕ
unix_time t = t / 1_000_000

abbrev pub to_response : FriendResponseModel → FriendResponse
to_response r = record {
  responder_hash_id = r.responder_hash_id;
  requester_hash_id = r.requester_hash_id;
  accepted = r.accepted;
  pre_key_bundle = or_empty r.pre_key_bundle;
  dilithium_signature = r.dilithium_signature;
  timestamp = unix_time r.created_at;
}

-- The requests that a response answers, each with the requester's own bundle: one side of the join.
abbrev pub joined : List FriendRequestModel → FriendResponseModel → List FriendResponse
joined [] r = []
joined (q ∷ requests) r =
    if r.request_id == q.id
    then record {
      responder_hash_id = r.responder_hash_id;
      requester_hash_id = q.requester_hash_id;
      accepted = true;
      pre_key_bundle = q.pre_key_bundle;
      dilithium_signature = r.dilithium_signature;
      timestamp = unix_time r.created_at;
    }
      ∷ joined requests r
    else joined requests r

-- `INNER JOIN friend_requests ON request_id = friend_requests.id`
abbrev pub join : List FriendRequestModel → List FriendResponseModel → List FriendResponse
join requests [] = []
join requests (r ∷ rows) = joined requests r ++ join requests rows

unfoldable pub accepted_by :
    NaiveDateTime
    → Bytes
    → ℕ
    → List FriendRequestModel
    → List FriendResponseModel
    → List FriendResponse
accepted_by latest hash since requests rows = join requests (
    retain
      (λ r.
        (bytes_eq r.responder_hash_id hash && r.accepted)
        && is_created_since latest since r.created_at)
      rows)

abbrev pub select_requests_to : Bytes → ℕ → Db → DbResult (List FriendRequest) × Db
select_requests_to hash since db =
    (ok (map to_request (requests_to hash since db.friend_requests)), db)

abbrev pub select_responses_to :
    NaiveDateTime → Bytes → ℕ → Db → DbResult (List FriendResponse) × Db
select_responses_to latest hash since db =
    (ok (map to_response (responses_to latest hash since db.friend_responses)), db)

abbrev pub select_accepted_by : NaiveDateTime → Bytes → ℕ → Db → DbResult (List FriendResponse) × Db
select_accepted_by latest hash since db =
    (ok (accepted_by latest hash since db.friend_requests db.friend_responses), db)

-- The error texts in which the three handlers differ after the checks of the hash.
pub record ListTexts : Type 0 where
  pub unsigned : String
  pub broken : DbError → Message
  pub unloaded : String

module _ (env : Env) (at : Readings) where
  -- What the three handlers share: the signature, the user, the query and the response.
  unfoldable pub fetch_list :
      {A : Type 0}
      → ListTexts
      → (Db → DbResult (List A) × Db)
      → FetchRequest
      → Handler (Result (FetchResponse A)) (Result (FetchResponse A))
  fetch_list texts query req = do
    reject_if (is_empty req.dilithium_signature) (failed (text texts.unsigned))
    row ← sql env (select_user req.user_hash)
    user ← row_or row (failed (text "User not found")) (λ e. failed (texts.broken e))
    reject_if
        (not (
          verify_dilithium_signature env.dilithium user.identity_key_dilithium
            (list_signed_data req) req.dilithium_signature))
        (failed (text "Invalid signature"))
    loaded ← sql env query
    rows ←
        row_or loaded (failed (with_text texts.unloaded "NotFound"))
          (λ e. failed (with_error texts.unloaded e))
    give (done (record { rows = rows; timestamp = at.unix_secs }))

  unfoldable pub fetch_friend_requests :
      FetchRequest → World → Result (FetchResponse FriendRequest) × World
  fetch_friend_requests req = body do
    reject_if (is_empty req.user_hash) (failed (text "User hash is required"))
    reject_if (not (length req.user_hash == 32)) (
        failed (with_number "Invalid user hash length: expected 32, got {}" (length req.user_hash)))
    fetch_list
        (record {
          unsigned = "Dilithium signature is required";
          broken = λ e. text "Database error";
          unloaded = "Failed to fetch friend requests: {}";
        })
        (select_requests_to req.user_hash req.since_timestamp) req

  module _ (latest : NaiveDateTime) where
    unfoldable pub fetch_friend_responses :
        FetchRequest → World → Result (FetchResponse FriendResponse) × World
    fetch_friend_responses req = body do
      reject_if (is_empty req.user_hash || not (length req.user_hash == 32))
          (failed (text "Invalid user hash"))
      fetch_list
          (record {
            unsigned = "Dilithium signature is required";
            broken = with_error "Database error: {}";
            unloaded = "Failed to fetch responses: {}";
          })
          (select_responses_to latest req.user_hash req.since_timestamp) req

    unfoldable pub fetch_my_accepted :
        FetchRequest → World → Result (FetchResponse FriendResponse) × World
    fetch_my_accepted req = body do
      reject_if (is_empty req.user_hash || not (length req.user_hash == 32))
          (failed (text "Invalid user hash"))
      fetch_list
          (record {
            unsigned = "Dilithium signature required";
            broken = with_error "Database error: {}";
            unloaded = "DB error: {}";
          })
          (select_accepted_by latest req.user_hash req.since_timestamp) req
