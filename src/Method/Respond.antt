-- ===== src/Method/Respond.antt =====
-- handlers/method/respond_friend_request.rs: a user answers a request of friendship.
pub mod Answers
use zenth_dht.Prelude.{
  ℕ, ◌+◌, Bool, true, false, not, ◌&&◌, List, [], ◌∷◌, ◌++◌, Option, none, some, Bytes,
  u64_le_bytes, is_empty, length, retain, find, update_where, ◌==◌, if◌then◌else◌,
}
use zenth_dht.Models.{Db, User, FriendRequestModel, FriendResponseModel}
use zenth_dht.Crypto.{verify_dilithium_signature}
use zenth_dht.Websocket.ConnectionManager.{ConnectionManager, send_to_user}
use zenth_dht.Server.{
  DbResult, ok, not_found, err, Message, text, with_number, with_error, Env, Readings, World,
  Handler, ◌>>=◌, ◌>>◌, act, body, give, reject_if, row_or, sql,
}
use zenth_dht.Method.Users.{first_row, select_user}
use zenth_dht.Method.Contact.{Answer, declined, granted, is_between, non_empty, is_asked_before}

pub record FriendResponse : Type 0 where
  pub responder_hash_id : Bytes
  pub requester_hash_id : Bytes
  pub accepted : Bool
  pub pre_key_bundle : Bytes
  pub dilithium_signature : Bytes
  pub timestamp : ℕ

-- b"FRIENDSHIP:"
abbrev pub friendship : Bytes
friendship = 70 ∷ 82 ∷ 73 ∷ 69 ∷ 78 ∷ 68 ∷ 83 ∷ 72 ∷ 73 ∷ 80 ∷ 58 ∷ []

-- An acceptance is signed without a timestamp.
unfoldable pub respond_signed_data : FriendResponse → Bytes
respond_signed_data req =
    if req.accepted
    then (friendship ++ req.responder_hash_id) ++ req.requester_hash_id
    else (req.requester_hash_id ++ 0 ∷ []) ++ u64_le_bytes req.timestamp

unfoldable pub find_request : Bytes → Bytes → Db → Option FriendRequestModel
find_request requester target db = find (is_between requester target) db.friend_requests

abbrev pub select_request : Bytes → Bytes → Db → DbResult FriendRequestModel × Db
select_request requester target db = (first_row (find_request requester target db), db)

abbrev pub is_answer_to : ℕ → FriendResponseModel → Bool
is_answer_to id r = r.request_id == id

abbrev pub select_response_count : ℕ → Db → DbResult ℕ × Db
select_response_count id db = (ok (length (retain (is_answer_to id) db.friend_responses)), db)

-- The delivered flag is reset.
abbrev pub revised : FriendResponse → FriendResponseModel → FriendResponseModel
revised req r = record r {
  accepted = req.accepted;
  pre_key_bundle = non_empty req.pre_key_bundle;
  dilithium_signature = req.dilithium_signature;
  delivered = false;
}

abbrev pub update_response : FriendResponse → ℕ → Db → DbResult (Unit {0}) × Db
update_response req id db = (
  ok tt,
  record db { friend_responses = update_where (is_answer_to id) (revised req) db.friend_responses },
)

abbrev pub new_response : Readings → FriendResponse → ℕ → ℕ → FriendResponseModel
new_response at req request_id id = record {
  id = id;
  request_id = request_id;
  responder_hash_id = req.responder_hash_id;
  requester_hash_id = req.requester_hash_id;
  accepted = req.accepted;
  pre_key_bundle = non_empty req.pre_key_bundle;
  dilithium_signature = req.dilithium_signature;
  delivered = false;
  created_at = at.db_now;
}

abbrev pub insert_response : (ℕ → FriendResponseModel) → Db → DbResult (Unit {0}) × Db
insert_response row db = (
  ok tt,
  record db {
    friend_responses = db.friend_responses ++ row db.next_friend_response ∷ [];
    next_friend_response = db.next_friend_response + 1;
  },
)

abbrev pub update_reply : DbResult (Unit {0}) → Answer
update_reply (ok n) = granted
update_reply _ = declined (text "Failed to update response")

-- `encode` gives the bytes of the notification with the response.
module _ (env : Env) (encode : FriendResponse → Bytes) (at : Readings) where
  unfoldable pub notify_friend_response : FriendResponse → World → Unit {0} × World
  notify_friend_response req w = elim w.manager [
    | none ↦ (tt, w)
    | some manager ↦ (
      tt,
      record w {
        manager = some (send_to_user env.listening req.requester_hash_id (encode req) manager).1;
      },
    )
  ]

  unfoldable pub store_response : FriendResponse → ℕ → Handler Answer Answer
  store_response req request_id = do
    inserted ← sql env (insert_response (new_response at req request_id))
    row_or inserted (declined (text "Failed to store response: NotFound"))
        (λ e. declined (with_error "Failed to store response: {}" e))
    act (notify_friend_response req)
    give granted

  unfoldable pub replace_response : FriendResponse → ℕ → Handler Answer Answer
  replace_response req request_id = do
    updated ← sql env (update_response req request_id)
    give (update_reply updated)

  -- The handler once the count of earlier responses is there.
  unfoldable pub put_response : FriendResponse → ℕ → DbResult ℕ → Handler Answer Answer
  put_response req request_id existing =
      if is_asked_before existing
      then replace_response req request_id
      else store_response req request_id

  unfoldable pub respond_friend_request : FriendResponse → World → Answer × World
  respond_friend_request req = body do
    reject_if (is_empty req.responder_hash_id) (declined (text "Responder hash ID is required"))
    reject_if (is_empty req.requester_hash_id) (declined (text "Requester hash ID is required"))
    reject_if (not (length req.responder_hash_id == 32)) (
        declined (
          with_number "Invalid responder hash ID length: expected 32, got {}"
            (length req.responder_hash_id)))
    reject_if (not (length req.requester_hash_id == 32)) (
        declined (
          with_number "Invalid requester hash ID length: expected 32, got {}"
            (length req.requester_hash_id)))
    reject_if (is_empty req.dilithium_signature) (declined (text "Dilithium signature is required"))
    reject_if (req.accepted && is_empty req.pre_key_bundle)
        (declined (text "Pre-key bundle is required when accepting"))
    row ← sql env (select_user req.responder_hash_id)
    responder ←
        row_or row (declined (text "Responder user not found"))
          (λ e. declined (text "Database error"))
    reject_if
        (not (
          verify_dilithium_signature env.dilithium responder.identity_key_dilithium
            (respond_signed_data req) req.dilithium_signature))
        (declined (text "Invalid signature"))
    row' ← sql env (select_request req.requester_hash_id req.responder_hash_id)
    original ←
        row_or row' (declined (text "Friend request not found"))
          (λ e. declined (text "Database error"))
    existing ← sql env (select_response_count original.id)
    put_response req original.id existing
