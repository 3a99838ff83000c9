-- ===== src/Method/Contact.antt =====
-- handlers/method/contact.rs: a user asks another to be friends.
pub mod Pairs
mod Tests
use zenth_dht.Prelude.{
  ℕ, ◌+◌, Bool, true, false, not, ◌&&◌, ◌||◌, List, [], ◌∷◌, ◌++◌, Option, none, some, Bytes, ℤ,
  ltb, as_i64, u64_le_bytes, bytes_eq, is_empty, length, retain, any, update_where, ◌==◌,
  if◌then◌else◌,
}
use zenth_dht.Models.{Db, User, FriendRequestModel}
use zenth_dht.Crypto.{verify_dilithium_signature}
use zenth_dht.Websocket.ConnectionManager.{ConnectionManager, send_to_user}
use zenth_dht.Server.{
  DbResult, ok, not_found, err, DbError, unique_violation, Message, text, with_number, with_error,
  no_message, Env, Readings, World, Handler, ◌>>=◌, ◌>>◌, act, body, give, reject_if, row_or, sql,
}
use zenth_dht.Method.Users.{select_user}

pub record FriendRequest : Type 0 where
  pub requester_hash_id : Bytes
  pub target_hash_id : Bytes
  pub pre_key_bundle : Bytes
  pub dilithium_signature : Bytes
  pub encrypted_message : Bytes
  pub timestamp : ℕ

-- `(bool, Vec<u8>, String)`, whose bytes are always empty.
pub record Answer : Type 0 where
  pub success : Bool
  pub error_message : Message

abbrev pub declined : Message → Answer
declined m = record { success = false; error_message = m }

abbrev pub granted : Answer
granted = record { success = true; error_message = no_message }

-- The signed message: target || bundle || timestamp.
unfoldable pub contact_signed_data : FriendRequest → Bytes
contact_signed_data req = (req.target_hash_id ++ req.pre_key_bundle) ++ u64_le_bytes req.timestamp

abbrev pub is_between : Bytes → Bytes → FriendRequestModel → Bool
is_between requester target r =
    bytes_eq r.requester_hash_id requester && bytes_eq r.target_hash_id target

abbrev pub select_request_count : Bytes → Bytes → Db → DbResult ℕ × Db
select_request_count requester target db =
    (ok (length (retain (is_between requester target) db.friend_requests)), db)

-- `None` for an empty message
abbrev pub non_empty : Bytes → Option Bytes
non_empty b = if is_empty b then none else some b

abbrev pub refreshed : FriendRequest → FriendRequestModel → FriendRequestModel
refreshed req r = record r {
  pre_key_bundle = req.pre_key_bundle;
  dilithium_signature = req.dilithium_signature;
  encrypted_message = non_empty req.encrypted_message;
  timestamp = as_i64 req.timestamp;
}

abbrev pub update_request : FriendRequest → Db → DbResult (Unit {0}) × Db
update_request req db = (
  ok tt,
  record db {
    friend_requests =
        update_where (is_between req.requester_hash_id req.target_hash_id) (refreshed req)
          db.friend_requests;
  },
)

abbrev pub new_request : Readings → FriendRequest → ℕ → FriendRequestModel
new_request at req id = record {
  id = id;
  requester_hash_id = req.requester_hash_id;
  target_hash_id = req.target_hash_id;
  pre_key_bundle = req.pre_key_bundle;
  dilithium_signature = req.dilithium_signature;
  encrypted_message = non_empty req.encrypted_message;
  timestamp = as_i64 req.timestamp;
  created_at = at.db_now;
}

-- The pair of requester and target is unique. A refused row has drawn its serial number.
unfoldable pub insert_request : (ℕ → FriendRequestModel) → Db → DbResult (Unit {0}) × Db
insert_request row db =
    let r = row db.next_friend_request in
    if any (is_between r.requester_hash_id r.target_hash_id) db.friend_requests
    then (err unique_violation, record db { next_friend_request = db.next_friend_request + 1 })
    else (
      ok tt,
      record db {
        friend_requests = db.friend_requests ++ r ∷ [];
        next_friend_request = db.next_friend_request + 1;
      },
    )

-- `if let Ok(count) = existing { if count > 0 { .. } }`
unfoldable pub is_asked_before : DbResult ℕ → Bool
is_asked_before (ok count) = ltb 0 count
is_asked_before not_found = false
is_asked_before (err e) = false

abbrev pub update_reply : DbResult (Unit {0}) → Answer
update_reply (ok n) = granted
update_reply _ = declined (text "Failed to update friend request")

-- `encode` gives the bytes of the notification with the request.
module _ (env : Env) (encode : FriendRequest → Bytes) (at : Readings) where
  unfoldable pub notify_friend_request : FriendRequest → World → Unit {0} × World
  notify_friend_request req w = elim w.manager [
    | none ↦ (tt, w)
    | some manager ↦ (
      tt,
      record w {
        manager = some (send_to_user env.listening req.target_hash_id (encode req) manager).1;
      },
    )
  ]

  -- The insert and the notification, and the response.
  unfoldable pub store_request : FriendRequest → Handler Answer Answer
  store_request req = do
    inserted ← sql env (insert_request (new_request at req))
    row_or inserted (declined (text "Failed to store friend request: NotFound"))
        (λ e. declined (with_error "Failed to store friend request: {}" e))
    act (notify_friend_request req)
    give granted

  unfoldable pub replace_request : FriendRequest → Handler Answer Answer
  replace_request req = do updated ← sql env (update_request req); give (update_reply updated)

  -- The handler once the count of earlier requests is there.
  unfoldable pub put_request : FriendRequest → DbResult ℕ → Handler Answer Answer
  put_request req existing =
      if is_asked_before existing then replace_request req else store_request req

  unfoldable pub contact : FriendRequest → World → Answer × World
  contact req = body do
    reject_if (is_empty req.requester_hash_id) (declined (text "Requester hash ID is required"))
    reject_if (is_empty req.target_hash_id) (declined (text "Target hash ID is required"))
    reject_if (not (length req.requester_hash_id == 32)) (
        declined (
          with_number "Invalid requester hash ID length: expected 32, got {}"
            (length req.requester_hash_id)))
    reject_if (not (length req.target_hash_id == 32)) (
        declined (
          with_number "Invalid target hash ID length: expected 32, got {}"
            (length req.target_hash_id)))
    reject_if (bytes_eq req.requester_hash_id req.target_hash_id)
        (declined (text "Cannot send friend request to yourself"))
    reject_if (is_empty req.dilithium_signature) (declined (text "Dilithium signature is required"))
    reject_if (is_empty req.pre_key_bundle) (declined (text "Pre-key bundle is required"))
    row ← sql env (select_user req.requester_hash_id)
    requester ←
        row_or row (declined (text "Requester user not found"))
          (λ e. declined (text "Database error"))
    row' ← sql env (select_user req.target_hash_id)
    target ←
        row_or row' (declined (text "Target user not found"))
          (λ e. declined (text "Database error"))
    reject_if
        (not (
          verify_dilithium_signature env.dilithium requester.identity_key_dilithium
            (contact_signed_data req) req.dilithium_signature))
        (declined (text "Invalid signature"))
    existing ← sql env (select_request_count req.requester_hash_id req.target_hash_id)
    put_request req existing
