-- ===== src/System/Keys.antt =====
-- models.rs and migrations/: the keys of the tables. The schema has users, challenges, sessions and
-- blobs under one key each, a request for a pair of users, a prekey for a user and an id, and a
-- message for its id; rows with a serial number stand in its order.
pub mod Accounts
pub mod Exchange
pub mod Requests
use zenth_dht.Prelude.{
  ℕ, ◌+◌, ◌<◌, ◌≡◌, refl, Bool, List, [], ◌∷◌, ◌++◌, Bytes, bytes_eq_comm, Distinct, Ascends,
  Ascends-append, Ascends-retain, Ascends-update_where, All, All-append, All-retain,
  All-map_implied, All-update_where, retain, update_where, arith,
}
use zenth_dht.Models.{
  Db, User, AuthChallenge, Session, FriendResponseModel, MessageModel, RelayMessage, SyncBlob,
}
use zenth_dht.Method.Users.{is_user}
use zenth_dht.Method.Login.{has_challenge_id, has_token}
use zenth_dht.Method.Contact.Pairs.{same_pair}
use zenth_dht.Method.Message.{has_message_id}
use zenth_dht.Method.Prekeys.Upload.{same_prekey}
use zenth_dht.Method.SyncBlob.{is_for}
use zenth_dht.Decompose.Tables.{
  Table, users, auth_challenges, sessions, friend_requests, friend_responses, one_time_prekeys,
  messages, relay_messages, sync_blobs, app_config,
}

abbrev pub same_user : User → User → Bool
same_user u = is_user u.user_hash_id

abbrev pub same_challenge : AuthChallenge → AuthChallenge → Bool
same_challenge c = has_challenge_id c.challenge_id

abbrev pub same_token : Session → Session → Bool
same_token s = has_token s.session_token

abbrev pub same_message : MessageModel → MessageModel → Bool
same_message m = has_message_id m.message_id

abbrev pub same_device : SyncBlob → SyncBlob → Bool
same_device b = is_for b.for_device_dilithium_pubkey

-- The serial numbers rise along the rows, and all are below the next one.
pub record IsSerial {A : Type 0} (id : A → ℕ) (rows : List A) (next : ℕ) : Type 0 where
  pub ascends : Ascends id 0 rows
  pub below : All (λ (a : A). id a < next) rows

module _ {A : Type 0} (id : A → ℕ) (rows : List A) (next : ℕ) (serial : IsSerial id rows next) where
  pub IsSerial-append : (a : A) → id a ≡ next → IsSerial id (rows ++ a ∷ []) (next + 1)
  IsSerial-append a last = record {
    ascends =
        Ascends-append id 0 rows a (omega arith)
          (All-map_implied (λ x. id x < next) (λ x. id x < id a) rows (λ x h. omega arith)
            serial.below)
          serial.ascends;
    below =
        All-append (λ x. id x < next + 1) rows (a ∷ [])
          (All-map_implied (λ x. id x < next) (λ x. id x < next + 1) rows (λ x h. omega arith)
            serial.below)
          (omega arith, tt);
  }

  pub IsSerial-retain : (p : A → Bool) → IsSerial id (retain p rows) next
  IsSerial-retain p = record {
    ascends = Ascends-retain id p 0 rows serial.ascends;
    below = All-retain (λ x. id x < next) p rows serial.below;
  }

  pub IsSerial-update_where :
      (p : A → Bool) (f : A → A)
      → ((x : A) → id (f x) ≡ id x)
      → IsSerial id (update_where p f rows) next
  IsSerial-update_where p f same = record {
    ascends = Ascends-update_where id p f 0 rows same serial.ascends;
    below = All-update_where (λ x. id x < next) p f rows (λ x h. rw (same x) h) serial.below;
  }

-- What the table promises about its keys. No handler writes the configuration.
abbrev pub KeysOf : Table → Db → Type 0
KeysOf users db = Distinct same_user db.users
KeysOf auth_challenges db = Distinct same_challenge db.auth_challenges
KeysOf sessions db = Distinct same_token db.sessions
KeysOf friend_requests db = Distinct same_pair db.friend_requests
KeysOf friend_responses db =
    IsSerial (λ (r : FriendResponseModel). r.id) db.friend_responses db.next_friend_response
KeysOf one_time_prekeys db = Distinct same_prekey db.one_time_prekeys
KeysOf messages db = Distinct same_message db.messages
KeysOf relay_messages db =
    IsSerial (λ (r : RelayMessage). r.id) db.relay_messages db.next_relay_message
KeysOf sync_blobs db = Distinct same_device db.sync_blobs
KeysOf app_config db = Unit
