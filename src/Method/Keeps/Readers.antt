-- ===== src/Method/Keeps/Readers.antt =====
-- handlers/method/: the handlers that only read keep whatever holds of the database.
use zenth_dht.Prelude.{Bytes, Option}
use zenth_dht.Models.{Db, NaiveDateTime}
use zenth_dht.Server.{Env, Readings}
use zenth_dht.Server.Keeps.{Keeps, keeps_rules}
use zenth_dht.Method.Lookup.{LookupUserRequest, lookup_user}
use zenth_dht.Method.Prekeys.{PreKeyBundle, CheckPreKeyCountRequest, check_prekey_count}
use zenth_dht.Method.Inbox.{Decoder, FetchMessagesRequest, fetch_messages}
use zenth_dht.Method.Friends.{
  FetchRequest, fetch_list, fetch_friend_requests, fetch_friend_responses, fetch_my_accepted,
}
use zenth_dht.Method.SyncBlob.{SyncBlobRequest, fetch_blob}
use zenth_dht.Method.Relay.{RelayFetchRequest, fetch_relay}

module _ (I : Db → Type 0) (env : Env) where
  unchanged : (db : Db) → I db → I db
  unchanged db h = h

  pub lookup_user-Keeps :
      (decode_bundle : Bytes → Option PreKeyBundle) (req : LookupUserRequest)
      → Keeps I (lookup_user env decode_bundle req)
  unfolding lookup_user
  lookup_user-Keeps decode_bundle req = search (keeps_rules, unchanged) depth 60

  pub check_prekey_count-Keeps :
      (decode_bundle : Bytes → Option PreKeyBundle) (at : Readings) (req : CheckPreKeyCountRequest)
      → Keeps I (check_prekey_count env decode_bundle at req)
  unfolding check_prekey_count
  check_prekey_count-Keeps decode_bundle at req = search (keeps_rules, unchanged) depth 60

  pub fetch_messages-Keeps :
      (decoder : Decoder) (at : Readings) (req : FetchMessagesRequest)
      → Keeps I (fetch_messages decoder env at req)
  unfolding fetch_messages
  fetch_messages-Keeps decoder at req = search (keeps_rules, unchanged) depth 60

  pub fetch_friend_requests-Keeps :
      (at : Readings) (req : FetchRequest) → Keeps I (fetch_friend_requests env at req)
  unfolding fetch_friend_requests fetch_list
  fetch_friend_requests-Keeps at req = search (keeps_rules, unchanged) depth 60

  pub fetch_friend_responses-Keeps :
      (at : Readings) (latest : NaiveDateTime) (req : FetchRequest)
      → Keeps I (fetch_friend_responses env at latest req)
  unfolding fetch_friend_responses fetch_list
  fetch_friend_responses-Keeps at latest req = search (keeps_rules, unchanged) depth 60

  pub fetch_my_accepted-Keeps :
      (at : Readings) (latest : NaiveDateTime) (req : FetchRequest)
      → Keeps I (fetch_my_accepted env at latest req)
  unfolding fetch_my_accepted fetch_list
  fetch_my_accepted-Keeps at latest req = search (keeps_rules, unchanged) depth 60

  pub fetch_blob-Keeps : (at : Readings) (req : SyncBlobRequest) → Keeps I (fetch_blob env at req)
  unfolding fetch_blob
  fetch_blob-Keeps at req = search (keeps_rules, unchanged) depth 60

  pub fetch_relay-Keeps :
      (at : Readings) (req : RelayFetchRequest) → Keeps I (fetch_relay env at req)
  unfolding fetch_relay
  fetch_relay-Keeps at req = search (keeps_rules, unchanged) depth 60
