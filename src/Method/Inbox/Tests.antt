-- ===== src/Method/Inbox/Tests.antt =====
-- The inbox on a small server.
use zenth_dht.Prelude.{
  ℕ, ◌≡◌, refl, true, false, none, some, List, [], ◌∷◌, any, pos, bytes_eq, arith,
}
use zenth_dht.Models.{MessageModel}
use zenth_dht.Crypto.{verify_dilithium_signature}
use zenth_dht.Server.{World, statement, act, body, give, reject_if, row_or, ◌>>=◌}
use zenth_dht.Server.Samples.{sample_env, noon, alice_hash, bob_hash, sample_db, sample_world}
use zenth_dht.Method.Users.{find_user}
use zenth_dht.Method.Message.{
  ZenthSignalEnvelope, regular_message, Formats, has_message_id, expires_at, insert_message,
  large_admitted, mid_admitted, ask, push_to_recipient, store_message, send_message,
}
use zenth_dht.Method.Message.Sending.{is_sent}
use zenth_dht.Method.Inbox.{FetchMessagesRequest, Decoder, inbox, fetch_messages}
use zenth_dht.Method.Inbox.Waiting.{FetchOutcome, fetch_messages_outcome, inbox-send_message}

abbrev decoder : Decoder
decoder = record {
  decode_prekey = λ b. none;
  has_base_key_or_message = λ b. true;
  decode_regular_or_default = λ b. b;
}

abbrev for_bob : ℕ → MessageModel
for_bob n = record {
  id = n;
  message_id = n ∷ [];
  sender_hash_id = alice_hash;
  recipient_hash_id = bob_hash;
  content = [];
  dilithium_signature = 11 ∷ [];
  timestamp = pos n;
  server_timestamp = pos n;
  delivered = false;
  created_at = 0;
  expires_at = 2_000_000_000;
}

abbrev stored_messages : List MessageModel
stored_messages = for_bob 21 ∷ for_bob 22 ∷ for_bob 23 ∷ []

abbrev with_messages : World
with_messages = record sample_world {
  db = record sample_db { messages = stored_messages; next_message = 24 };
}

abbrev reading : FetchMessagesRequest
reading = record {
  user_hash = bob_hash;
  since_timestamp = 0;
  limit = 2;
  timestamp = 1_000;
  dilithium_signature = 12 ∷ [];
}

fetch_messages_outcome_example :
    FetchOutcome decoder sample_env noon reading with_messages.db
      (fetch_messages decoder sample_env noon reading with_messages)
fetch_messages_outcome_example =
    fetch_messages_outcome decoder sample_env noon reading with_messages

abbrev formats : Formats
formats = record {
  encode_notification = λ t n. n.message_id;
  latest = 8_000_000_000_000_000_000;
  before_epoch = 8_000_000_000_000_000_000;
}

abbrev note : ZenthSignalEnvelope
note = record {
  version = 1;
  sender_hash_id = alice_hash;
  recipient_hash_id = bob_hash;
  content = some (regular_message (1 ∷ 2 ∷ 3 ∷ []));
  dilithium_signature = 11 ∷ [];
  timestamp = 1_000;
  message_id = 20 ∷ [];
  sequence_number = 24;
}

note-is_sent : is_sent (send_message sample_env noon formats note with_messages).0 ≡ true
unfolding send_message store_message insert_message push_to_recipient expires_at large_admitted
    mid_admitted ask verify_dilithium_signature find_user bytes_eq statement act body give reject_if
    row_or ◌>>=◌
note-is_sent = refl

note_expires : expires_at formats noon.utc 24 ≡ some 87_400_000_000
unfolding expires_at
note_expires = refl

inbox-send_message_example :
    any (has_message_id (20 ∷ [])) (
      inbox bob_hash 0 2_000_000_000
        (send_message sample_env noon formats note with_messages).1.db.messages)
    ≡ true
inbox-send_message_example =
    inbox-send_message sample_env noon formats note with_messages 87_400_000_000 2_000_000_000
      note-is_sent note_expires (omega arith)
