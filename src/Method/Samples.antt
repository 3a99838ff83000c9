-- ===== src/Method/Samples.antt =====
-- Requests of the users of `Server.Samples`.
use zenth_dht.Prelude.{false, some, [], ◌∷◌}
use zenth_dht.Server.Samples.{alice_hash, bob_hash}
use zenth_dht.Method.Login.{LoginRequest, AuthProof}
use zenth_dht.Method.Delete.{DeleteRequest}
use zenth_dht.Method.Message.{ZenthSignalEnvelope, regular_message, Formats}

abbrev pub answer : AuthProof
answer = record { challenge_id = 6 ∷ []; proof = 11 ∷ []; timestamp = 1_000 }

abbrev pub answering : LoginRequest
answering = record {
  app_version = "1.0";
  user_hash_id = alice_hash;
  request_challenge = false;
  proof = some answer;
}

abbrev pub deleting : DeleteRequest
deleting = record { user_hash_id = alice_hash; dilithium_signature = 11 ∷ []; timestamp = 1_000 }

abbrev pub formats : Formats
formats = record {
  encode_notification = λ t n. n.message_id;
  latest = 8_000_000_000_000_000_000;
  before_epoch = 8_000_000_000_000_000_000;
}

abbrev pub greeting : ZenthSignalEnvelope
greeting = record {
  version = 1;
  sender_hash_id = alice_hash;
  recipient_hash_id = bob_hash;
  content = some (regular_message (1 ∷ 2 ∷ 3 ∷ []));
  dilithium_signature = 11 ∷ [];
  timestamp = 1_000;
  message_id = 20 ∷ [];
  sequence_number = 24;
}
