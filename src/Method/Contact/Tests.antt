-- ===== src/Method/Contact/Tests.antt =====
-- Registration, the requests of friendship and the inbox on a small server.
use zenth_dht.Prelude.{true, none, [], ◌∷◌, Bytes, pos, replicate}
use zenth_dht.Models.{FriendRequestModel}
use zenth_dht.Server.{World}
use zenth_dht.Server.Samples.{sample_env, noon, alice_hash, bob_hash, sample_db, sample_world}
use zenth_dht.Method.Register.{RegistrationRequest, register}
use zenth_dht.Method.Register.Once.{RegisterOutcome, register_outcome}
use zenth_dht.Method.Contact.{FriendRequest, contact}
use zenth_dht.Method.Contact.Pairs.{ContactOutcome, contact_outcome}
use zenth_dht.Method.Respond.{FriendResponse, respond_friend_request}
use zenth_dht.Method.Respond.Answers.{RespondOutcome, respond_friend_request_outcome}

abbrev registering : RegistrationRequest
registering = record {
  username_hash = replicate 32 3;
  pre_key_bundle = 5 ∷ [];
  password_commitment = 6 ∷ [];
  identity_key_dilithium = 16 ∷ [];
  identity_signature = 7 ∷ [];
  proof_type = pos 0;
}

register_outcome_example :
    RegisterOutcome noon registering sample_db (register sample_env noon registering sample_world)
register_outcome_example = register_outcome sample_env noon registering sample_world

abbrev encode_request : FriendRequest → Bytes
encode_request req = req.pre_key_bundle

abbrev asking : FriendRequest
asking = record {
  requester_hash_id = alice_hash;
  target_hash_id = bob_hash;
  pre_key_bundle = 5 ∷ [];
  dilithium_signature = 11 ∷ [];
  encrypted_message = [];
  timestamp = 1_000;
}

contact_outcome_example :
    ContactOutcome sample_env noon asking sample_db
      (contact sample_env encode_request noon asking sample_world)
contact_outcome_example = contact_outcome sample_env encode_request noon asking sample_world

abbrev from_alice : FriendRequestModel
from_alice = record {
  id = 1;
  requester_hash_id = alice_hash;
  target_hash_id = bob_hash;
  pre_key_bundle = 4 ∷ [];
  dilithium_signature = 11 ∷ [];
  encrypted_message = none;
  timestamp = pos 900;
  created_at = 0;
}

abbrev asked_world : World
asked_world = record sample_world {
  db = record sample_db { friend_requests = from_alice ∷ []; next_friend_request = 2 };
}

abbrev encode_response : FriendResponse → Bytes
encode_response req = req.pre_key_bundle

abbrev accepting : FriendResponse
accepting = record {
  responder_hash_id = bob_hash;
  requester_hash_id = alice_hash;
  accepted = true;
  pre_key_bundle = 5 ∷ [];
  dilithium_signature = 12 ∷ [];
  timestamp = 1_000;
}

respond_friend_request_outcome_example :
    RespondOutcome sample_env noon accepting asked_world
      (respond_friend_request sample_env encode_response noon accepting asked_world)
respond_friend_request_outcome_example =
    respond_friend_request_outcome sample_env encode_response noon accepting asked_world
