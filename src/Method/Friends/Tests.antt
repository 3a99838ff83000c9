-- ===== src/Method/Friends/Tests.antt =====
-- The lists of friends on a small server.
use zenth_dht.Prelude.{◌≡◌, refl, true, [], ◌∷◌, map, Bytes, bytes_eq, any}
use zenth_dht.Crypto.{verify_dilithium_signature}
use zenth_dht.Server.{statement, act, body, give, reject_if, row_or, ◌>>=◌}
use zenth_dht.Server.Samples.{sample_env, noon, alice_hash, bob_hash, sample_world}
use zenth_dht.Method.Users.{find_user}
use zenth_dht.Method.Contact.{
  FriendRequest, insert_request, is_asked_before, notify_friend_request, store_request, put_request,
  contact,
}
use zenth_dht.Method.Friends.{
  FetchRequest, to_request, to_response, requests_to, responses_to, accepted_by,
  fetch_friend_requests, fetch_friend_responses, fetch_my_accepted,
}
use zenth_dht.Method.Friends.Lists.{ListOutcome, is_from, fetch_lists_outcome, requests_to-contact}

abbrev listing : FetchRequest
listing = record {
  user_hash = bob_hash;
  since_timestamp = 0;
  timestamp = 1_000;
  dilithium_signature = 12 ∷ [];
}

fetch_lists_outcome_example :
    ListOutcome sample_env listing sample_world.db
      (map to_request (requests_to bob_hash 0 sample_world.db.friend_requests))
      (fetch_friend_requests sample_env noon listing sample_world)
    × ListOutcome sample_env listing sample_world.db
        (map to_response (responses_to 9_000_000_000 bob_hash 0 sample_world.db.friend_responses))
        (fetch_friend_responses sample_env noon 9_000_000_000 listing sample_world)
    × ListOutcome sample_env listing sample_world.db
        (accepted_by 9_000_000_000 bob_hash 0 sample_world.db.friend_requests
          sample_world.db.friend_responses)
        (fetch_my_accepted sample_env noon 9_000_000_000 listing sample_world)
fetch_lists_outcome_example = fetch_lists_outcome sample_env noon 9_000_000_000 listing sample_world

abbrev encode : FriendRequest → Bytes
encode req = req.pre_key_bundle

abbrev asking_bob : FriendRequest
asking_bob = record {
  requester_hash_id = alice_hash;
  target_hash_id = bob_hash;
  pre_key_bundle = 5 ∷ [];
  dilithium_signature = 11 ∷ [];
  encrypted_message = [];
  timestamp = 1_000;
}

contact_succeeds : (contact sample_env encode noon asking_bob sample_world).0.success ≡ true
unfolding contact put_request store_request insert_request is_asked_before notify_friend_request
    verify_dilithium_signature find_user bytes_eq statement act body give reject_if row_or ◌>>=◌
contact_succeeds = refl

requests_to-contact_example :
    any (is_from alice_hash) (
      requests_to bob_hash 0
        (contact sample_env encode noon asking_bob sample_world).1.db.friend_requests)
    ≡ true
requests_to-contact_example =
    requests_to-contact sample_env encode noon asking_bob sample_world contact_succeeds
