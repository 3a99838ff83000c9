-- ===== src/Server/Samples.antt =====
-- A small server for tests: two users, a signature scheme whose signatures repeat the key, and a
-- database that refuses no statement.
use zenth_dht.Prelude.{
  ℕ, true, false, [], ◌∷◌, none, some, Bytes, bytes_eq, pos, replicate, no_entries,
}
use zenth_dht.Models.{Db, User, AuthChallenge, OneTimePrekey}
use zenth_dht.Crypto.{Dilithium2}
use zenth_dht.Server.{Env, Readings, World}

abbrev pub repeated_key : Dilithium2
repeated_key = record {
  PublicKey = Bytes;
  DetachedSignature = Bytes;
  public_key_bytes = 1;
  signature_bytes = 1;
  public_key_from_bytes = some;
  signature_from_bytes = some;
  verify_detached_signature = λ signature message key. bytes_eq signature key;
}

abbrev pub sample_env : Env
sample_env = record { dilithium = repeated_key; fault = λ n. none; listening = λ c. true }

abbrev pub sample_token : Bytes
sample_token = replicate 4 9

abbrev pub noon : Readings
noon = record {
  unix_secs = 1_000;
  unix_millis = 1_000_000;
  utc = 1_000_000_000;
  utc_later = 1_000_000_001;
  db_now = 1_000_000_002;
  instant = 50;
  instant_read = 60;
  random_id = 7 ∷ [];
  random_nonce = 8 ∷ [];
  random_token = sample_token;
}

abbrev pub alice_hash : Bytes
alice_hash = replicate 32 1

abbrev pub bob_hash : Bytes
bob_hash = replicate 32 2

abbrev pub alice : User
alice = record {
  user_hash_id = alice_hash;
  password_commitment = 3 ∷ [];
  identity_key_dilithium = 11 ∷ [];
  identity_signature = 4 ∷ [];
  pre_key_bundle = 5 ∷ [];
  proof_type = pos 0;
  created_at = 0;
  recovery_dilithium_pubkey = some (13 ∷ []);
}

abbrev pub bob : User
bob = record alice {
  user_hash_id = bob_hash;
  identity_key_dilithium = 12 ∷ [];
  recovery_dilithium_pubkey = none;
}

abbrev pub posed_to_alice : AuthChallenge
posed_to_alice = record {
  challenge_id = 6 ∷ [];
  user_hash_id = alice_hash;
  nonce = 8 ∷ [];
  required_proof_type = pos 0;
  public_parameters = [];
  difficulty = pos 0;
  created_at = 0;
  expires_at = 1_000_000_000;
}

abbrev pub prekey_of_bob : ℕ → OneTimePrekey
prekey_of_bob n = record {
  id = n;
  user_hash_id = bob_hash;
  prekey_id = n;
  public_key = n ∷ [];
  used = false;
  created_at = 0;
}

abbrev pub sample_db : Db
sample_db = record {
  users = alice ∷ bob ∷ [];
  auth_challenges = posed_to_alice ∷ [];
  sessions = [];
  friend_requests = [];
  next_friend_request = 1;
  friend_responses = [];
  next_friend_response = 1;
  one_time_prekeys = prekey_of_bob 1 ∷ prekey_of_bob 2 ∷ [];
  next_prekey = 3;
  messages = [];
  next_message = 1;
  relay_messages = [];
  next_relay_message = 1;
  sync_blobs = [];
  app_config = [];
}

abbrev pub sample_world : World
sample_world = record {
  db = sample_db;
  statements = 0;
  limiters = record { relay_push = none; blob_push = none; mid_msg = none; large_msg = none };
  manager = none;
  registry = no_entries;
}
