-- ===== src/Method/Relay/Tests.antt =====
-- The mailbox of a device on a small server.
use zenth_dht.Prelude.{ℕ, ◌≡◌, ◌++◌, List, [], ◌∷◌, take, pos, arith, Ascends}
use zenth_dht.Models.{RelayMessage}
use zenth_dht.Server.{World}
use zenth_dht.Server.Samples.{sample_env, noon, sample_db, sample_world}
use zenth_dht.Method.Relay.{RelayPushRequest, RelayFetchRequest, pending, push_relay, fetch_relay}
use zenth_dht.Method.Relay.Push.{PushOutcome, push_relay_outcome}
use zenth_dht.Method.Relay.Fetch.{FetchOutcome, last_id, fetch_relay_outcome, pending_pages}

abbrev waiting : ℕ → RelayMessage
waiting n = record {
  id = n;
  for_device_dilithium_pubkey = 30 ∷ [];
  ciphertext = n ∷ [];
  nonce = [];
  expires_at = 2_000_000_000;
}

abbrev rows : List RelayMessage
rows = waiting 1 ∷ waiting 2 ∷ waiting 4 ∷ []

abbrev mailbox : World
mailbox = record sample_world {
  db = record sample_db { relay_messages = rows; next_relay_message = 5 };
}

abbrev pushing : RelayPushRequest
pushing = record {
  for_device_dilithium_pubkey = 30 ∷ [];
  ciphertext = 1 ∷ [];
  nonce = 1 ∷ 2 ∷ 3 ∷ 4 ∷ 5 ∷ 6 ∷ 7 ∷ 8 ∷ 9 ∷ 10 ∷ 11 ∷ 12 ∷ [];
  sender_dilithium_pubkey = 31 ∷ [];
  sender_signature = 31 ∷ [];
  timestamp = 1_000;
  ttl_secs = 5;
}

abbrev fetching : RelayFetchRequest
fetching = record {
  for_device_dilithium_pubkey = 30 ∷ [];
  since_id = pos 1;
  limit = 0;
  signature = 30 ∷ [];
  timestamp = 1_000;
}

push_relay_outcome_example :
    PushOutcome sample_env noon pushing mailbox (push_relay sample_env noon pushing mailbox)
push_relay_outcome_example = push_relay_outcome sample_env noon pushing mailbox

rows-Ascends : Ascends (λ (r : RelayMessage). r.id) 0 rows
rows-Ascends = (omega arith, (omega arith, (omega arith, tt)))

fetch_relay_outcome_example :
    FetchOutcome sample_env noon fetching mailbox (fetch_relay sample_env noon fetching mailbox)
fetch_relay_outcome_example = fetch_relay_outcome sample_env noon fetching mailbox

pending_pages_example :
    let page = take 2 (pending (30 ∷ []) (pos 0) 1_000 rows) in
    page ++ pending (30 ∷ []) (last_id (pos 0) page) 1_000 rows
    ≡ pending (30 ∷ []) (pos 0) 1_000 rows
pending_pages_example = pending_pages (30 ∷ []) (pos 0) 1_000 0 2 rows rows-Ascends
