-- ===== src/Method/SyncBlob/Tests.antt =====
-- The blob of a device on a small server.
use zenth_dht.Prelude.{◌≡◌, refl, true, some, [], ◌∷◌, bytes_eq, arith}
use zenth_dht.Crypto.{verify_dilithium_signature}
use zenth_dht.Timestamp.{is_timestamp_fresh}
use zenth_dht.RateLimit.{allowed_by, blob_push_allowed}
use zenth_dht.Server.{statement, act, body, give, reject_if, ◌>>=◌}
use zenth_dht.Server.Samples.{sample_env, noon, sample_world}
use zenth_dht.Method.SyncBlob.{
  SyncPushBlobRequest, SyncBlobRequest, blob_push_admitted, push_blob, fetch_blob,
}
use zenth_dht.Method.SyncBlob.Outcomes.{IsRequest, succeeded, shown, fetch_blob-push_blob}

abbrev pushing : SyncPushBlobRequest
pushing = record {
  for_device_dilithium_pubkey = 30 ∷ [];
  ciphertext = 1 ∷ 2 ∷ [];
  signature = 3 ∷ [];
  sender_dilithium_pubkey = 31 ∷ [];
  auth_signature = 31 ∷ [];
  timestamp = 1_000;
  ttl_secs = 600;
}

abbrev fetching : SyncBlobRequest
fetching = record {
  for_device_dilithium_pubkey = 30 ∷ [];
  requester_dilithium_pubkey = [];
  signature = 30 ∷ [];
  timestamp = 1_000;
}

push_succeeds : succeeded (push_blob sample_env noon pushing sample_world).0 ≡ true
unfolding push_blob blob_push_admitted blob_push_allowed allowed_by is_timestamp_fresh
    verify_dilithium_signature bytes_eq statement act body give reject_if ◌>>=◌
push_succeeds = refl

fetching-IsRequest : IsRequest sample_env noon fetching
unfolding is_timestamp_fresh verify_dilithium_signature bytes_eq
fetching-IsRequest = record { device = refl; given = refl; fresh = refl; signed = refl }

fetch_blob-push_blob_example :
    shown (fetch_blob sample_env noon fetching (push_blob sample_env noon pushing sample_world).1).0
    ≡ some (1 ∷ 2 ∷ [], 3 ∷ [])
fetch_blob-push_blob_example =
    fetch_blob-push_blob sample_env sample_env noon noon pushing fetching sample_world push_succeeds
      fetching-IsRequest refl refl (omega arith)
