-- ===== src/Method/Prekeys/Tests.antt =====
-- The one-time prekeys on a small server.
use zenth_dht.Prelude.{
  ◌≡◌, ◌≢◌, refl, Option, none, some, true, List, [], ◌∷◌, Bytes, bytes_eq, order_by, All, ◌==◌,
}
use zenth_dht.Crypto.{verify_dilithium_signature}
use zenth_dht.Server.{statement, act, body, give, reject_if, row_or, ◌>>=◌}
use zenth_dht.Server.Samples.{
  sample_env, noon, alice_hash, bob_hash, prekey_of_bob, sample_db, sample_world,
}
use zenth_dht.Method.Users.{find_user}
use zenth_dht.Method.Prekeys.{
  PreKeyBundle, FetchPreKeyBundleRequest, bundle_reply, with_prekey, CheckPreKeyCountRequest,
  check_prekey_count, upload_prekeys, replenish_prekeys, consume, hand_out, deliver,
  fetch_prekey_bundle,
}
use zenth_dht.Method.Prekeys.Table.{
  PreKey, Stock, is_unused_of, select_unused, next_unused, mark_used, add_prekeys,
}
use zenth_dht.Method.Prekeys.Delivery.{
  FetchOutcome, delivered, fetch_prekey_bundle_outcome, fetch_prekey_bundle_once,
}
use zenth_dht.Method.Prekeys.Signed.{
  Uploads, is_counted, is_stocked, with_prekeys, replayed, upload_prekeys_outcome,
  replenish_replayed,
}
use zenth_dht.Method.Prekeys.Race.{same_prekey_twice}

abbrev bare_bundle : Bytes → PreKeyBundle
bare_bundle b = record {
  pre_key_id = 0;
  pre_key_public = [];
  signed_pre_key_public = b;
  pq_pre_key_public = none;
  others = [];
}

abbrev bundle_of : Bytes → Option PreKeyBundle
bundle_of b = some (bare_bundle b)

abbrev asking_for_bob : FetchPreKeyBundleRequest
asking_for_bob = record {
  requester_hash = alice_hash;
  target_hash = bob_hash;
  auth_signature = 11 ∷ [];
  timestamp = 1_000;
}

bob_next : next_unused bob_hash sample_db.one_time_prekeys ≡ some (prekey_of_bob 1)
unfolding next_unused order_by bytes_eq
bob_next = refl

fetch_delivers :
    delivered (fetch_prekey_bundle sample_env bundle_of noon asking_for_bob sample_world).0
    ≡ some (record {
      pre_key_id = 1;
      pre_key_public = 1 ∷ [];
      signed_pre_key_public = 5 ∷ [];
      pq_pre_key_public = none;
      others = [];
    })
unfolding fetch_prekey_bundle deliver hand_out consume next_unused order_by
    verify_dilithium_signature find_user bytes_eq statement act body give reject_if row_or ◌>>=◌
fetch_delivers = refl

bob_next_after :
    next_unused bob_hash
      (fetch_prekey_bundle sample_env bundle_of noon asking_for_bob
        sample_world).1.db.one_time_prekeys
    ≡ some (prekey_of_bob 2)
unfolding fetch_prekey_bundle deliver hand_out consume next_unused mark_used order_by
    verify_dilithium_signature find_user bytes_eq statement act body give reject_if row_or ◌>>=◌
bob_next_after = refl

fetch_prekey_bundle_outcome_example :
    FetchOutcome sample_env bundle_of asking_for_bob sample_db
      (fetch_prekey_bundle sample_env bundle_of noon asking_for_bob sample_world)
fetch_prekey_bundle_outcome_example =
    fetch_prekey_bundle_outcome sample_env bundle_of noon asking_for_bob sample_world

fetch_prekey_bundle_once_example : (prekey_of_bob 2).id ≢ (prekey_of_bob 1).id
fetch_prekey_bundle_once_example =
    fetch_prekey_bundle_once sample_env bundle_of noon asking_for_bob sample_world bob_hash
      (prekey_of_bob 1) (prekey_of_bob 2) (λ e. cc (fetch_delivers, e)) bob_next bob_next_after

same_prekey_twice_example :
    let (picked, w1) = statement sample_env (select_unused bob_hash) sample_world in
    let (second, w2) =
      body (deliver sample_env bundle_of noon bob_hash (some (bare_bundle (5 ∷ [])))) w1 in
    let (first, w3) = body (hand_out sample_env bundle_of noon (bare_bundle (5 ∷ [])) picked) w2 in
    (is_unused_of bob_hash (prekey_of_bob 1) ≡ true)
    × (first ≡ bundle_reply (with_prekey (bare_bundle (5 ∷ [])) (prekey_of_bob 1)))
    × (second ≡ bundle_reply (with_prekey (bare_bundle (5 ∷ [])) (prekey_of_bob 1)))
    × All (λ x. (x.id == 1) ≡ true → x.used ≡ true) w3.db.one_time_prekeys
    × (body (deliver sample_env bundle_of noon bob_hash (some (bare_bundle (5 ∷ [])))) sample_world
        ≡ body (hand_out sample_env bundle_of noon (bare_bundle (5 ∷ [])) picked) w1)
same_prekey_twice_example =
    same_prekey_twice sample_env bundle_of noon bob_hash (bare_bundle (5 ∷ []))
      (bare_bundle (5 ∷ [])) (prekey_of_bob 1) sample_world bob_next (λ n. refl)

abbrev held : Stock
held = record { rows = prekey_of_bob 1 ∷ prekey_of_bob 2 ∷ []; next_id = 3 }

-- One id that is held, and one that is sent twice.
abbrev offered : List PreKey
offered =
    record { pre_key_id = 2; public_key = 40 ∷ [] }
    ∷ record { pre_key_id = 5; public_key = 41 ∷ [] }
    ∷ record { pre_key_id = 5; public_key = 42 ∷ [] }
    ∷ []

adds_one : (add_prekeys bob_hash 9 offered held).0 ≡ 1
unfolding add_prekeys bytes_eq
adds_one = refl

-- Bob uploads, after he has asked for a count.
abbrev counting : CheckPreKeyCountRequest
counting = record { username_hash = bob_hash; auth_signature = 12 ∷ []; timestamp = 1_000 }

upload_prekeys_outcome_example :
    let (r, w') =
      upload_prekeys sample_env bundle_of noon (replayed counting offered) sample_world in
    Uploads sample_env noon (replayed counting offered) sample_db r w'.db
upload_prekeys_outcome_example =
    upload_prekeys_outcome sample_env bundle_of noon (replayed counting offered) sample_world

counting-is_counted :
    is_counted (check_prekey_count sample_env bundle_of noon counting sample_world).0 ≡ true
unfolding check_prekey_count verify_dilithium_signature find_user bytes_eq statement act body give
    reject_if row_or ◌>>=◌
counting-is_counted = refl

replenish_replayed_example :
    let (r, after) =
      replenish_prekeys sample_env bundle_of noon (replayed counting offered) sample_world in
    (is_stocked r ≡ true) × (after.db ≡ with_prekeys noon (replayed counting offered) sample_db)
replenish_replayed_example =
    replenish_replayed sample_env bundle_of noon noon counting sample_world sample_world offered
      counting-is_counted refl refl (λ n. refl)
