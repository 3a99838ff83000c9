-- ===== src/Method/Prekeys/Signed.antt =====
-- handlers/method/upload_prekeys.rs, replenish_prekeys.rs and check_prekey_count.rs: what the one
-- signature of the three methods allows.
use zenth_dht.Prelude.{
  ◌≡◌, refl, ℕ, ◌+◌, Bool, true, false, none, some, Option, List, Bytes, is_empty, arith, ◌∙◌,
}
use zenth_dht.Models.{Db, User}
use zenth_dht.Crypto.{verify_dilithium_signature}
use zenth_dht.Timestamp.{is_timestamp_fresh}
use zenth_dht.Server.{Result, done, failed, Env, Readings, World}
use zenth_dht.Server.Rules.{on_reject, on_row, on_sql, on_give}
use zenth_dht.Method.Users.{first_row_found, find_user}
use zenth_dht.Method.Prekeys.{
  PreKeyBundle, PreKeysRequest, PreKeysResponse, CheckPreKeyCountRequest, CheckPreKeyCountResponse,
  is_bad_hash, user_signed_data, prekeys_reply, upload_prekeys, replenish_prekeys,
  check_prekey_count,
}
use zenth_dht.Method.Prekeys.Upload.{IsUpload, add_prekeys-IsUpload}
use zenth_dht.Method.Prekeys.Table.{PreKey, add_prekeys, stock, with_stock}

abbrev pub is_stocked : Result PreKeysResponse → Bool
is_stocked (failed m) = false
is_stocked (done r) = r.success

abbrev pub is_counted : Result CheckPreKeyCountResponse → Bool
is_counted (failed m) = false
is_counted (done r) = r.success

-- The user's identity key has signed the hash and the time.
pub record IsSigned (env : Env) (hash signature : Bytes) (timestamp : ℕ) (db : Db) : Type 0 where
  pub user : User
  pub found : find_user hash db ≡ some user
  pub sized : is_bad_hash hash ≡ false
  pub given : is_empty signature ≡ false
  pub signed :
      verify_dilithium_signature env.dilithium user.identity_key_dilithium
        (user_signed_data hash timestamp)
        signature
      ≡ true

-- The prekeys that the request brings are in the table.
abbrev pub with_prekeys : Readings → PreKeysRequest → Db → Db
with_prekeys at req db =
    with_stock db (add_prekeys req.username_hash at.db_now req.prekeys (stock db)).1

pub data Uploads (env : Env) (at : Readings) (req : PreKeysRequest) (db : Db)
    (r : Result PreKeysResponse) (db' : Db) : Type 0 where
  refused : is_stocked r ≡ false → db' ≡ db → Uploads env at req db r db'
  uploaded :
      IsSigned env req.username_hash req.auth_signature req.timestamp db
      → is_timestamp_fresh at.unix_secs req.timestamp ≡ true
      → is_empty req.prekeys ≡ false
      → r ≡ prekeys_reply (add_prekeys req.username_hash at.db_now req.prekeys (stock db)).0
      → db' ≡ with_prekeys at req db
      → IsUpload req.username_hash db.one_time_prekeys
          (add_prekeys req.username_hash at.db_now req.prekeys (stock db)).0
          db'.one_time_prekeys
      → Uploads env at req db r db'

abbrev UploadOutcome :
    Env → Readings → PreKeysRequest → Db → Result PreKeysResponse × World → Type 0
UploadOutcome env at req db (r, w') = Uploads env at req db r w'.db

module _ (env : Env) (decode_bundle : Bytes → Option PreKeyBundle) (at : Readings) where
  -- Prekeys are uploaded only if the request is fresh and the user's identity key has signed the user's
  -- hash and the time; then new prekeys of this user, all unused, are appended to the table, nothing
  -- else changes, and the reply has their number. An upload without success changes nothing.
  pub upload_prekeys_outcome :
      (req : PreKeysRequest) (w : World)
      → let (r, w') = upload_prekeys env decode_bundle at req w in Uploads env at req w.db r w'.db
  unfolding upload_prekeys
  upload_prekeys_outcome req w =
      let P = UploadOutcome env at req w.db in
      on_reject P _ _ _ w (λ e. refused refl refl)
        λ sized.
          on_reject P _ _ _ w (λ e. refused refl refl)
            λ given.
              on_reject P _ _ _ w (λ e. refused refl refl)
                λ fresh.
                  on_reject P _ _ _ w (λ e. refused refl refl)
                    λ some_given.
                      on_sql P env _ _ w
                        (λ x broken.
                          on_row P _ _ _ _ _ (λ q. refused refl refl) (λ y q. refused refl refl)
                            λ a q. cc)
                        λ sound.
                          on_row P _ _ _ _ _ (λ q. refused refl refl) (λ y q. refused refl refl)
                            λ user q.
                              on_reject P _ _ _ _ (λ e. refused refl refl)
                                λ signed.
                                  on_sql P env _ _ _
                                    (λ x broken.
                                      on_row P _ _ _ _ _ (λ q'. refused refl refl)
                                        (λ y q'. refused refl refl) λ a q'. cc)
                                    λ sound'.
                                      on_row P _ _ _ _ _ (λ q'. cc) (λ y q'. cc)
                                        λ n q'. on_give P _ _ (
                                          uploaded
                                            (record {
                                              user = user;
                                              found = first_row_found _ user q;
                                              sized = sized;
                                              given = given;
                                              signed = ground arith;
                                            })
                                            (ground arith) some_given (cc q') refl
                                            (add_prekeys-IsUpload req.username_hash at.db_now
                                              req.prekeys (stock w.db)))

  -- A count is given only for a signature, and changes nothing.
  IsSigned-of_counted :
      (req : CheckPreKeyCountRequest) (w : World)
      → is_counted (check_prekey_count env decode_bundle at req w).0 ≡ true
      → IsSigned env req.username_hash req.auth_signature req.timestamp w.db
  unfolding check_prekey_count
  IsSigned-of_counted req w =
      let P : Result CheckPreKeyCountResponse × World → Type 0 = λ r.
        is_counted r.0 ≡ true
        → IsSigned env req.username_hash req.auth_signature req.timestamp w.db in
      on_reject P _ _ _ w (λ e h. cc)
        λ sized.
          on_reject P _ _ _ w (λ e h. cc)
            λ given.
              on_sql P env _ _ w
                (λ x broken. on_row P _ _ _ _ _ (λ q h. cc) (λ y q h. cc) λ a q. cc)
                λ sound.
                  on_row P _ _ _ _ _ (λ q h. cc) (λ y q h. cc)
                    λ user q.
                      on_reject P _ _ _ _ (λ e h. cc)
                        λ signed.
                          on_sql P env _ _ _
                            (λ x broken. on_row P _ _ _ _ _ (λ q' h. cc) (λ y q' h. cc) λ a q'. cc)
                            λ sound'.
                              on_row P _ _ _ _ _ (λ q' h. cc) (λ y q' h. cc)
                                λ n q'. on_give P _ _ λ h. record {
                                  user = user;
                                  found = first_row_found _ user q;
                                  sized = sized;
                                  given = given;
                                  signed = ground arith;
                                }

  -- Whatever prekeys come with a signature, at whatever time, they are stored.
  replenished_of_IsSigned :
      (req : PreKeysRequest) (w : World)
      → IsSigned env req.username_hash req.auth_signature req.timestamp w.db
      → is_empty req.prekeys ≡ false
      → ((n : ℕ) → env.fault n ≡ none)
      → let (r, w') = replenish_prekeys env decode_bundle at req w in
        (is_stocked r ≡ true) × (w'.db ≡ with_prekeys at req w.db)
  unfolding replenish_prekeys
  replenished_of_IsSigned req w may brings sound =
      let P : Result PreKeysResponse × World → Type 0 =
        λ r. (is_stocked r.0 ≡ true) × (r.1.db ≡ with_prekeys at req w.db) in
      let user = may.user in
      on_reject P _ _ _ w (λ e. cc (may.sized))
        λ sized.
          on_reject P _ _ _ w (λ e. cc (may.given))
            λ given.
              on_reject P _ _ _ w (λ e. cc)
                λ some_given.
                  on_sql P env _ _ w (λ x broken. cc (sound w.statements))
                    λ _.
                      on_row P _ _ _ _ _ (λ q. cc (may.found)) (λ y q. cc (may.found))
                        λ user q.
                          on_reject P _ _ _ _
                            (λ e. ground (arith, may.signed, may.found, first_row_found _ user q))
                            λ signed.
                              on_sql P env _ _ _ (λ x broken. cc (sound (w.statements + 1)))
                                λ _.
                                  on_row P _ _ _ _ _ (λ q'. cc) (λ y q'. cc)
                                    λ n q'.
                                      on_sql P env _ _ _
                                        (λ x broken. cc (sound (w.statements + 1 + 1)))
                                        λ _.
                                          on_row P _ _ _ _ _ (λ q''. cc) (λ y q''. cc)
                                            λ total q''. on_give P _ _ (refl, refl)

-- Prekeys of anybody's choice, under the signature of a request for a count.
abbrev pub replayed : CheckPreKeyCountRequest → List PreKey → PreKeysRequest
replayed req prekeys = record {
  username_hash = req.username_hash;
  prekeys = prekeys;
  auth_signature = req.auth_signature;
  timestamp = req.timestamp;
}

-- The signature of a request for the count of prekeys that was answered once stores any one or more
-- prekeys for the user, at any later time, as long as the user's row is the same and the database
-- refuses no statement: it covers neither the method nor the prekeys, and `replenish_prekeys` asks
-- for no fresh timestamp.
pub replenish_replayed :
    (env : Env) (decode_bundle : Bytes → Option PreKeyBundle) (at at' : Readings)
    (req : CheckPreKeyCountRequest) (w w' : World) (prekeys : List PreKey)
    → is_counted (check_prekey_count env decode_bundle at req w).0 ≡ true
    → find_user req.username_hash w'.db ≡ find_user req.username_hash w.db
    → is_empty prekeys ≡ false
    → ((n : ℕ) → env.fault n ≡ none)
    → let (r, after) = replenish_prekeys env decode_bundle at' (replayed req prekeys) w' in
      (is_stocked r ≡ true) × (after.db ≡ with_prekeys at' (replayed req prekeys) w'.db)
replenish_replayed env decode_bundle at at' req w w' prekeys counted same brings sound =
    let seen = IsSigned-of_counted env decode_bundle at req w counted in
    replenished_of_IsSigned env decode_bundle at' (replayed req prekeys) w'
      (record {
        user = seen.user;
        found = same ∙ seen.found;
        sized = seen.sized;
        given = seen.given;
        signed = seen.signed;
      })
      brings sound
