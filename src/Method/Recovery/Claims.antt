-- ===== src/Method/Recovery/Claims.antt =====
-- handlers/method/recovery.rs: who changes which key.
use zenth_dht.Prelude.{
  ◌≡◌, refl, ap, ◌⊎◌, inl, inr, Bool-cases, Bool, true, false, [], ◌∷◌, ◌++◌, some, Bytes, bytes_eq,
  is_empty, any, update_where, arith,
}
use zenth_dht.Models.{Db, User, Session}
use zenth_dht.Crypto.{verify_dilithium_signature}
use zenth_dht.Timestamp.{is_timestamp_fresh}
use zenth_dht.Server.{ok, Result, done, failed, Env, Readings, World, body}
use zenth_dht.Server.Rules.{on_reject, on_row, on_sql, on_give}
use zenth_dht.Method.Users.{first_row_found, find_user, is_user}
use zenth_dht.Method.Login.{insert_session}
use zenth_dht.Method.Recovery.{
  PublishRecoveryKeyRequest, PublishRecoveryKeyResponse, RecoveryClaimRequest,
  RecoveryClaimResponse, publish_signed_data, claim_signed_data, with_recovery_key, with_identity,
  recovery_key, recovery_session, issue_session, publish_recovery_key, recovery_claim,
}

abbrev pub is_published : Result PublishRecoveryKeyResponse → Bool
is_published (failed m) = false
is_published (done r) = r.success

abbrev pub is_claimed : Result RecoveryClaimResponse → Bool
is_claimed (failed m) = false
is_claimed (done r) = r.success

-- The identity key of the user has signed the recovery key.
pub record MayPublish (env : Env) (at : Readings) (req : PublishRecoveryKeyRequest) (db : Db)
    : Type 0 where
  pub user : User
  pub found : find_user req.username_hash db ≡ some user
  pub fresh : is_timestamp_fresh at.unix_secs req.timestamp ≡ true
  pub key : is_empty req.recovery_dilithium_pubkey ≡ false
  pub signed :
      verify_dilithium_signature env.dilithium user.identity_key_dilithium
        (publish_signed_data req)
        req.auth_signature
      ≡ true

abbrev pub updated_users : Bytes → (User → User) → Db → Db
updated_users hash f db = record db { users = update_where (is_user hash) f db.users }

abbrev pub PublishOutcome :
    Env
    → Readings
    → PublishRecoveryKeyRequest
    → Db
    → Result PublishRecoveryKeyResponse × World
    → Type 0
PublishOutcome env at req db (r, w') =
    ((is_published r ≡ false) × (w'.db ≡ db))
    ⊎ (MayPublish env at req db
        × (is_published r ≡ true)
        × (w'.db
            ≡ updated_users req.username_hash (with_recovery_key req.recovery_dilithium_pubkey) db))

-- A recovery key is stored only if the request is fresh and signed by the user's identity key, and
-- then it is the only change; a request without success changes nothing.
pub publish_recovery_key_outcome :
    (env : Env) (at : Readings) (req : PublishRecoveryKeyRequest) (w : World)
    → PublishOutcome env at req w.db (publish_recovery_key env at req w)
unfolding publish_recovery_key
publish_recovery_key_outcome env at req w =
    let P = PublishOutcome env at req w.db in
    on_reject P _ _ _ w (λ e. inl (refl, refl))
      λ sized.
        on_reject P _ _ _ w (λ e. inl (refl, refl))
          λ given.
            on_reject P _ _ _ w (λ e. inl (refl, refl))
              λ sealed.
                on_reject P _ _ _ w (λ e. inl (refl, refl))
                  λ fresh.
                    on_sql P env _ _ w
                      (λ x broken.
                        on_row P _ _ _ _ _ (λ q. inl (refl, refl)) (λ y q. inl (refl, refl))
                          λ a q. cc)
                      λ sound.
                        on_row P _ _ _ _ _ (λ q. inl (refl, refl)) (λ y q. inl (refl, refl))
                          λ user q.
                            on_reject P _ _ _ _ (λ e. inl (refl, refl))
                              λ signed.
                                on_sql P env _ _ _
                                  (λ x broken.
                                    on_row P _ _ _ _ _ (λ q'. inl (refl, refl))
                                      (λ y q'. inl (refl, refl)) λ a q'. cc)
                                  λ sound'.
                                    on_row P _ _ _ _ _ (λ q'. cc) (λ y q'. cc)
                                      λ a q'. on_give P _ _ (
                                        inr (
                                          record {
                                            user = user;
                                            found = first_row_found _ user q;
                                            fresh = ground arith;
                                            key = ground arith;
                                            signed = ground arith;
                                          },
                                          refl,
                                          refl,
                                        ))

-- The recovery key that the user has published has signed the new identity key.
pub record MayClaim (env : Env) (at : Readings) (req : RecoveryClaimRequest) (db : Db)
    : Type 0 where
  pub user : User
  pub key : Bytes
  pub found : find_user req.username_hash db ≡ some user
  pub published : recovery_key user ≡ ok key
  pub fresh : is_timestamp_fresh at.unix_secs req.timestamp ≡ true
  pub signed :
      verify_dilithium_signature env.dilithium key (claim_signed_data req) req.recovery_signature
      ≡ true

abbrev pub with_session : Session → Db → Db
with_session s db = record db { sessions = db.sessions ++ s ∷ [] }

-- What a claim may do to database `db`: nothing; the new identity and the session; or, where the
-- database refuses the session, the new identity alone.
pub data Claims (env : Env) (at : Readings) (req : RecoveryClaimRequest) (db : Db)
    (r : Result RecoveryClaimResponse) (db' : Db) : Type 0 where
  refused : is_claimed r ≡ false → db' ≡ db → Claims env at req db r db'
  half_done :
      MayClaim env at req db
      → is_claimed r ≡ false
      → db' ≡ updated_users req.username_hash (with_identity req) db
      → Claims env at req db r db'
  claimed :
      MayClaim env at req db
      → is_claimed r ≡ true
      → db'
        ≡ with_session
            (recovery_session env at req.username_hash)
            (updated_users req.username_hash (with_identity req) db)
      → Claims env at req db r db'

abbrev pub ClaimOutcome :
    Env → Readings → RecoveryClaimRequest → Db → Result RecoveryClaimResponse × World → Type 0
ClaimOutcome env at req db (r, w') = Claims env at req db r w'.db

module _ (env : Env) (at : Readings) (req : RecoveryClaimRequest) where
  issue_outcome :
      (w v : World)
      → MayClaim env at req w.db
      → v.db ≡ updated_users req.username_hash (with_identity req) w.db
      → ClaimOutcome env at req w.db (body (issue_session env at req.username_hash) v)
  unfolding issue_session insert_session
  issue_outcome w v may same =
      let P = ClaimOutcome env at req w.db in
      on_sql P env _ _ v
        (λ x broken.
          on_row P _ _ _ _ _ (λ q. half_done may refl same) (λ y q. half_done may refl same)
            λ a q. cc)
        λ sound.
          elim (Bool-cases (any (λ s. bytes_eq s.session_token at.random_token) v.db.sessions)) [
            | inl taken ↦
                rw (taken, insert_session)
                  (on_row P _ _ _ _ _ (λ q. half_done may refl same)
                    (λ y q. half_done may refl same) λ a q. cc)
            | inr free ↦
                rw (free, insert_session)
                  (on_row P _ _ _ _ _ (λ q. cc) (λ y q. cc)
                    λ a q. on_give P _ _ (
                      claimed may refl
                        (ap (with_session (recovery_session env at req.username_hash)) same)))
          ]

  -- Every claim that changes anything was fresh and signed with the recovery key that the user had
  -- published; it replaces the user's identity, and success is reported exactly when the session for
  -- the user is stored as well.
  pub recovery_claim_outcome :
      (w : World) → ClaimOutcome env at req w.db (recovery_claim env at req w)
  unfolding recovery_claim insert_session
  recovery_claim_outcome w =
      let P = ClaimOutcome env at req w.db in
      on_reject P _ _ _ w (λ e. refused refl refl)
        λ sized.
          on_reject P _ _ _ w (λ e. refused refl refl)
            λ given.
              on_reject P _ _ _ w (λ e. refused refl refl)
                λ sealed.
                  on_reject P _ _ _ w (λ e. refused refl refl)
                    λ fresh.
                      on_sql P env _ _ w
                        (λ x broken.
                          on_row P _ _ _ _ _ (λ q. refused refl refl) (λ y q. refused refl refl)
                            λ a q. cc)
                        λ sound.
                          on_row P _ _ _ _ _ (λ q. refused refl refl) (λ y q. refused refl refl)
                            λ user q.
                              on_row P _ _ _ _ _ (λ q. refused refl refl) (λ y q. refused refl refl)
                                λ key published.
                                  on_reject P _ _ _ _ (λ e. refused refl refl)
                                    λ signed.
                                      on_sql P env _ _ _
                                        (λ x broken.
                                          on_row P _ _ _ _ _ (λ q'. refused refl refl)
                                            (λ y q'. refused refl refl) λ a q'. cc)
                                        λ sound'.
                                          on_row P _ _ _ _ _ (λ q'. cc) (λ y q'. cc)
                                            λ a q'.
                                              issue_outcome w _
                                                (record {
                                                  user = user;
                                                  key = key;
                                                  found = first_row_found _ user q;
                                                  published = published;
                                                  fresh = ground arith;
                                                  signed = ground arith;
                                                })
                                                refl
