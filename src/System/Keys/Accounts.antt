-- ===== src/System/Keys/Accounts.antt =====
-- handlers/method/register.rs, login.rs, delete.rs and recovery.rs: the keys of the tables are kept.
use zenth_dht.Prelude.{
  refl, inl, inr, Bool-cases, any, bytes_eq_comm, Distinct-append, Distinct-retain,
  Distinct-update_where, arith,
}
use zenth_dht.Models.{Db, User, AuthChallenge, Session}
use zenth_dht.Server.{Env, Readings}
use zenth_dht.Server.Keeps.{Keeps}
use zenth_dht.Method.Users.{is_user}
use zenth_dht.Method.Register.{RegistrationRequest, insert_user, register}
use zenth_dht.Method.Login.{
  LoginRequest, has_challenge_id, has_token, insert_challenge, insert_session, login,
}
use zenth_dht.Method.Delete.{DeleteRequest, delete_account}
use zenth_dht.Method.Recovery.{
  PublishRecoveryKeyRequest, RecoveryClaimRequest, with_recovery_key, with_identity,
  publish_recovery_key, recovery_claim,
}
use zenth_dht.Method.Contact.Pairs.{same_pair}
use zenth_dht.Method.Prekeys.Upload.{same_prekey}
use zenth_dht.Method.Keeps.Accounts.{
  register-Keeps, login-Keeps, publish_recovery_key-Keeps, recovery_claim-Keeps,
  delete_account-Keeps,
}
use zenth_dht.Decompose.Tables.{
  Table, users, auth_challenges, sessions, friend_requests, friend_responses, one_time_prekeys,
  messages,
}
use zenth_dht.System.Keys.{
  same_user, same_challenge, same_token, same_message, IsSerial-retain, KeysOf,
}

user_inserted : (row : User) (db : Db) → KeysOf users db → KeysOf users (insert_user row db).1
unfolding insert_user
user_inserted row db h = elim (Bool-cases (any (is_user row.user_hash_id) db.users)) [
  | inl held ↦ rw (held, insert_user) h
  | inr free ↦
      rw (free, insert_user)
        (Distinct-append same_user (λ u v. bytes_eq_comm v.user_hash_id u.user_hash_id) db.users row
          free h)
]

challenge_inserted :
    (row : AuthChallenge) (db : Db)
    → KeysOf auth_challenges db
    → KeysOf auth_challenges (insert_challenge row db).1
unfolding insert_challenge
challenge_inserted row db h =
    elim (Bool-cases (any (has_challenge_id row.challenge_id) db.auth_challenges)) [
      | inl held ↦ rw (held, insert_challenge) h
      | inr free ↦
          rw (free, insert_challenge)
            (Distinct-append same_challenge (λ c d. bytes_eq_comm d.challenge_id c.challenge_id)
              db.auth_challenges row free h)
    ]

session_inserted :
    (row : Session) (db : Db) → KeysOf sessions db → KeysOf sessions (insert_session row db).1
unfolding insert_session
session_inserted row db h = elim (Bool-cases (any (has_token row.session_token) db.sessions)) [
  | inl held ↦ rw (held, insert_session) h
  | inr free ↦
      rw (free, insert_session)
        (Distinct-append same_token (λ s t. bytes_eq_comm t.session_token s.session_token)
          db.sessions row free h)
]

module _ (env : Env) (at : Readings) where
  pub register-KeysOf :
      (t : Table) (req : RegistrationRequest) → Keeps (KeysOf t) (register env at req)
  unfolding insert_user
  register-KeysOf users req = register-Keeps (KeysOf users) env at req user_inserted
  register-KeysOf t req = register-Keeps (KeysOf t) env at req (λ row db k. ground arith)

  pub login-KeysOf : (t : Table) (req : LoginRequest) → Keeps (KeysOf t) (login env at req)
  unfolding insert_challenge insert_session
  login-KeysOf auth_challenges req =
      login-Keeps (KeysOf auth_challenges) env at
        (λ hash db k. Distinct-retain same_challenge _ db.auth_challenges k)
        (λ id db k. Distinct-retain same_challenge _ db.auth_challenges k) challenge_inserted
        (λ row db k. ground arith) req
  login-KeysOf sessions req =
      login-Keeps (KeysOf sessions) env at (λ hash db k. k) (λ hash db k. k)
        (λ row db k. ground arith) session_inserted req
  login-KeysOf t req =
      login-Keeps (KeysOf t) env at (λ hash db k. k) (λ hash db k. k) (λ row db k. ground arith)
        (λ row db k. ground arith) req

  pub publish_recovery_key-KeysOf :
      (t : Table) (req : PublishRecoveryKeyRequest)
      → Keeps (KeysOf t) (publish_recovery_key env at req)
  publish_recovery_key-KeysOf users req =
      publish_recovery_key-Keeps (KeysOf users) env at req λ hash key db k.
        Distinct-update_where same_user (is_user hash) (with_recovery_key key) db.users
          (λ u v. refl) (λ u v. refl) k
  publish_recovery_key-KeysOf t req =
      publish_recovery_key-Keeps (KeysOf t) env at req (λ hash key db k. k)

  pub recovery_claim-KeysOf :
      (t : Table) (req : RecoveryClaimRequest) → Keeps (KeysOf t) (recovery_claim env at req)
  unfolding insert_session
  recovery_claim-KeysOf users req =
      recovery_claim-Keeps (KeysOf users) env at req
        (λ hash db k.
          Distinct-update_where same_user (is_user hash) (with_identity req) db.users (λ u v. refl)
            (λ u v. refl) k)
        (λ row db k. ground arith)
  recovery_claim-KeysOf sessions req =
      recovery_claim-Keeps (KeysOf sessions) env at req (λ hash db k. k) session_inserted
  recovery_claim-KeysOf t req =
      recovery_claim-Keeps (KeysOf t) env at req (λ hash db k. k) (λ row db k. ground arith)

  -- Every statement of a deletion only removes rows.
  pub delete_account-KeysOf :
      (t : Table) (req : DeleteRequest) → Keeps (KeysOf t) (delete_account env at req)
  delete_account-KeysOf users req =
      delete_account-Keeps (KeysOf users) env at (λ ids db k. k) (λ hash db k. k) (λ hash db k. k)
        (λ hash db k. k) (λ hash db k. k) (λ hash db k. Distinct-retain same_user _ db.users k) req
  delete_account-KeysOf auth_challenges req =
      delete_account-Keeps (KeysOf auth_challenges) env at (λ ids db k. k) (λ hash db k. k)
        (λ hash db k. k) (λ hash db k. k)
        (λ hash db k. Distinct-retain same_challenge _ db.auth_challenges k)
        (λ hash db k. Distinct-retain same_challenge _ db.auth_challenges k) req
  delete_account-KeysOf sessions req =
      delete_account-Keeps (KeysOf sessions) env at (λ ids db k. k) (λ hash db k. k)
        (λ hash db k. k) (λ hash db k. Distinct-retain same_token _ db.sessions k) (λ hash db k. k)
        (λ hash db k. Distinct-retain same_token _ db.sessions k) req
  delete_account-KeysOf friend_requests req =
      delete_account-Keeps (KeysOf friend_requests) env at (λ ids db k. k)
        (λ hash db k. Distinct-retain same_pair _ db.friend_requests k) (λ hash db k. k)
        (λ hash db k. k) (λ hash db k. k)
        (λ hash db k. Distinct-retain same_pair _ db.friend_requests k) req
  delete_account-KeysOf friend_responses req =
      delete_account-Keeps (KeysOf friend_responses) env at
        (λ ids db k. IsSerial-retain _ db.friend_responses db.next_friend_response k _)
        (λ hash db k. IsSerial-retain _ db.friend_responses db.next_friend_response k _)
        (λ hash db k. k) (λ hash db k. k) (λ hash db k. k)
        (λ hash db k. IsSerial-retain _ db.friend_responses db.next_friend_response k _) req
  delete_account-KeysOf one_time_prekeys req =
      delete_account-Keeps (KeysOf one_time_prekeys) env at (λ ids db k. k) (λ hash db k. k)
        (λ hash db k. k) (λ hash db k. k) (λ hash db k. k)
        (λ hash db k. Distinct-retain same_prekey _ db.one_time_prekeys k) req
  delete_account-KeysOf messages req =
      delete_account-Keeps (KeysOf messages) env at (λ ids db k. k) (λ hash db k. k)
        (λ hash db k. Distinct-retain same_message _ db.messages k) (λ hash db k. k)
        (λ hash db k. k) (λ hash db k. k) req
  delete_account-KeysOf t req =
      delete_account-Keeps (KeysOf t) env at (λ ids db k. k) (λ hash db k. k) (λ hash db k. k)
        (λ hash db k. k) (λ hash db k. k) (λ hash db k. k) req
