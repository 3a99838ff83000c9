-- ===== src/Method/Keeps/Accounts.antt =====
-- handlers/method/register.rs, login.rs, recovery.rs and delete.rs: what they keep of the database, if
-- each statement that they send does.
use zenth_dht.Prelude.{ℕ, none, some, Bool, true, false, Bytes, List, Option, arith}
use zenth_dht.Models.{Db, User, AuthChallenge, Session}
use zenth_dht.Server.{Env, Readings}
use zenth_dht.Server.Keeps.{Keeps, Keeps-untouched, keeps_rules}
use zenth_dht.Method.Register.{RegistrationRequest, insert_user, register}
use zenth_dht.Method.Login.{
  AuthProof, LoginRequest, delete_challenges_of, delete_challenge, insert_challenge, insert_session,
  handle_challenge_request, check_proof, handle_proof_verification, second_step, login,
}
use zenth_dht.Method.Recovery.{
  PublishRecoveryKeyRequest, RecoveryClaimRequest, update_user, with_recovery_key, with_identity,
  publish_recovery_key, issue_session, recovery_claim,
}
use zenth_dht.Method.Delete.{
  DeleteRequest, delete_responses, delete_requests, delete_messages, delete_sessions,
  delete_challenges, delete_user, disconnect, delete_responses_to, delete_rows, delete_user_data,
  delete_account,
}

module _ (I : Db → Type 0) (env : Env) where
  unchanged : (db : Db) → I db → I db
  unchanged db h = h

  untouched : Keeps I {A = Unit {0}} (λ w. (tt, w))
  untouched = record { at = λ w h. h }

  pub register-Keeps :
      (at : Readings) (req : RegistrationRequest)
      → ((row : User) (db : Db) → I db → I (insert_user row db).1)
      → Keeps I (register env at req)
  unfolding register
  register-Keeps at req inserts = search keeps_rules depth 60

  module _ (at : Readings)
      (challenges_deleted : (hash : Bytes) (db : Db) → I db → I (delete_challenges_of hash db).1)
      (challenge_deleted : (id : Bytes) (db : Db) → I db → I (delete_challenge id db).1)
      (challenge_inserted : (row : AuthChallenge) (db : Db) → I db → I (insert_challenge row db).1)
      (session_inserted : (row : Session) (db : Db) → I db → I (insert_session row db).1) where
    second_step-Keeps :
        (hash : Bytes) (asks : Bool) (proof : Option AuthProof) (user : User)
        → Keeps I (second_step env at hash asks proof user)
    unfolding second_step handle_challenge_request handle_proof_verification check_proof
    second_step-Keeps hash true proof user = search keeps_rules depth 60
    second_step-Keeps hash false (some proof) user = search (keeps_rules, unchanged) depth 60
    second_step-Keeps hash false none user = search keeps_rules depth 60

    pub login-Keeps : (req : LoginRequest) → Keeps I (login env at req)
    unfolding login
    login-Keeps req = search (keeps_rules, unchanged, second_step-Keeps) depth 60

  pub publish_recovery_key-Keeps :
      (at : Readings) (req : PublishRecoveryKeyRequest)
      → ((hash key : Bytes) (db : Db) → I db → I (update_user hash (with_recovery_key key) db).1)
      → Keeps I (publish_recovery_key env at req)
  unfolding publish_recovery_key
  publish_recovery_key-Keeps at req updated = search (keeps_rules, unchanged) depth 60

  pub recovery_claim-Keeps :
      (at : Readings) (req : RecoveryClaimRequest)
      → ((hash : Bytes) (db : Db) → I db → I (update_user hash (with_identity req) db).1)
      → ((row : Session) (db : Db) → I db → I (insert_session row db).1)
      → Keeps I (recovery_claim env at req)
  unfolding recovery_claim issue_session
  recovery_claim-Keeps at req updated inserted = search (keeps_rules, unchanged) depth 60

  disconnect-Keeps : (hash : Bytes) → Keeps I (disconnect hash)
  unfolding disconnect
  disconnect-Keeps hash = Keeps-untouched _ λ w. ground arith

  module _ (at : Readings)
      (responses : (ids : List ℕ) (db : Db) → I db → I (delete_responses ids db).1)
      (requests : (hash : Bytes) (db : Db) → I db → I (delete_requests hash db).1)
      (messages : (hash : Bytes) (db : Db) → I db → I (delete_messages hash db).1)
      (sessions : (hash : Bytes) (db : Db) → I db → I (delete_sessions hash db).1)
      (challenges : (hash : Bytes) (db : Db) → I db → I (delete_challenges hash db).1)
      (user : (hash : Bytes) (db : Db) → I db → I (delete_user hash db).1) where
    delete_rows-Keeps : (hash : Bytes) → Keeps I (delete_rows env at hash)
    unfolding delete_rows
    delete_rows-Keeps hash = search keeps_rules depth 60

    delete_user_data-Keeps : (hash : Bytes) → Keeps I (delete_user_data env at hash)
    unfolding delete_user_data delete_responses_to
    delete_user_data-Keeps hash =
        search (keeps_rules, unchanged, untouched, delete_rows-Keeps) depth 60

    pub delete_account-Keeps : (req : DeleteRequest) → Keeps I (delete_account env at req)
    unfolding delete_account
    delete_account-Keeps req =
        search (keeps_rules, unchanged, delete_user_data-Keeps, disconnect-Keeps) depth 60
