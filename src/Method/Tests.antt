-- ===== src/Method/Tests.antt =====
-- The login, the deletion of an account, the messages and the recovery on a small server.
use zenth_dht.Prelude.{◌≡◌, ◌≢◌, refl, none, some, [], ◌∷◌, bytes_eq}
use zenth_dht.Crypto.{verify_dilithium_signature}
use zenth_dht.Server.{statement, act, body, give, reject_if, row_or, ◌>>=◌}
use zenth_dht.Server.Samples.{sample_env, noon, alice_hash, sample_token, sample_db, sample_world}
use zenth_dht.Method.Samples.{answer, answering, deleting, formats, greeting}
use zenth_dht.Method.Users.{find_user}
use zenth_dht.Method.Login.{
  second_step, handle_proof_verification, check_proof, insert_session, find_challenge, is_outdated,
  login,
}
use zenth_dht.Method.Login.Proof.{LoginOutcome, issued, login_outcome}
use zenth_dht.Method.Login.Once.{login_once}
use zenth_dht.Method.Delete.{delete_account}
use zenth_dht.Method.Delete.Completeness.{DeleteOutcome, delete_account_outcome}
use zenth_dht.Method.Message.{send_message}
use zenth_dht.Method.Message.Sending.{SendOutcome, send_message_outcome}
use zenth_dht.Method.Recovery.{RecoveryClaimRequest, recovery_claim}
use zenth_dht.Method.Recovery.Claims.{ClaimOutcome, recovery_claim_outcome}

-- The answer to her challenge gives Alice a token.
login_issues : issued (login sample_env noon answering sample_world).0 ≡ some sample_token
unfolding login second_step handle_proof_verification check_proof insert_session find_challenge
    is_outdated verify_dilithium_signature find_user bytes_eq statement act body give reject_if
    row_or ◌>>=◌
login_issues = refl

login_issues_one : issued (login sample_env noon answering sample_world).0 ≢ none
login_issues_one e = cc (login_issues, e)

login_outcome_example :
    LoginOutcome sample_env noon answering sample_db 2
      (login sample_env noon answering sample_world)
login_outcome_example = login_outcome sample_env noon answering sample_world

login_once_example :
    issued (login sample_env noon answering (login sample_env noon answering sample_world).1).0
    ≡ none
login_once_example =
    login_once sample_env sample_env noon noon answering answering sample_world answer answer
      login_issues_one refl refl refl refl

delete_account_outcome_example :
    DeleteOutcome sample_env noon deleting sample_db
      (delete_account sample_env noon deleting sample_world)
delete_account_outcome_example = delete_account_outcome sample_env noon deleting sample_world

send_message_outcome_example :
    SendOutcome sample_env noon formats greeting sample_world
      (send_message sample_env noon formats greeting sample_world)
send_message_outcome_example = send_message_outcome sample_env noon formats greeting sample_world

abbrev claiming : RecoveryClaimRequest
claiming = record {
  username_hash = alice_hash;
  new_identity_dilithium_pubkey = 15 ∷ [];
  new_identity_signature = 4 ∷ [];
  new_pre_key_bundle = 5 ∷ [];
  recovery_signature = 13 ∷ [];
  timestamp = 1_000;
}

recovery_claim_outcome_example :
    ClaimOutcome sample_env noon claiming sample_db
      (recovery_claim sample_env noon claiming sample_world)
recovery_claim_outcome_example = recovery_claim_outcome sample_env noon claiming sample_world
