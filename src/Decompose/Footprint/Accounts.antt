-- ===== src/Decompose/Footprint/Accounts.antt =====
-- handlers/decompose.rs: register, login, recovery and delete leave alone every table that they are
-- not listed to write.
use zenth_dht.Prelude.{◌≡◌, false, arith}
use zenth_dht.Models.{Db}
use zenth_dht.Server.{Env, Readings}
use zenth_dht.Server.Keeps.{Keeps}
use zenth_dht.Method.Register.{RegistrationRequest, insert_user, register}
use zenth_dht.Method.Login.{LoginRequest, insert_challenge, insert_session, login}
use zenth_dht.Method.Delete.{DeleteRequest, delete_account}
use zenth_dht.Method.Recovery.{
  PublishRecoveryKeyRequest, RecoveryClaimRequest, publish_recovery_key, recovery_claim,
}
use zenth_dht.Method.Keeps.Accounts.{
  register-Keeps, login-Keeps, publish_recovery_key-Keeps, recovery_claim-Keeps,
  delete_account-Keeps,
}
use zenth_dht.Decompose.{
  method_register, method_login, method_delete, method_publish_recovery_key, method_recovery_claim,
}
use zenth_dht.Decompose.Tables.{
  Table, users, auth_challenges, sessions, relay_messages, sync_blobs, app_config, Same, writes,
}

module _ (base : Db) (env : Env) (at : Readings) where
  abbrev Kept : Table → Db → Type 0
  Kept t db = Same t db base

  pub register-Same :
      (t : Table) (req : RegistrationRequest)
      → writes t method_register ≡ false
      → Keeps (Kept t) (register env at req)
  unfolding insert_user
  register-Same users req h = cc
  register-Same t req h = register-Keeps (Kept t) env at req (λ row db k. ground arith)

  pub login-Same :
      (t : Table) (req : LoginRequest)
      → writes t method_login ≡ false
      → Keeps (Kept t) (login env at req)
  unfolding insert_challenge insert_session
  login-Same auth_challenges req h = cc
  login-Same sessions req h = cc
  login-Same t req h =
      login-Keeps (Kept t) env at (λ hash db k. k) (λ hash db k. k) (λ row db k. ground arith)
        (λ row db k. ground arith) req

  pub delete_account-Same :
      (t : Table) (req : DeleteRequest)
      → writes t method_delete ≡ false
      → Keeps (Kept t) (delete_account env at req)
  delete_account-Same relay_messages req h =
      delete_account-Keeps (Kept relay_messages) env at (λ hash db k. k) (λ hash db k. k)
        (λ hash db k. k) (λ hash db k. k) (λ hash db k. k) (λ hash db k. k) req
  delete_account-Same sync_blobs req h =
      delete_account-Keeps (Kept sync_blobs) env at (λ hash db k. k) (λ hash db k. k)
        (λ hash db k. k) (λ hash db k. k) (λ hash db k. k) (λ hash db k. k) req
  delete_account-Same app_config req h =
      delete_account-Keeps (Kept app_config) env at (λ hash db k. k) (λ hash db k. k)
        (λ hash db k. k) (λ hash db k. k) (λ hash db k. k) (λ hash db k. k) req
  delete_account-Same t req h = cc

  pub publish_recovery_key-Same :
      (t : Table) (req : PublishRecoveryKeyRequest)
      → writes t method_publish_recovery_key ≡ false
      → Keeps (Kept t) (publish_recovery_key env at req)
  publish_recovery_key-Same users req h = cc
  publish_recovery_key-Same t req h =
      publish_recovery_key-Keeps (Kept t) env at req (λ hash key db k. k)

  pub recovery_claim-Same :
      (t : Table) (req : RecoveryClaimRequest)
      → writes t method_recovery_claim ≡ false
      → Keeps (Kept t) (recovery_claim env at req)
  unfolding insert_session
  recovery_claim-Same users req h = cc
  recovery_claim-Same sessions req h = cc
  recovery_claim-Same t req h =
      recovery_claim-Keeps (Kept t) env at req (λ hash db k. k) (λ row db k. ground arith)
