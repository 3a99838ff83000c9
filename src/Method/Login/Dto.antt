-- ===== src/Method/Login/Dto.antt =====
-- handlers/method/: the messages of zenth_dto for login.rs, with the fields that the code uses.
use zenth_dht.Prelude.{ℕ, Bool, Option, String, Bytes, ℤ}
use zenth_dht.Server.{Message}

pub record AuthProof : Type 0 where
  pub challenge_id : Bytes
  pub proof : Bytes
  pub timestamp : ℕ

pub record LoginRequest : Type 0 where
  pub app_version : String
  pub user_hash_id : Bytes
  pub request_challenge : Bool
  pub proof : Option AuthProof

pub record DtoAuthChallenge : Type 0 where
  pub challenge_id : Bytes
  pub nonce : Bytes
  pub required_proof_type : ℤ
  pub public_parameters : Bytes
  pub timestamp : ℕ
  pub difficulty : ℤ

pub record VersionOutdated : Type 0 where
  pub min_version : String
  pub latest_version : String

pub record LoginResponse : Type 0 where
  pub success : Bool
  pub challenge : Option DtoAuthChallenge
  pub session_token : Bytes
  pub session_expiry : ℕ
  pub error_message : Message
  pub version_outdated : Option VersionOutdated
