-- ===== src/Media/Entities.antt =====
-- The credentials that give a client access to S3 buckets
-- (src/private/domain/entities/media/mediaCredentialEntity.ts).
use sudo_secure_communicatio.Prelude.{ℕ, String, Bool, Option}

-- CredentialEntity
pub record Credential : Type 0 where
  pub access_key_id : String
  pub secret_access_key : String
  pub session_token : String

-- MediaCredentialEntity
pub record MediaCredential : Type 0 where
  pub credential : Credential
  pub bucket : String
  pub region : String
  pub key_prefix : Option String
  pub for_write : Bool

-- RoomMediaCredentialEntity; `expiry` is in milliseconds since the epoch
pub record RoomMediaCredential : Type 0 where
  pub credential : Credential
  pub key_prefix : String
  pub expiry : ℕ
