-- ===== src/Handles/Entities.antt =====
-- Handles and sessions as the service's GraphQL schema has them (src/gen/graphqlTypes.ts), the
-- entities that they become (src/private/domain/entities/), and how (HandleTransformer and
-- SessionTransformer).
use sudo_secure_communicatio.Prelude.{ℕ, String, Option, List, map}

-- OwnerEntity
pub record Owner : Type 0 where
  pub id : String
  pub issuer : String

-- SecureCommsHandle
pub record GraphQlHandle : Type 0 where
  pub id : String
  pub name : String
  pub owner : String
  pub owners : List Owner
  pub created_at_epoch_ms : ℕ
  pub updated_at_epoch_ms : ℕ
  pub version : ℕ

-- SecureCommsHandleConnection
pub record GraphQlHandles : Type 0 where
  pub items : Option (List GraphQlHandle)
  pub next_token : Option String

-- PublicSecureCommsHandleInfo
pub record GraphQlHandleInfo : Type 0 where
  pub id : String
  pub name : String

-- SecureCommsSession
pub record GraphQlSession : Type 0 where
  pub handle_id : String
  pub handle_name : String
  pub device_id : String
  pub owner : String
  pub owners : List Owner
  pub token : String
  pub created_at_epoch_ms : ℕ
  pub expires_at_epoch_ms : ℕ

-- HandleEntity
pub record Handle : Type 0 where
  pub handle_id : String
  pub name : String

-- OwnedHandleEntity
pub record OwnedHandle : Type 0 where
  pub handle_id : String
  pub name : String
  pub owner : String
  pub owners : List Owner

-- SecureCommsSessionEntity; a Date is the number of its milliseconds
pub record SecureCommsSession : Type 0 where
  pub handle_id : String
  pub handle_name : String
  pub device_id : String
  pub owner : String
  pub owners : List Owner
  pub token : String
  pub created_at : ℕ
  pub expires_at : ℕ

-- `({ id, issuer }) => ({ id, issuer })`
abbrev pub to_owner : Owner → Owner
to_owner owner = record { id = owner.id; issuer = owner.issuer }

-- HandleTransformer.fromGraphQLToEntity
unfoldable pub from_graphql_to_handle : GraphQlHandleInfo → Handle
from_graphql_to_handle info = record { handle_id = info.id; name = info.name }

-- HandleTransformer.fromGraphQLToOwnedEntity
unfoldable pub from_graphql_to_owned : GraphQlHandle → OwnedHandle
from_graphql_to_owned info = record {
  handle_id = info.id;
  name = info.name;
  owner = info.owner;
  owners = map to_owner info.owners;
}

-- SessionTransformer.fromGraphQLToEntity
unfoldable pub from_graphql_to_session : GraphQlSession → SecureCommsSession
from_graphql_to_session info = record {
  handle_id = info.handle_id;
  handle_name = info.handle_name;
  device_id = info.device_id;
  owner = info.owner;
  owners = map to_owner info.owners;
  token = info.token;
  created_at = info.created_at_epoch_ms;
  expires_at = info.expires_at_epoch_ms;
}
