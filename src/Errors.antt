-- ===== src/Errors.antt =====
-- The error classes of src/public/errors.ts and the transformer that turns a GraphQL error into one of
-- them (src/private/data/common/transformer/errorTransformer.ts). An error is its class with its
-- message; an error that matrix-js-sdk throws is known by its `errcode`.
mod Tests
pub mod Laws
use sudo_secure_communicatio.Prelude.{String, Option, none, some, [], ◌∷◌, Dict, lookup, or_else}

-- The classes of src/public/errors.ts. `plain` is JavaScript's `Error`; `not_registered`, `service`
-- and `fatal` are classes of @sudoplatform/sudo-common.
pub data ErrorClass : Type 0 where
  secure_comms internal invalid_argument unauthorized unacceptable_words : ErrorClass
  handle_not_available handle_not_found invalid_handle_name invalid_handle_id : ErrorClass
  alias_not_available channel_not_found channel_name_not_available : ErrorClass
  invalid_channel_state invalid_channel_alias room_not_found permission_denied : ErrorClass
  not_allowed direct_chat_exists direct_chat_membership : ErrorClass
  service_config_not_found s3_upload s3_download : ErrorClass
  plain not_registered service fatal : ErrorClass

pub data Error : Type 0 where
  thrown : ErrorClass → Option String → Error
  matrix_error : String → Error

-- `{ errorType: string; errorInfo?: string; message: string } | GraphQLError`
pub record GraphQlError : Type 0 where
  pub error_type : Option String
  pub message : String

-- the cases of the `switch` of `toClientError`
abbrev pub error_classes : Dict ErrorClass
error_classes =
    ("sudoplatform.securecomms.IdentityContextMissing", not_registered)
    ∷ ("sudoplatform.ServiceError", service)
    ∷ ("sudoplatform.InvalidArgumentError", invalid_argument)
    ∷ ("sudoplatform.securecomms.HandleNotAvailable", handle_not_available)
    ∷ ("sudoplatform.securecomms.HandleNotFound", handle_not_found)
    ∷ ("sudoplatform.securecomms.InvalidHandleName", invalid_handle_name)
    ∷ ("sudoplatform.securecomms.InvalidHandleId", invalid_handle_id)
    ∷ ("sudoplatform.securecomms.AliasNotAvailable", alias_not_available)
    ∷ ("sudoplatform.securecomms.NameNotAvailable", channel_name_not_available)
    ∷ ("sudoplatform.securecomms.InvalidRoomAlias", invalid_channel_alias)
    ∷ ("sudoplatform.securecomms.ChannelNotFound", channel_not_found)
    ∷ ("sudoplatform.securecomms.InvalidChannelState", invalid_channel_state)
    ∷ ("sudoplatform.securecomms.NotAllowed", not_allowed)
    ∷ []

or_mapped : (GraphQlError → Error) → GraphQlError → Option ErrorClass → Error
or_mapped fallback e none = fallback e
or_mapped fallback e (some c) = thrown c (some e.message)

-- `mapGraphQLToClientError` of @sudoplatform/sudo-common is the parameter.
pub to_client_error : (GraphQlError → Error) → GraphQlError → Error
unfolding or_mapped lookup
to_client_error map_graph_ql e =
    or_mapped map_graph_ql e (lookup (or_else e.error_type e.message) error_classes)
