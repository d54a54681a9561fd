-- ===== src/Api/Requests.antt =====
-- The requests of ApiClient for handles and sessions.
use sudo_secure_communicatio.Prelude.{ℕ, String, Option, some, List}
use sudo_secure_communicatio.Api.{ErrorMaps, Outcome, perform}
use sudo_secure_communicatio.Handles.Entities.{
  GraphQlHandle, GraphQlHandles, GraphQlHandleInfo, GraphQlSession,
}
use sudo_secure_communicatio.Handles.Service.{HandleApi}

-- GraphQLClient, by the documents that it is called with and the field of `data` that is read. The
-- data of `get_secure_comms_handle_by_name` has a field that may be null.
pub record GraphQlClient (S : Type 0) : Type 0 where
  pub create_secure_comms_handle : Option String → String → String → S → Outcome GraphQlSession × S
  pub get_secure_comms_session : String → String → S → Outcome GraphQlSession × S
  pub get_secure_comms_handle_by_name : String → S → Outcome (Option GraphQlHandleInfo) × S
  pub update_secure_comms_handle : String → String → S → Outcome GraphQlHandle × S
  pub delete_secure_comms_handle : String → S → Outcome GraphQlHandle × S
  pub list_secure_comms_handles : Option ℕ → Option String → S → Outcome GraphQlHandles × S
  pub check_secure_comms_word_validity : List String → S → Outcome (List String) × S

-- ApiClient, as the services of handles and sessions use it
unfoldable pub api_client : {S : Type 0} → ErrorMaps → GraphQlClient S → HandleApi S
unfolding perform
api_client maps client = record {
  create_secure_comms_handle = λ id name device_id.
      perform maps (some "createSecureCommsHandle")
        (client.create_secure_comms_handle id name device_id);
  get_secure_comms_session = λ handle_id device_id.
      perform maps (some "getSecureCommsSession")
        (client.get_secure_comms_session handle_id device_id);
  get_secure_comms_handle_by_name = λ name.
      perform maps (some "getSecureCommsHandleByName")
        (client.get_secure_comms_handle_by_name name);
  update_secure_comms_handle = λ id name.
      perform maps (some "updateSecureCommsHandle") (client.update_secure_comms_handle id name);
  delete_secure_comms_handle =
      λ id. perform maps (some "deleteSecureCommsHandle") (client.delete_secure_comms_handle id);
  list_secure_comms_handles = λ limit next_token.
      perform maps (some "listSecureCommsHandles")
        (client.list_secure_comms_handles limit next_token);
  check_word_validity = λ words.
      perform maps (some "checkSecureCommsWordValidity")
        (client.check_secure_comms_word_validity words);
}
