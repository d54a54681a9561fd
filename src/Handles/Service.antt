-- ===== src/Handles/Service.antt =====
-- DefaultHandleService and DefaultSessionService, on ApiClient's requests.
use sudo_secure_communicatio.Prelude.{ℕ, String, Option, none, some, List, [], map}
use sudo_secure_communicatio.Exec.{Exec, pure, ◌>>=◌}
use sudo_secure_communicatio.Handles.Entities.{
  GraphQlHandle, GraphQlHandles, GraphQlHandleInfo, GraphQlSession, Handle, OwnedHandle,
  SecureCommsSession, from_graphql_to_handle, from_graphql_to_owned, from_graphql_to_session,
}

-- The requests for handles and sessions. `check_word_validity` is WordValidationService's.
pub record HandleApi (S : Type 0) : Type 0 where
  pub create_secure_comms_handle : Option String → String → String → Exec S GraphQlSession
  pub get_secure_comms_session : String → String → Exec S GraphQlSession
  pub get_secure_comms_handle_by_name : String → Exec S (Option GraphQlHandleInfo)
  pub update_secure_comms_handle : String → String → Exec S GraphQlHandle
  pub delete_secure_comms_handle : String → Exec S GraphQlHandle
  pub list_secure_comms_handles : Option ℕ → Option String → Exec S GraphQlHandles
  pub check_word_validity : List String → Exec S (List String)

-- ListHandlesOutput
pub record ListHandlesOutput : Type 0 where
  pub handles : List OwnedHandle
  pub next_token : Option String

handle_if : Option GraphQlHandleInfo → Option Handle
unfolding from_graphql_to_handle
handle_if none = none
handle_if (some result) = some (from_graphql_to_handle result)

handles_of : Option (List GraphQlHandle) → List OwnedHandle
unfolding from_graphql_to_owned
handles_of none = []
handles_of (some items) = map from_graphql_to_owned items

module _ {S : Type 0} (api : HandleApi S) where
  -- DefaultSessionService.create, of an id, a name and a device
  unfoldable pub create_session : Option String → String → String → Exec S SecureCommsSession
  unfolding from_graphql_to_session
  create_session id name device_id = do
    result ← api.create_secure_comms_handle id name device_id
    pure (from_graphql_to_session result)

  -- DefaultSessionService.get
  unfoldable pub get_session : String → String → Exec S SecureCommsSession
  unfolding from_graphql_to_session
  get_session handle_id device_id = do
    result ← api.get_secure_comms_session handle_id device_id
    pure (from_graphql_to_session result)

  -- DefaultHandleService.get
  unfoldable pub get_handle : String → Exec S (Option Handle)
  unfolding handle_if
  get_handle name = do result ← api.get_secure_comms_handle_by_name name; pure (handle_if result)

  -- DefaultHandleService.update
  unfoldable pub update_handle : String → String → Exec S OwnedHandle
  unfolding from_graphql_to_owned
  update_handle handle_id name = do
    result ← api.update_secure_comms_handle handle_id name
    pure (from_graphql_to_owned result)

  -- DefaultHandleService.delete
  unfoldable pub delete_handle : String → Exec S OwnedHandle
  unfolding from_graphql_to_owned
  delete_handle id = do
    result ← api.delete_secure_comms_handle id
    pure (from_graphql_to_owned result)

  -- DefaultHandleService.list
  unfoldable pub list_handles : Option ℕ → Option String → Exec S ListHandlesOutput
  unfolding handles_of
  list_handles limit next_token = do
    result ← api.list_secure_comms_handles limit next_token
    pure (record { handles = handles_of result.items; next_token = result.next_token })
