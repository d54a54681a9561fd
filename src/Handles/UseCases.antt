-- ===== src/Handles/UseCases.antt =====
-- ProvisionHandleUseCase, UpdateHandleUseCase, DeprovisionHandleUseCase and ListHandlesUseCase.
pub mod Laws
use sudo_secure_communicatio.Prelude.{ℕ, String, Option, none, some, true, List, [], ◌∷◌}
use sudo_secure_communicatio.Exec.{Exec, ok, pure, ◌>>=◌, ◌>>◌}
use sudo_secure_communicatio.Words.{validate_words}
use sudo_secure_communicatio.Sessions.State.{Platform, Manager, reach}
use sudo_secure_communicatio.Sessions.Ensure.{ensure_valid_session}
use sudo_secure_communicatio.Sessions.Delete.{delete_session}
use sudo_secure_communicatio.Handles.Entities.{OwnedHandle, SecureCommsSession}
use sudo_secure_communicatio.Handles.Service.{
  HandleApi, ListHandlesOutput, create_session, update_handle, delete_handle, list_handles,
}

-- ProvisionHandleUseCaseInput
pub record ProvisionHandleInput : Type 0 where
  pub id : Option String
  pub name : String
  pub store_passphrase : Option String
  pub device_id : Option String

-- `result` of ProvisionHandleUseCase
abbrev pub owned_handle : SecureCommsSession → OwnedHandle
owned_handle session = record {
  handle_id = session.handle_id;
  name = session.handle_name;
  owner = session.owner;
  owners = session.owners;
}

module _ {S : Type 0} (platform : Platform S) (api : HandleApi S) where
  -- `input.deviceId ?? v4()`
  device_id_or_new : Option String → Exec S String
  device_id_or_new none s = let (id, t) = platform.v4 s in (ok id, t)
  device_id_or_new (some device_id) s = (ok device_id, s)

  -- ProvisionHandleUseCase.execute
  unfoldable pub provision_handle : ProvisionHandleInput → Exec (Manager S) OwnedHandle
  unfolding validate_words device_id_or_new create_session ensure_valid_session
  provision_handle input = do
    reach (validate_words api.check_word_validity (input.name ∷ []))
    device_id ← reach (device_id_or_new input.device_id)
    session ← reach (create_session api input.id input.name device_id)
    ensure_valid_session platform session.handle_id input.store_passphrase (some device_id)
    pure (owned_handle session)

  -- UpdateHandleUseCase.execute
  unfoldable pub update_handle_use_case : String → String → Exec (Manager S) OwnedHandle
  unfolding validate_words update_handle
  update_handle_use_case handle_id name = do
    reach (validate_words api.check_word_validity (name ∷ []))
    reach (update_handle api handle_id name)

  -- DeprovisionHandleUseCase.execute
  unfoldable pub deprovision_handle : String → Exec (Manager S) OwnedHandle
  unfolding delete_handle delete_session
  deprovision_handle id = do
    handle ← reach (delete_handle api id)
    delete_session platform id true
    pure handle

  -- ListHandlesUseCase.execute
  unfoldable pub list_handles_use_case :
      Option ℕ → Option String → Exec (Manager S) ListHandlesOutput
  unfolding list_handles
  list_handles_use_case limit next_token = reach (list_handles api limit next_token)
