-- ===== src/Sessions/Delete.antt =====
-- `deleteSession` of SessionManager. The waits for timers and for flushed watchers change nothing.
pub mod Laws
use sudo_secure_communicatio.Prelude.{
  String, Bool, true, false, Option, none, some, lookup, if◌then◌else◌,
}
use Prim.Native.String.{◌++◌}
use sudo_secure_communicatio.Exec.{Exec, pass, catch, ◌>>=◌, ◌>>◌}
use sudo_secure_communicatio.Sessions.State.{
  Platform, Manager, Session, HandleStorage, reach, clear_timeout, drop_session,
}

module _ {S : Type 0} (platform : Platform S) where
  -- MatrixClientManager.stopSyncing logs what the SDK throws.
  stop_syncing : Session → Exec S Unit
  stop_syncing session = catch (platform.stop_client session.matrix_client) (λ e. pass)

  delete_stored_token : Option (HandleStorage S) → Exec S Unit
  delete_stored_token none = pass
  delete_stored_token (some storage) = storage.delete_access_token

  -- what `deleteSession` does outside the manager
  unfoldable pub release : String → Bool → Session → Exec S Unit
  unfolding stop_syncing delete_stored_token
  release handle_id delete_storage session = do
    stop_syncing session
    handle_storage ← platform.use_handle_storage handle_id none
    delete_stored_token handle_storage
    if delete_storage
        then (do
          platform.clear_rust_crypto session.matrix_client ("matrix-js-sdk:" ++ handle_id)
          platform.delete_handle_storage handle_id)
        else platform.close_handle_storage handle_id

  -- `clearTimeout` at the beginning, `delete this.sessions[…]` at the end
  unfoldable pub delete_existing : String → Bool → Session → Exec (Manager S) Unit
  unfolding clear_timeout
  delete_existing handle_id delete_storage session = do
    (λ state. pass (clear_timeout session.refresh_timeout state))
    reach (release handle_id delete_storage session)
    (λ state. pass (drop_session handle_id state))

  unfoldable pub if_existing : String → Bool → Option Session → Exec (Manager S) Unit
  unfolding delete_existing
  if_existing handle_id delete_storage none = pass
  if_existing handle_id delete_storage (some session) =
      delete_existing handle_id delete_storage session

  unfoldable pub delete_session : String → Bool → Exec (Manager S) Unit
  unfolding if_existing
  delete_session handle_id delete_storage state =
      if_existing handle_id delete_storage (lookup handle_id state.sessions) state
