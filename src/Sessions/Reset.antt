-- ===== src/Sessions/Reset.antt =====
-- `reset` of SessionManager. The delays change nothing.
pub mod Laws
use sudo_secure_communicatio.Prelude.{String, false, List, [], ◌∷◌, map}
use sudo_secure_communicatio.Exec.{Exec, pass, ◌>>=◌, ◌>>◌}
use sudo_secure_communicatio.Sessions.State.{Platform, Manager}
use sudo_secure_communicatio.Sessions.Delete.{delete_session}

module _ {S : Type 0} (platform : Platform S) where
  -- the loop over the handle ids
  unfoldable pub delete_sessions : List String → Exec (Manager S) Unit
  delete_sessions [] = pass
  delete_sessions (handle_id ∷ handle_ids) = do
    delete_session platform handle_id false
    delete_sessions handle_ids

  unfoldable pub reset : Exec (Manager S) Unit
  unfolding delete_sessions
  reset state = delete_sessions (map (λ entry. entry.0) state.sessions) state
