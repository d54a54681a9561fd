-- ===== src/Blocking.antt =====
-- Blocking of handles: `blockHandle`, `unblockHandle` and `listBlockedHandles` of
-- MatrixDirectChatsService (src/private/data/directChats/matrixDirectChatsService.ts).
pub mod Laws
use sudo_secure_communicatio.Prelude.{String, Bool, true, some, List, if◌then◌else◌}
use sudo_secure_communicatio.Errors.{thrown, handle_not_found}
use sudo_secure_communicatio.Exec.{Exec, raise, ◌>>=◌}
use sudo_secure_communicatio.Ids.{to_matrix_user_id}
use sudo_secure_communicatio.Rooms.Sdk.{MatrixClientManager}
use sudo_secure_communicatio.Rooms.Manager

module _ {S : Type 0} (m : MatrixClientManager S) where
  unfoldable pub block_handle : String → Exec S Unit
  block_handle handle_id = do
    let user_id_to_block = to_matrix_user_id handle_id m.home_server
    user_exists ← Manager.user_exists m user_id_to_block
    if user_exists
        then Manager.ignore_handle m user_id_to_block
        else raise (thrown handle_not_found (some "Handle to block does not exist"))

  unfoldable pub unblock_handle : String → Exec S Unit
  unblock_handle handle_id = do
    let user_id_to_unblock = to_matrix_user_id handle_id m.home_server
    user_exists ← Manager.user_exists m user_id_to_unblock
    if user_exists
        then Manager.unignore_handle m user_id_to_unblock
        else raise (thrown handle_not_found (some "Handle to unblock does not exist"))

  unfoldable pub list_blocked_handles : Exec S (List String)
  list_blocked_handles = Manager.list_ignored_handles m
