-- ===== src/Rooms/Authority.antt =====
-- The methods of MatrixRoomsService that weigh the caller's power level against the target's
-- (src/private/data/rooms/matrixRoomsService.ts).
pub mod Laws
use sudo_secure_communicatio.Prelude.{String, Bool, ◌||◌, Option, none, some, ◌==◌, if◌then◌else◌}
use sudo_secure_communicatio.Prelude.Int.{ℤ, ltb_ℤ}
use sudo_secure_communicatio.Errors.{Error, thrown, room_not_found, permission_denied}
use sudo_secure_communicatio.Exec.{Exec, raise, ◌>>=◌}
use sudo_secure_communicatio.Ids.{to_matrix_user_id}
use sudo_secure_communicatio.Rooms.Sdk.{MatrixClientManager, SdkRoom}
use sudo_secure_communicatio.Rooms.Levels.{current_level}
use sudo_secure_communicatio.Rooms.Manager

-- `currentPowerLevel > memberPowerLevel`
unfoldable pub outranks : SdkRoom → String → String → Bool
outranks room user target =
    ltb_ℤ (current_level room.power_levels target) (current_level room.power_levels user)

pub denied : String → Error
denied message = thrown permission_denied (some message)

module _ {S : Type 0} (m : MatrixClientManager S) where
  level_in_room : String → String → ℤ → Option SdkRoom → Exec S Unit
  level_in_room user target level none = raise (thrown room_not_found none)
  level_in_room user target level (some room) =
      if user == target || outranks room user target
      then Manager.set_room_member_power_level m room.room_id target level
      else raise (denied "You are not permitted to update this members role")

  unfoldable pub update_room_member_power_level : String → String → ℤ → Exec S Unit
  unfolding level_in_room
  update_room_member_power_level room_id target_handle_id level = do
    user ← Manager.get_user_id m
    room ← Manager.get_room m room_id
    level_in_room user (to_matrix_user_id target_handle_id m.home_server) level room

  kick_in_room : String → String → Option String → Option SdkRoom → Exec S Unit
  kick_in_room user target reason none = raise (thrown room_not_found none)
  kick_in_room user target reason (some room) =
      if user == target || outranks room user target
      then Manager.kick_handle m room.room_id target reason
      else raise (denied "You are not permitted to kick")

  unfoldable pub kick_handle : String → String → Option String → Exec S Unit
  unfolding kick_in_room
  kick_handle room_id target_handle_id reason = do
    user ← Manager.get_user_id m
    room ← Manager.get_room m room_id
    kick_in_room user (to_matrix_user_id target_handle_id m.home_server) reason room

  ban_in_room : String → String → Option String → Option SdkRoom → Exec S Unit
  ban_in_room user target reason none = raise (thrown room_not_found none)
  ban_in_room user target reason (some room) =
      if outranks room user target
      then Manager.ban_handle m room.room_id target reason
      else raise (denied "You are not permitted to ban")

  unfoldable pub ban_handle : String → String → Option String → Exec S Unit
  unfolding ban_in_room
  ban_handle room_id target_handle_id reason = do
    user ← Manager.get_user_id m
    room ← Manager.get_room m room_id
    ban_in_room user (to_matrix_user_id target_handle_id m.home_server) reason room

  unban_in_room : String → String → Option SdkRoom → Exec S Unit
  unban_in_room user target none = raise (thrown room_not_found none)
  unban_in_room user target (some room) =
      if outranks room user target
      then Manager.unban_handle m room.room_id target
      else raise (denied "You are not permitted to unban")

  unfoldable pub unban_handle : String → String → Exec S Unit
  unfolding unban_in_room
  unban_handle room_id target_handle_id = do
    user ← Manager.get_user_id m
    room ← Manager.get_room m room_id
    unban_in_room user (to_matrix_user_id target_handle_id m.home_server) room
