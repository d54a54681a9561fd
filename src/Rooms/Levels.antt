-- ===== src/Rooms/Levels.antt =====
-- Who has which power level in a room.
use sudo_secure_communicatio.Prelude.{String, Option, none, some, or_else, or_option, lookup?}
use sudo_secure_communicatio.Prelude.Int.{ℤ, pos}
use sudo_secure_communicatio.Rooms.Entities.{RoomPowerLevels}

-- `powerLevels.users?.[user] ?? powerLevels.users_default ?? 0`
unfoldable pub user_level : RoomPowerLevels → String → ℤ
unfolding lookup?
user_level levels user =
    or_else (or_option (lookup? user levels.users) levels.users_default) (pos 0)

-- the same where the power levels may be undefined
unfoldable pub current_level : Option RoomPowerLevels → String → ℤ
unfolding user_level
current_level none user = pos 0
current_level (some levels) user = user_level levels user
