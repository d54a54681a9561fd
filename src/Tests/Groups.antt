-- ===== src/Tests/Groups.antt =====
-- The theorems on groups at concrete inputs.
use sudo_secure_communicatio.Prelude.{
  not, ◌&&◌, any, ◌↔◌, ◌⊎◌, ◌≡◌, refl, some, List, [], ◌∷◌, ◌==◌, contains,
}
use sudo_secure_communicatio.Prelude.Int.{pos, ◌≤ℤ◌}
use sudo_secure_communicatio.Ids.{to_handle_id}
use sudo_secure_communicatio.Rooms.Entities.{RoomMember, RoomPowerLevels, joined, left}
use sudo_secure_communicatio.Rooms.Levels.{user_level}
use sudo_secure_communicatio.Rooms.Manager
use sudo_secure_communicatio.Rooms.Service
use sudo_secure_communicatio.Groups.Entities.{admin, default_permissions}
use sudo_secure_communicatio.Groups.Roles.{from_room_permissions}
use sudo_secure_communicatio.Groups.Roles.Laws.{kick_and_ban-admin_iff}
use sudo_secure_communicatio.Groups.Delete.{delete_group}
use sudo_secure_communicatio.Groups.Delete.Laws.{MayDelete, delete_group-MayDelete}
use sudo_secure_communicatio.Tests.Samples.{world, levels, manager}

abbrev members : List RoomMember
members =
    record {
      handle = record { handle_id = "ann"; name = "Ann" };
      membership = joined;
      power_level = pos 60;
    }
    ∷ record {
      handle = record { handle_id = "bob"; name = "" };
      membership = left;
      power_level = pos 30;
    }
    ∷ []

-- Ann deletes the group; Bob, who has left, is kicked too.
delete_group-MayDelete_example :
    MayDelete "ann" members
    × (contains "bob" ("bob" ∷ [])
        ≡ (not ("bob" == "ann") && any (λ member. member.handle.handle_id == "bob") members))
unfolding Service.get_members Manager.get_members Manager.get_room_power_levels delete_group
    Service.leave Manager.leave_room to_handle_id user_level
delete_group-MayDelete_example =
    delete_group-MayDelete manager "ann" "room" world world (record world { sent = "leave" ∷ [] })
      members ("bob" ∷ []) "bob" refl refl

-- Everyone may kick, and an ADMIN may ban.
abbrev kick_by_all : RoomPowerLevels
kick_by_all = record levels { kick = some (pos 0); ban = some (pos 60) }

kick_and_ban-admin_iff_example :
    ((admin ≡ admin) ↔ ((pos 0 ≡ pos 0) ⊎ (pos 51 ≤ℤ pos 0) × (pos 0 ≤ℤ pos 100)))
    × ((admin ≡ admin) ↔ ((pos 60 ≡ pos 0) ⊎ (pos 51 ≤ℤ pos 60) × (pos 60 ≤ℤ pos 100)))
unfolding from_room_permissions
kick_and_ban-admin_iff_example =
    kick_and_ban-admin_iff kick_by_all default_permissions (pos 0) (pos 60) refl refl refl
