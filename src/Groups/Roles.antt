-- ===== src/Groups/Roles.antt =====
-- GroupPowerLevelsTransformer, GroupPermissionsTransformer and GroupTransformer
-- (src/private/data/groups/transformer/). What these throw is a `Result`.
pub mod Laws
use sudo_secure_communicatio.Prelude.{String, ◌&&◌, Option, none, some, Dict, lookup, if◌then◌else◌}
use sudo_secure_communicatio.Prelude.Int.{ℤ, pos, ltb_ℤ, leb_ℤ, eq_ℤ}
use sudo_secure_communicatio.Errors.{thrown, invalid_argument}
use sudo_secure_communicatio.Exec.{Result, ok, err}
use sudo_secure_communicatio.Rooms.Entities.{RoomPowerLevels, Room}
use sudo_secure_communicatio.Groups.Entities.{
  GroupRole, admin, participant, nobody, GroupPermissions, default_permissions, Group,
}

infixl 5 ◌>>=◌
abbrev pub ◌>>=◌ {ℓ κ} : {A : Type ℓ} {B : Type κ} → Result A → (A → Result B) → Result B
ok a >>= f = f a
err e >>= f = err e

unfoldable pub from_entity_to_power_level : GroupRole → ℤ
from_entity_to_power_level nobody = pos 101
from_entity_to_power_level admin = pos 100
from_entity_to_power_level participant = pos 25

unfoldable pub from_power_level_to_entity : ℤ → Result GroupRole
from_power_level_to_entity level =
    if eq_ℤ level (pos 101)
    then ok nobody
    else if leb_ℤ (pos 51) level && leb_ℤ level (pos 100)
    then ok admin
    else if leb_ℤ (pos 0) level && ltb_ℤ level (pos 26)
    then ok participant
    else err (thrown invalid_argument (some "power level is out of range"))

-- `level ? fromPowerLevelToEntity(level) : default`: the level 0 is false
unfoldable pub role_or : Option ℤ → GroupRole → Result GroupRole
unfolding from_power_level_to_entity
role_or none default = ok default
role_or (some level) default =
    if eq_ℤ level (pos 0) then ok default else from_power_level_to_entity level

-- `fromPowerLevelToEntity(events[name])`: every comparison with `undefined` is false
unfoldable pub event_role : Option ℤ → Result GroupRole
unfolding from_power_level_to_entity
event_role none = err (thrown invalid_argument (some "power level is out of range"))
event_role (some level) = from_power_level_to_entity level

-- `events ? fromPowerLevelToEntity(events[name]) : default`
unfoldable pub event_role_or : String → Option (Dict ℤ) → GroupRole → Result GroupRole
unfolding event_role lookup
event_role_or name none default = ok default
event_role_or name (some events) default = event_role (lookup name events)

-- fromRoomPermissionsEntityToGroupPermissionsEntity
unfoldable pub from_room_permissions : RoomPowerLevels → Result GroupPermissions
unfolding role_or event_role_or
from_room_permissions levels = do
  let d = default_permissions
  send_messages ← role_or levels.events_default d.send_messages
  invite_handles ← role_or levels.invite d.invite_handles
  kick_handles ← role_or levels.kick d.kick_handles
  ban_handles ← role_or levels.ban d.ban_handles
  change_group_name ← event_role_or "m.room.name" levels.events d.change_group_name
  change_group_description ← event_role_or "m.room.topic" levels.events d.change_group_description
  change_group_avatar ← event_role_or "m.room.avatar" levels.events d.change_group_avatar
  delete_others_messages ← role_or levels.redact d.delete_others_messages
  ok (record {
    send_messages = send_messages;
    invite_handles = invite_handles;
    kick_handles = kick_handles;
    ban_handles = ban_handles;
    change_group_name = change_group_name;
    change_group_description = change_group_description;
    change_group_avatar = change_group_avatar;
    delete_others_messages = delete_others_messages;
  })

room_permissions : Option RoomPowerLevels → Result (Option GroupPermissions)
unfolding from_room_permissions
room_permissions none = ok none
room_permissions (some levels) = do
  permissions ← from_room_permissions levels
  ok (some permissions)

-- GroupTransformer.fromRoomToEntity
unfoldable pub from_room_to_entity : Room → Result Group
unfolding room_permissions
from_room_to_entity room = do
  permissions ← room_permissions room.power_levels
  ok (record {
    group_id = room.room_id;
    name = room.name;
    description = room.description;
    avatar_url = room.avatar_url;
    permissions = permissions;
    member_count = room.member_count;
    inviter = room.inviter;
  })
