-- ===== src/Channels/PowerLevels.antt =====
-- ChannelPowerLevelsTransformer
-- (src/private/data/channels/transformer/channelPowerLevelsTransformer.ts).
pub mod Laws
use sudo_secure_communicatio.Prelude.{
  String, Option, none, some, List, [], ◌∷◌, Dict, insert, lookup?, or_else, if◌then◌else◌,
}
use sudo_secure_communicatio.Prelude.Int.{ℤ, pos, leb_ℤ}
use sudo_secure_communicatio.Rooms.Entities.{PowerLevels, RoomPowerLevels, Room}
use sudo_secure_communicatio.Channels.Entities.{
  ChannelRole, admin, moderator, participant, react_only_participant, ChannelPermissionsInput,
  default_permissions,
}

unfoldable pub from_entity_to_power_level : ChannelRole → ℤ
from_entity_to_power_level admin = pos 100
from_entity_to_power_level moderator = pos 50
from_entity_to_power_level participant = pos 25
from_entity_to_power_level react_only_participant = pos 10

unfoldable pub from_power_level_to_entity : ℤ → ChannelRole
from_power_level_to_entity level =
    if leb_ℤ (pos 100) level
    then admin
    else if leb_ℤ (pos 50) level
    then moderator
    else if leb_ℤ (pos 25) level
    then participant
    else react_only_participant

unfoldable pub to_initial_power_levels : ChannelPermissionsInput → ChannelRole → PowerLevels
unfolding from_entity_to_power_level
to_initial_power_levels p users_default =
    let level = from_entity_to_power_level in
    let d = default_permissions in
    record {
      users_default = some (level users_default);
      events_default = some (level (or_else p.send_messages d.send_messages));
      invite = some (level (or_else p.invite_handles d.invite_handles));
      kick = some (level (or_else p.kick_handles d.kick_handles));
      ban = some (level (or_else p.ban_handles d.ban_handles));
      redact = some (level (or_else p.delete_others_messages d.delete_others_messages));
      events = some (
          ("m.room.name", level (or_else p.change_channel_name d.change_channel_name))
          ∷ (
            "m.room.topic",
            level (or_else p.change_channel_description d.change_channel_description),
          )
          ∷ ("m.room.avatar", level (or_else p.change_channel_avatar d.change_channel_avatar))
          ∷ ("m.reaction", level react_only_participant)
          ∷ ("m.room.redaction", level react_only_participant)
          ∷ []);
    }

-- the permissions that `toPowerLevelsMap` reads off a room's power levels
unfoldable pub to_permissions : RoomPowerLevels → ChannelPermissionsInput
unfolding from_power_level_to_entity lookup?
to_permissions levels =
    let role = from_power_level_to_entity in
    record {
      send_messages = some (role (or_else levels.events_default (pos 25)));
      invite_handles = some (role (or_else levels.invite (pos 25)));
      kick_handles = some (role (or_else levels.kick (pos 50)));
      ban_handles = some (role (or_else levels.ban (pos 50)));
      change_channel_name = some (role (or_else (lookup? "m.room.name" levels.events) (pos 50)));
      change_channel_description =
          some (role (or_else (lookup? "m.room.topic" levels.events) (pos 50)));
      change_channel_avatar =
          some (role (or_else (lookup? "m.room.avatar" levels.events) (pos 50)));
      delete_others_messages = some (role (or_else levels.redact (pos 50)));
    }

unfoldable pub to_default_member_role : RoomPowerLevels → ChannelRole
unfolding from_power_level_to_entity
to_default_member_role levels = from_power_level_to_entity (or_else levels.users_default (pos 25))

abbrev pub ChannelPowerLevels : Type 0
ChannelPowerLevels = ChannelPermissionsInput × ChannelRole

add_room : Room → Option RoomPowerLevels → Dict ChannelPowerLevels → Dict ChannelPowerLevels
unfolding to_permissions to_default_member_role insert
add_room room none map = map
add_room room (some levels) map =
    insert room.room_id (to_permissions levels, to_default_member_role levels) map

-- the loop of `toPowerLevelsMap`
add_rooms : List Room → Dict ChannelPowerLevels → Dict ChannelPowerLevels
unfolding add_room
add_rooms [] map = map
add_rooms (room ∷ rooms) map = add_rooms rooms (add_room room room.power_levels map)

unfoldable pub to_power_levels_map : List Room → Dict ChannelPowerLevels
unfolding add_rooms
to_power_levels_map rooms = add_rooms rooms []
