-- ===== src/Channels/PowerLevels/Laws.antt =====
-- Roles and power levels of Channels/PowerLevels: the bands of the roles, and the reading of the
-- power levels that a channel is created with.
use sudo_secure_communicatio.Prelude.{
  ◌≤◌, ◌≡◌, refl, ◌↔◌, ◌⊎◌, Option, none, some, List, [], ◌∷◌, ◌++◌, ◌∙◌, ◌==◌, eq_refl, String,
  All, false, Dict, lookup, lookup-insert, or_else, arith,
}
use sudo_secure_communicatio.Prelude.Int.{ℤ, ◌≤ℤ◌}
use sudo_secure_communicatio.Rooms.Entities.{RoomPowerLevels, Room, to_room_power_levels}
use sudo_secure_communicatio.Channels.Entities.{
  ChannelRole, admin, moderator, participant, react_only_participant, rank, ChannelPermissionsInput,
  default_permissions,
}
use sudo_secure_communicatio.Channels.PowerLevels.{
  from_entity_to_power_level, from_power_level_to_entity, to_initial_power_levels, to_permissions,
  to_default_member_role, ChannelPowerLevels, add_rooms, add_room, to_power_levels_map,
}

pub role_round_trip :
    (r : ChannelRole) → from_power_level_to_entity (from_entity_to_power_level r) ≡ r
unfolding from_entity_to_power_level from_power_level_to_entity
role_round_trip admin = refl
role_round_trip moderator = refl
role_round_trip participant = refl
role_round_trip react_only_participant = refl

-- The role of a power level is at least `r` exactly when the power level reaches that of `r`, or
-- `r` is the lowest role.
pub role_of_level_iff :
    (r : ChannelRole) (level : ℤ)
    → (rank r ≤ rank (from_power_level_to_entity level))
      ↔ ((from_entity_to_power_level r ≤ℤ level) ⊎ (r ≡ react_only_participant))
unfolding from_entity_to_power_level from_power_level_to_entity
role_of_level_iff admin level = ground arith
role_of_level_iff _ level = ground arith

-- The permissions that an input stands for: the default where it names no role.
abbrev pub complete : ChannelPermissionsInput → ChannelPermissionsInput
complete p =
    let d = default_permissions in
    record {
      send_messages = some (or_else p.send_messages d.send_messages);
      invite_handles = some (or_else p.invite_handles d.invite_handles);
      kick_handles = some (or_else p.kick_handles d.kick_handles);
      ban_handles = some (or_else p.ban_handles d.ban_handles);
      change_channel_name = some (or_else p.change_channel_name d.change_channel_name);
      change_channel_description =
          some (or_else p.change_channel_description d.change_channel_description);
      change_channel_avatar = some (or_else p.change_channel_avatar d.change_channel_avatar);
      delete_others_messages = some (or_else p.delete_others_messages d.delete_others_messages);
    }

initial_round_trip :
    (p : ChannelPermissionsInput) (r : ChannelRole)
    → (to_permissions (to_room_power_levels (to_initial_power_levels p r)) ≡ complete p)
      × (to_default_member_role (to_room_power_levels (to_initial_power_levels p r)) ≡ r)
unfolding to_permissions to_default_member_role to_room_power_levels to_initial_power_levels
initial_round_trip p r = (simp role_round_trip, simp role_round_trip)

-- No room of the list has the id.
abbrev pub Absent : String → List Room → Type 0
Absent id rooms = All (λ room. (room.room_id == id) ≡ false) rooms

add_rooms-Absent :
    (id : String) (rooms : List Room) (map : Dict ChannelPowerLevels)
    → Absent id rooms
    → lookup id (add_rooms rooms map) ≡ lookup id map
unfolding add_rooms
add_rooms-Absent id [] map h = refl
add_rooms-Absent id (room ∷ rooms) map (other, h) =
    add_rooms-Absent id rooms (add_room room room.power_levels map) h
    ∙ add_room-Absent room.power_levels
  where
    add_room-Absent :
        (levels : Option RoomPowerLevels) → lookup id (add_room room levels map) ≡ lookup id map
    add_room-Absent none = refl
    add_room-Absent (some levels) =
        lookup-insert room.room_id id (to_permissions levels, to_default_member_role levels) map
        ∙ rw other

add_rooms_last :
    (before after : List Room) (room : Room) (levels : RoomPowerLevels)
    (map : Dict ChannelPowerLevels)
    → room.power_levels ≡ some levels
    → Absent room.room_id after
    → lookup room.room_id (add_rooms (before ++ room ∷ after) map)
      ≡ some (to_permissions levels, to_default_member_role levels)
unfolding add_rooms
add_rooms_last [] after room levels map known h =
    add_rooms-Absent room.room_id after (add_room room room.power_levels map) h
    ∙ rw known (
        lookup-insert room.room_id room.room_id
          (to_permissions levels, to_default_member_role levels) map
        ∙ rw (eq_refl room.room_id))
add_rooms_last (first ∷ before) after room levels map known h =
    add_rooms_last before after room levels (add_room first first.power_levels map) known h

-- `toPowerLevelsMap` gives for a room that was created with permissions `p` and default role `r`
-- those permissions, the missing ones filled in by the defaults, and that role, whatever the other
-- rooms of the list are, if no later one has the same id.
pub to_power_levels_map-to_initial :
    (before after : List Room) (room : Room) (p : ChannelPermissionsInput) (r : ChannelRole)
    → room.power_levels ≡ some (to_room_power_levels (to_initial_power_levels p r))
    → Absent room.room_id after
    → lookup room.room_id (to_power_levels_map (before ++ room ∷ after)) ≡ some (complete p, r)
unfolding to_power_levels_map
to_power_levels_map-to_initial before after room p r known h =
    let (permissions, role) = initial_round_trip p r in
    add_rooms_last before after room (to_room_power_levels (to_initial_power_levels p r)) [] known h
    ∙ cc
