-- ===== src/Channels/Update/Levels/Permissions.antt =====
-- What an update makes of a channel's permissions.
use sudo_secure_communicatio.Prelude.{
  String, ◌≡◌, refl, Option, none, some, Dict, or_else, or_option, lookup?,
}
use sudo_secure_communicatio.Prelude.Int.{ℤ, pos}
use sudo_secure_communicatio.Rooms.Entities.{RoomPowerLevels, to_room_power_levels}
use sudo_secure_communicatio.Channels.Entities.{ChannelRole, participant, ChannelPermissionsInput}
use sudo_secure_communicatio.Channels.PowerLevels.{
  from_entity_to_power_level, to_permissions, to_default_member_role, to_initial_power_levels,
}
use sudo_secure_communicatio.Channels.PowerLevels.Laws.{role_round_trip, complete}
use sudo_secure_communicatio.Channels.Update.Levels.{new_levels}

-- An input without a value is one that names no role.
abbrev pub no_permissions : ChannelPermissionsInput
no_permissions = record {
  send_messages = none;
  invite_handles = none;
  kick_handles = none;
  ban_handles = none;
  change_channel_name = none;
  change_channel_description = none;
  change_channel_avatar = none;
  delete_others_messages = none;
}

-- The power levels that an update writes give the permissions of the input, with the default where
-- it names no role, and the default role of the input, or PARTICIPANT if it names none. What the
-- channel's permissions and default role were before does not matter.
pub to_permissions-new_levels :
    (permissions : Option ChannelPermissionsInput) (role : Option ChannelRole) (users : Dict ℤ)
    → (to_permissions (new_levels permissions role users)
        ≡ complete (or_else permissions no_permissions))
      × (to_default_member_role (new_levels permissions role users) ≡ or_else role participant)
unfolding to_permissions to_default_member_role new_levels
to_permissions-new_levels none role users = (simp role_round_trip, simp role_round_trip)
to_permissions-new_levels (some p) role users = (simp role_round_trip, simp role_round_trip)

-- The power level that a room asks of the sender of an event: its own entry, or the default.
abbrev pub required_level : RoomPowerLevels → String → ℤ
required_level levels event =
    or_else (or_option (lookup? event levels.events) levels.events_default) (pos 0)

-- A channel is created with the power level of REACT_ONLY_PARTICIPANT for reactions; after an
-- update of the power levels, reactions ask for the power level of the role that may send messages.
pub reaction_level-new_levels :
    (p : ChannelPermissionsInput) (permissions : Option ChannelPermissionsInput) (r : ChannelRole)
    (role : Option ChannelRole) (users : Dict ℤ)
    → (required_level (to_room_power_levels (to_initial_power_levels p r)) "m.reaction" ≡ pos 10)
      × (required_level (new_levels permissions role users) "m.reaction"
          ≡ from_entity_to_power_level
              (or_else (or_else permissions no_permissions).send_messages participant))
unfolding to_room_power_levels to_initial_power_levels new_levels lookup?
reaction_level-new_levels p none r role users = (refl, refl)
reaction_level-new_levels p (some q) r role users = (refl, refl)
