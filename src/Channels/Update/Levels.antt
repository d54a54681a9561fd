-- ===== src/Channels/Update/Levels.antt =====
-- `updateRoomPowerLevels` of UpdateChannelUseCase: the permissions and the default role of a
-- channel's members, written to the room's power levels.
pub mod Members
pub mod Permissions
use sudo_secure_communicatio.Prelude.{
  String, Bool, true, false, not, ◌&&◌, Option, none, some, List, [], ◌∷◌, Dict, insert, lookup?,
  or_else, or_option, is_some, lookup, map, if◌then◌else◌,
}
use sudo_secure_communicatio.Prelude.Int.{ℤ, eq_ℤ}
use sudo_secure_communicatio.Exec.{Exec, pure, pass, ◌>>=◌, ◌>>◌}
use sudo_secure_communicatio.Ids.{to_matrix_user_id}
use sudo_secure_communicatio.Rooms.Entities.{RoomPowerLevels, Room, RoomMember}
use sudo_secure_communicatio.Rooms.Sdk.{MatrixClientManager}
use sudo_secure_communicatio.Rooms.Service
use sudo_secure_communicatio.Channels.Entities.{
  ChannelRole, participant, ChannelPermissions, ChannelPermissionsInput, default_permissions,
}
use sudo_secure_communicatio.Channels.PowerLevels.{from_entity_to_power_level}

-- `currentRoomPowerLevels?.users ?? {}`, copied
abbrev pub users_of : Option RoomPowerLevels → Dict ℤ
users_of none = []
users_of (some levels) = or_else levels.users []

abbrev pub users_default_of : Option RoomPowerLevels → Option ℤ
users_default_of none = none
users_default_of (some levels) = levels.users_default

-- `currentRoomPowerLevels?.users?.[userId] ?? currentRoomPowerLevels?.users_default`
unfoldable pub level_now : Option RoomPowerLevels → String → Option ℤ
unfolding lookup?
level_now none user = none
level_now (some levels) user = or_option (lookup? user levels.users) levels.users_default

-- the body of the loop over the members
keep_level : ℤ → String → Option ℤ → Dict ℤ → Dict ℤ
unfolding insert lookup
keep_level new_default user none users = users
keep_level new_default user (some level) users =
    if not (eq_ℤ level new_default) && not (is_some (lookup user users))
    then insert user level users
    else users

-- the loop over the members, by their user ids
unfoldable pub keep_levels : Option RoomPowerLevels → ℤ → List String → Dict ℤ → Dict ℤ
unfolding keep_level level_now
keep_levels current new_default [] users = users
keep_levels current new_default (user ∷ members) users =
    keep_levels current new_default members
      (keep_level new_default user (level_now current user) users)

-- a field of `permissions?.value`, or the default
abbrev pub role_or :
    (ChannelPermissionsInput → Option ChannelRole)
    → ChannelRole
    → Option ChannelPermissionsInput
    → ChannelRole
role_or field default none = default
role_or field default (some p) = or_else (field p) default

-- `roomPowerLevels`
unfoldable pub new_levels :
    Option ChannelPermissionsInput → Option ChannelRole → Dict ℤ → RoomPowerLevels
unfolding from_entity_to_power_level
new_levels permissions default_member_role users =
    let level = from_entity_to_power_level in
    let d = default_permissions in
    record {
      ban = some (level (role_or (λ p. p.ban_handles) d.ban_handles permissions));
      events = some (
          (
            "m.room.name",
            level (role_or (λ p. p.change_channel_name) d.change_channel_name permissions),
          )
          ∷ (
            "m.room.topic",
            level (
                role_or (λ p. p.change_channel_description) d.change_channel_description
                  permissions),
          )
          ∷ (
            "m.room.avatar",
            level (role_or (λ p. p.change_channel_avatar) d.change_channel_avatar permissions),
          )
          ∷ []);
      events_default = some (level (role_or (λ p. p.send_messages) d.send_messages permissions));
      invite = some (level (role_or (λ p. p.invite_handles) d.invite_handles permissions));
      kick = some (level (role_or (λ p. p.kick_handles) d.kick_handles permissions));
      notifications = none;
      redact =
          some
            (level (role_or (λ p. p.delete_others_messages) d.delete_others_messages permissions));
      state_default = none;
      users = some users;
      users_default = some (level (or_else default_member_role participant));
    }

abbrev same_level : ℤ → Option ℤ → Bool
same_level a none = false
same_level a (some b) = eq_ℤ a b

abbrev power_levels_of : Option Room → Option RoomPowerLevels
power_levels_of none = none
power_levels_of (some room) = room.power_levels

-- An `Input`'s value stands for the input: `none` is an input that is not there, or one whose value
-- is `undefined`; the code treats the two alike here.
module _ {S : Type 0} (m : MatrixClientManager S) where
  write_levels :
      String
      → Option ChannelPermissionsInput
      → Option ChannelRole
      → Option RoomPowerLevels
      → List RoomMember
      → Exec S Unit
  write_levels channel_id permissions default_member_role current members = do
    let new_default = from_entity_to_power_level (or_else default_member_role participant)
    let user_ids =
        map (λ (member : RoomMember). to_matrix_user_id member.handle.handle_id m.home_server)
          members
    Service.update m none (record {
      room_id = channel_id;
      name = none;
      description = none;
      avatar = none;
      is_visible = none;
      power_levels = some (record {
        value = some (
            new_levels permissions default_member_role
              (keep_levels current new_default user_ids (users_of current)));
      });
    })
    pass

  update_unless_same :
      String
      → Option ChannelPermissionsInput
      → Option ChannelRole
      → Option RoomPowerLevels
      → Exec S Unit
  unfolding from_entity_to_power_level write_levels
  update_unless_same channel_id permissions default_member_role current =
      if same_level (from_entity_to_power_level (or_else default_member_role participant))
        (users_default_of current)
      then pass
      else (do
        members ← Service.get_members m channel_id
        write_levels channel_id permissions default_member_role current members)

  unfoldable pub update_room_power_levels :
      String → Option ChannelPermissionsInput → Option ChannelRole → Exec S Unit
  unfolding update_unless_same
  update_room_power_levels channel_id permissions default_member_role = do
    room ← Service.get m channel_id
    update_unless_same channel_id permissions default_member_role (power_levels_of room)
