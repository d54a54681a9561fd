-- ===== src/Tests/Channels.antt =====
-- The theorems on channels at concrete inputs.
use sudo_secure_communicatio.Prelude.{
  String, ◌≤◌, ◌≡◌, refl, ◌⊎◌, ◌↔◌, Option, none, some, [], ◌∷◌, ◌++◌, lookup, or_else,
}
use sudo_secure_communicatio.Prelude.Int.{pos, ◌≤ℤ◌}
use sudo_secure_communicatio.Exec.{ok}
use sudo_secure_communicatio.Rooms.Entities.{RoomPowerLevels, Room, to_room_power_levels}
use sudo_secure_communicatio.Rooms.Manager
use sudo_secure_communicatio.Rooms.Service
use sudo_secure_communicatio.Channels.Entities.{
  admin, moderator, participant, react_only_participant, rank, ChannelPermissionsInput,
}
use sudo_secure_communicatio.Channels.PowerLevels.{
  from_entity_to_power_level, from_power_level_to_entity, to_initial_power_levels, to_permissions,
  to_default_member_role, to_power_levels_map,
}
use sudo_secure_communicatio.Channels.PowerLevels.Laws.{
  role_of_level_iff, complete, to_power_levels_map-to_initial,
}
use sudo_secure_communicatio.Channels.Update.Levels.{
  level_now, keep_levels, users_of, new_levels, update_room_power_levels,
}
use sudo_secure_communicatio.Channels.Update.Levels.Members.{new_levels-keep_members}
use sudo_secure_communicatio.Channels.Update.Levels.Permissions.{
  no_permissions, to_permissions-new_levels, required_level, reaction_level-new_levels,
}
use sudo_secure_communicatio.Tests.Samples.{world, levels, manager}

-- Everyone may invite, and only an admin may ban.
abbrev permissions : ChannelPermissionsInput
permissions = record no_permissions {
  invite_handles = some react_only_participant;
  ban_handles = some admin;
}

role_of_level_iff_example :
    (rank moderator ≤ rank (from_power_level_to_entity (pos 49)))
    ↔ ((from_entity_to_power_level moderator ≤ℤ pos 49) ⊎ (moderator ≡ react_only_participant))
role_of_level_iff_example = role_of_level_iff moderator (pos 49)

abbrev channel : String → Option RoomPowerLevels → Room
channel id levels = record {
  room_id = id;
  type = none;
  name = some "news";
  description = none;
  tags = none;
  avatar_url = none;
  power_levels = levels;
  member_count = 2;
  inviter = none;
}

to_power_levels_map-to_initial_example :
    lookup "room" (
      to_power_levels_map (
        (channel "other" none ∷ [])
        ++ channel "room"
            (some (to_room_power_levels (to_initial_power_levels permissions moderator)))
          ∷ channel "last" (some levels)
          ∷ []))
    ≡ some (complete permissions, moderator)
to_power_levels_map-to_initial_example =
    to_power_levels_map-to_initial (channel "other" none ∷ []) (channel "last" (some levels) ∷ [])
      (channel "room" (some (to_room_power_levels (to_initial_power_levels permissions moderator))))
      permissions moderator refl (refl, tt)

-- Ann keeps the level 60 of her own entry, and Dan the default, 25, when the default falls to 10.
new_levels-keep_members_example :
    level_now
      (some (
        new_levels (some permissions) (some react_only_participant) (
          keep_levels
            (some levels)
            (from_entity_to_power_level (or_else (some react_only_participant) participant))
            ("@ann:hs" ∷ "@dan:hs" ∷ [])
            (users_of (some levels)))))
      "@dan:hs"
    ≡ some (pos 25)
unfolding level_now
new_levels-keep_members_example =
    new_levels-keep_members (some levels) (some permissions) (some react_only_participant)
      ("@ann:hs" ∷ "@dan:hs" ∷ []) "@dan:hs" (pos 25) refl refl

to_permissions-new_levels_example :
    (to_permissions (new_levels (some permissions) none []) ≡ complete permissions)
    × (to_default_member_role (new_levels (some permissions) none []) ≡ participant)
to_permissions-new_levels_example = to_permissions-new_levels (some permissions) none []

-- An update that only names permissions is dropped where the default role is PARTICIPANT.
permissions_dropped :
    update_room_power_levels manager "room" (some permissions) none world ≡ (ok tt, world)
unfolding update_room_power_levels Service.get Manager.get_room Manager.get_room_topic
    Manager.get_room_avatar_url Manager.get_room_power_levels Manager.get_room_type
    Manager.get_room_tags from_entity_to_power_level
permissions_dropped = refl

reaction_level-new_levels_example :
    (required_level
        (to_room_power_levels (to_initial_power_levels no_permissions participant))
        "m.reaction"
      ≡ pos 10)
    × (required_level (new_levels (some permissions) none []) "m.reaction"
        ≡ from_entity_to_power_level participant)
reaction_level-new_levels_example =
    reaction_level-new_levels no_permissions (some permissions) participant none []
