-- ===== src/Groups/Roles/Laws.antt =====
-- The reading of power levels in Groups/Roles.
use sudo_secure_communicatio.Prelude.{◌≡◌, refl, ◌↔◌, ◌⊎◌, some, arith}
use sudo_secure_communicatio.Prelude.Int.{ℤ, pos, ◌≤ℤ◌, ◌<ℤ◌}
use sudo_secure_communicatio.Errors.{thrown, invalid_argument}
use sudo_secure_communicatio.Exec.{Result, ok, err}
use sudo_secure_communicatio.Rooms.Entities.{RoomPowerLevels}
use sudo_secure_communicatio.Groups.Entities.{
  GroupRole, GroupPermissions, admin, participant, nobody,
}
use sudo_secure_communicatio.Groups.Roles.{
  from_entity_to_power_level, from_power_level_to_entity, role_or, event_role_or,
  from_room_permissions, ◌>>=◌,
}

-- The power level of a group's role is read back as that role.
pub role_round_trip :
    (r : GroupRole) → from_power_level_to_entity (from_entity_to_power_level r) ≡ ok r
unfolding from_entity_to_power_level from_power_level_to_entity
role_round_trip admin = refl
role_round_trip participant = refl
role_round_trip nobody = refl

-- Reading a power level fails exactly between the bands of the roles: below 0, from 26 to 50, and
-- above 101.
pub out_of_range_iff :
    (level : ℤ)
    → (from_power_level_to_entity level
        ≡ err (thrown invalid_argument (some "power level is out of range")))
      ↔ ((level <ℤ pos 0) ⊎ (pos 26 ≤ℤ level) × (level ≤ℤ pos 50) ⊎ (pos 101 <ℤ level))
unfolding from_power_level_to_entity
out_of_range_iff level = ground arith

bind-eq-ok :
    {A B : Type 0} (r : Result A) (f : A → Result B) (b : B)
    → (r >>= f) ≡ ok b
    → (a : A) × (r ≡ ok a) × (f a ≡ ok b)
bind-eq-ok (ok a) f b h = (a, refl, h)
bind-eq-ok (err e) f b h = absurd (ground arith)

-- What is read of the levels for kicking and for banning, where the other six are read too.
kick_and_ban_read :
    (levels : RoomPowerLevels) (permissions : GroupPermissions)
    → from_room_permissions levels ≡ ok permissions
    → (role_or levels.kick admin ≡ ok permissions.kick_handles)
      × (role_or levels.ban admin ≡ ok permissions.ban_handles)
unfolding from_room_permissions
kick_and_ban_read levels permissions h =
    let (send, send_read, h1) =
      bind-eq-ok (role_or levels.events_default participant) _ permissions h in
    let (invite, invite_read, h2) =
      bind-eq-ok (role_or levels.invite participant) _ permissions h1 in
    let (kick, kick_read, h3) = bind-eq-ok (role_or levels.kick admin) _ permissions h2 in
    let (ban, ban_read, h4) = bind-eq-ok (role_or levels.ban admin) _ permissions h3 in
    let (name, name_read, h5) =
      bind-eq-ok (event_role_or "m.room.name" levels.events participant) _ permissions h4 in
    let (topic, topic_read, h6) =
      bind-eq-ok (event_role_or "m.room.topic" levels.events participant) _ permissions h5 in
    let (avatar, avatar_read, h7) =
      bind-eq-ok (event_role_or "m.room.avatar" levels.events participant) _ permissions h6 in
    let (redact, redact_read, h8) = bind-eq-ok (role_or levels.redact nobody) _ permissions h7 in
    (ground (arith, kick_read, h8), ground (arith, ban_read, h8))

role_or-admin_iff :
    (level : ℤ) (role : GroupRole)
    → role_or (some level) admin ≡ ok role
    → (role ≡ admin) ↔ ((level ≡ pos 0) ⊎ (pos 51 ≤ℤ level) × (level ≤ℤ pos 100))
unfolding role_or from_power_level_to_entity
role_or-admin_iff level role h = ground arith

-- Where the permissions of a room can be read as those of a group, kicking is read as a permission
-- of ADMIN exactly if the room's power level for it is from 51 to 100, the levels of an ADMIN, or
-- is 0, which every PARTICIPANT has; and so is banning.
pub kick_and_ban-admin_iff :
    (levels : RoomPowerLevels) (permissions : GroupPermissions) (kick ban : ℤ)
    → from_room_permissions levels ≡ ok permissions
    → levels.kick ≡ some kick
    → levels.ban ≡ some ban
    → ((permissions.kick_handles ≡ admin) ↔ ((kick ≡ pos 0) ⊎ (pos 51 ≤ℤ kick) × (kick ≤ℤ pos 100)))
      × ((permissions.ban_handles ≡ admin) ↔ ((ban ≡ pos 0) ⊎ (pos 51 ≤ℤ ban) × (ban ≤ℤ pos 100)))
kick_and_ban-admin_iff levels permissions kick ban read kick_is ban_is =
    let (kick_read, ban_read) = kick_and_ban_read levels permissions read in
    (
      role_or-admin_iff kick permissions.kick_handles (rw kick_is at kick_read),
      role_or-admin_iff ban permissions.ban_handles (rw ban_is at ban_read),
    )
