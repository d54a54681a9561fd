-- ===== src/Rooms/Authority/Laws.antt =====
-- What a handle may do to another member of a room, and to itself.
use sudo_secure_communicatio.Prelude.{String, ◌≡◌, ◌≢◌, Option, some, eq_iff, eq_refl, arith}
use sudo_secure_communicatio.Prelude.Int.{ℤ, ◌≤ℤ◌}
use sudo_secure_communicatio.Exec.{ok, err}
use sudo_secure_communicatio.Ids.{to_matrix_user_id}
use sudo_secure_communicatio.Rooms.Sdk.{MatrixClientManager, SdkRoom}
use sudo_secure_communicatio.Rooms.Levels.{current_level}
use sudo_secure_communicatio.Rooms.Manager
use sudo_secure_communicatio.Rooms.Authority.{
  outranks, denied, update_room_member_power_level, kick_handle, ban_handle, unban_handle,
}

-- What the methods read first: the caller's user id, and then the room.
module _ {S : Type 0} (m : MatrixClientManager S) (s t u : S) (user room_id id : String)
    (room : SdkRoom) (reads_user : Manager.get_user_id m s ≡ (ok user, t))
    (reads_room : Manager.get_room m room_id t ≡ (ok (some room), u)) where
  -- A caller that does not outrank another handle can neither update its power level nor kick, ban
  -- or unban it: each of the four methods throws PermissionDeniedError, and nothing is sent after
  -- the two reads.
  pub denied_of_le :
      (level : ℤ) (reason : Option String)
      → user ≢ to_matrix_user_id id m.home_server
      → current_level room.power_levels user
        ≤ℤ current_level room.power_levels (to_matrix_user_id id m.home_server)
      → (update_room_member_power_level m room_id id level s
          ≡ (err (denied "You are not permitted to update this members role"), u))
        × (kick_handle m room_id id reason s ≡ (err (denied "You are not permitted to kick"), u))
        × (ban_handle m room_id id reason s ≡ (err (denied "You are not permitted to ban"), u))
        × (unban_handle m room_id id s ≡ (err (denied "You are not permitted to unban"), u))
  unfolding update_room_member_power_level kick_handle ban_handle unban_handle outranks
  denied_of_le level reason other lower =
      let target = to_matrix_user_id id m.home_server in
      (
        ground (arith, eq_iff user target),
        ground (arith, eq_iff user target),
        ground arith,
        ground arith,
      )

  -- On itself a handle may always update its power level and kick, whatever its level, and may
  -- neither ban nor unban.
  pub allowed_on_self :
      (level : ℤ) (reason : Option String)
      → user ≡ to_matrix_user_id id m.home_server
      → (update_room_member_power_level m room_id id level s
          ≡ Manager.set_room_member_power_level m room.room_id user level u)
        × (kick_handle m room_id id reason s ≡ Manager.kick_handle m room.room_id user reason u)
        × (ban_handle m room_id id reason s ≡ (err (denied "You are not permitted to ban"), u))
        × (unban_handle m room_id id s ≡ (err (denied "You are not permitted to unban"), u))
  unfolding update_room_member_power_level kick_handle ban_handle unban_handle outranks
  allowed_on_self level reason same = (
    rw (← same) (ground (arith, eq_refl user)),
    rw (← same) (ground (arith, eq_refl user)),
    rw (← same) (ground arith),
    rw (← same) (ground arith),
  )
