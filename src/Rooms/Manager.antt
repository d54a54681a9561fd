-- ===== src/Rooms/Manager.antt =====
-- The room methods of MatrixClientManager (src/private/data/common/matrixClientManager.ts): each wraps
-- a call of the SDK's client and replaces what it throws by an error of its own.
use sudo_secure_communicatio.Prelude.{
  ℕ, String, ◌≡◌, ◌≢◌, Bool, true, false, not, Option, none, some, List, [], ◌∷◌, ◌==◌, find, keep,
  if◌then◌else◌, eq_iff, arith,
}
use sudo_secure_communicatio.Prelude.Int.{ℤ}
use sudo_secure_communicatio.Errors.{
  Error, thrown, matrix_error, plain, unauthorized, handle_not_found,
}
use sudo_secure_communicatio.Exec.{Exec, ok, pure, pass, raise, catch, or_fail, ◌>>=◌, ◌>>◌}
use sudo_secure_communicatio.Exec.Laws.{bind-eq-ok}
use sudo_secure_communicatio.Rooms.Entities.{RoomPowerLevels, CustomRoomType}
use sudo_secure_communicatio.Rooms.Sdk.{MatrixClientManager, SdkRoom, MemberEvent, CreateRoomOpts}

-- SLIDING_SYNC_ROOM_SUBSCRIBE_WAIT_MS, JOIN_ROOM_LOCAL_CACHE_WAIT_MS
abbrev pub sliding_sync_room_subscribe_wait_ms : ℕ
sliding_sync_room_subscribe_wait_ms = 35000

abbrev pub join_room_local_cache_wait_ms : ℕ
join_room_local_cache_wait_ms = 10000

-- the handler `if (M_NOT_FOUND) return value; throw new Error(msg)`
abbrev pub absent_or : {S : Type 0} {A : Type 0} → String → A → Error → Exec S A
absent_or msg value (thrown c m) = raise (thrown plain (some msg))
absent_or msg value (matrix_error code) =
    if code == "M_NOT_FOUND" then pure value else raise (thrown plain (some msg))

-- the handler `if (M_NOT_FOUND) return undefined; throw new Error(msg)`
abbrev pub absent_or_fail : {S : Type 0} {A : Type 0} → String → Error → Exec S (Option A)
absent_or_fail msg e = absent_or msg none e

-- the same with `if (M_FORBIDDEN) throw new UnauthorizedError()` in between
abbrev pub absent_or_forbidden : {S : Type 0} {A : Type 0} → String → Error → Exec S (Option A)
absent_or_forbidden msg (thrown c m) = raise (thrown plain (some msg))
absent_or_forbidden msg (matrix_error code) =
    if code == "M_NOT_FOUND"
    then pure none
    else if code == "M_FORBIDDEN"
    then raise (thrown unauthorized none)
    else raise (thrown plain (some msg))

module _ {S : Type 0} (m : MatrixClientManager S) where
  user_id_or_missing : Option String → Exec S String
  user_id_or_missing none = raise (thrown handle_not_found none)
  user_id_or_missing (some id) = if id == "" then raise (thrown handle_not_found none) else pure id

  unfoldable pub get_user_id : Exec S String
  unfolding user_id_or_missing
  get_user_id = do id ← m.client.get_user_id; user_id_or_missing id

  user_id_or_missing-named :
      (id : String) (found : Option String) (s t : S)
      → user_id_or_missing found s ≡ (ok id, t)
      → id ≢ ""
  unfolding user_id_or_missing
  user_id_or_missing-named id none s t e = ground arith
  user_id_or_missing-named id (some found) s t e = ground (arith, eq_iff found "")

  -- The user id that is returned is not empty.
  pub get_user_id-named : (id : String) (s t : S) → get_user_id s ≡ (ok id, t) → id ≢ ""
  unfolding get_user_id
  get_user_id-named id s t e =
      let (found, u, read, checked) = bind-eq-ok m.client.get_user_id user_id_or_missing s t id e in
      user_id_or_missing-named id found u t checked

  event_or_cached : String → Option SdkRoom → Exec S (Option SdkRoom)
  event_or_cached id none = m.client.get_room id
  event_or_cached id (some room) = pure (some room)

  existing_or_wait : String → ℕ → Option SdkRoom → Exec S (Option SdkRoom)
  unfolding event_or_cached
  existing_or_wait id timeout (some room) = pure (some room)
  existing_or_wait id timeout none = do
    events ← m.client.room_events timeout
    event_or_cached id (find (λ room. room.room_id == id) events)

  unfoldable pub wait_for_room_in_local_cache : String → ℕ → Exec S (Option SdkRoom)
  unfolding existing_or_wait
  wait_for_room_in_local_cache id timeout = do
    existing ← m.client.get_room id
    existing_or_wait id timeout existing

  room_or_subscribe : String → Option SdkRoom → Exec S (Option SdkRoom)
  unfolding wait_for_room_in_local_cache
  room_or_subscribe id (some room) = pure (some room)
  room_or_subscribe id none =
      if m.sliding_sync
      then (do
        m.client.subscribe id
        wait_for_room_in_local_cache id sliding_sync_room_subscribe_wait_ms)
      else pure none

  unfoldable pub get_room : String → Exec S (Option SdkRoom)
  unfolding room_or_subscribe
  get_room id =
      or_fail "Failed to retrieve a room"
        (do room ← m.client.get_room id; room_or_subscribe id room)

  unfoldable pub user_exists : String → Exec S Bool
  user_exists id =
      catch (do m.client.get_profile_info id; pure true)
        (absent_or "Failed to retrieve user profile" false)

  unfoldable pub kick_handle : String → String → Option String → Exec S Unit
  kick_handle id target reason =
      or_fail "Failed to kick handle from room" (m.client.kick id target reason)

  unfoldable pub ban_handle : String → String → Option String → Exec S Unit
  ban_handle id target reason =
      or_fail "Failed to ban handle from room" (m.client.ban id target reason)

  unfoldable pub unban_handle : String → String → Exec S Unit
  unban_handle id target = or_fail "Failed to unban handle from room" (m.client.unban id target)

  unfoldable pub ignore_handle : String → Exec S Unit
  ignore_handle id = or_fail "Failed to ignore a handle" (m.client.set_ignored_users (id ∷ []))

  unfoldable pub unignore_handle : String → Exec S Unit
  unignore_handle id = do
    ignored ← m.client.is_user_ignored id
    if not ignored
        then pass
        else or_fail "Failed to unignore a handle" (do
          ignore_list ← m.client.get_ignored_users
          m.client.set_ignored_users (keep (λ item. not (item == id)) ignore_list))

  unfoldable pub list_ignored_handles : Exec S (List String)
  list_ignored_handles = or_fail "Failed to list ignored handles" m.client.get_ignored_users

  unfoldable pub get_room_type : String → Exec S (Option CustomRoomType)
  get_room_type id =
      catch (m.client.request_room_type id) (absent_or_fail "Failed to retrieve room type")

  unfoldable pub get_room_tags : String → Exec S (Option (List String))
  get_room_tags id =
      catch (m.client.request_room_tags id) (absent_or_fail "Failed to retrieve room tags")

  unfoldable pub get_room_topic : String → Exec S (Option String)
  get_room_topic id =
      catch (m.client.get_topic_event id) (absent_or_fail "Failed to retrieve room topic")

  unfoldable pub get_room_avatar_url : String → Exec S (Option String)
  get_room_avatar_url id =
      catch (m.client.get_avatar_event id) (absent_or_fail "Failed to retrieve room avatar url")

  unfoldable pub set_room_name : String → String → Exec S Unit
  set_room_name id name = or_fail "Failed to set room name" (m.client.set_room_name id name)

  unfoldable pub set_room_topic : String → String → Exec S Unit
  set_room_topic id topic = or_fail "Failed to set room topic" (m.client.set_room_topic id topic)

  unfoldable pub set_room_avatar : String → Option String → Exec S Unit
  set_room_avatar id url = or_fail "Failed to set room avatar" (m.client.send_avatar_event id url)

  unfoldable pub get_room_power_levels : String → Exec S (Option RoomPowerLevels)
  get_room_power_levels id =
      catch (do levels ← m.client.get_power_levels_event id; pure (some levels))
        (absent_or_forbidden "Failed to retrieve room power levels")

  unfoldable pub set_room_power_levels : String → RoomPowerLevels → Exec S Unit
  set_room_power_levels id levels =
      or_fail "Failed to set room power levels" (m.client.send_power_levels_event id levels)

  unfoldable pub set_room_member_power_level : String → String → ℤ → Exec S Unit
  set_room_member_power_level id user level =
      or_fail "Failed to set room member power level" (m.client.set_power_level id user level)

  unfoldable pub get_members : String → Exec S (Option (List MemberEvent))
  get_members id =
      catch (do events ← m.client.request_members id; pure (some events))
        (absent_or_forbidden "Failed to retrieve room members")

  room_or_missing : Option SdkRoom → Exec S Unit
  room_or_missing none =
      raise
        (thrown plain (some "Failed to join room: joined but room did not appear in local cache"))
  room_or_missing (some room) = pass

  unfoldable pub join_room : String → Exec S Unit
  unfolding wait_for_room_in_local_cache room_or_missing
  join_room id = do
    or_fail "Failed to join room: join failed" (m.client.join_room id)
    room ← wait_for_room_in_local_cache id join_room_local_cache_wait_ms
    room_or_missing room

  knocked_or_missing : Option SdkRoom → Exec S Unit
  knocked_or_missing none =
      raise
        (thrown plain (some "Failed to knock room: knocked but room did not appear in local cache"))
  knocked_or_missing (some room) = pass

  unfoldable pub knock_room : String → Option String → Exec S Unit
  unfolding wait_for_room_in_local_cache knocked_or_missing
  knock_room id reason = do
    or_fail "Failed to knock room: knock failed" (m.client.knock_room id reason)
    room ← wait_for_room_in_local_cache id join_room_local_cache_wait_ms
    knocked_or_missing room

  -- The outer `catch` replaces what getStateEvent throws.
  unfoldable pub get_membership_state : String → String → Exec S (Option String)
  get_membership_state id user = or_fail "Failed to retrieve membership state" (
      catch (m.client.get_membership_event id user)
        (absent_or_fail "Failed to retrieve state event"))

  unfoldable pub create_room : CreateRoomOpts → Exec S String
  create_room input = or_fail "Failed to create a room" (m.client.create_room input)

  unfoldable pub leave_room : String → Exec S Unit
  leave_room id = or_fail "Failed to leave room: leave failed" (m.client.leave id)

  unfoldable pub invite : String → String → Exec S Unit
  invite id user = or_fail "Failed to invite user to room" (m.client.invite id user)

  unfoldable pub list_rooms : Exec S (List SdkRoom)
  list_rooms = or_fail "Failed to retrieve rooms" m.client.get_rooms

  unfoldable pub list_joined_rooms : Exec S (List String)
  list_joined_rooms = or_fail "Failed to retrieve joined rooms" m.client.get_joined_rooms
