-- ===== src/Rooms/Sdk.antt =====
-- The part of matrix-js-sdk's `MatrixClient` that the room code calls. It is not code of this
-- repository: every operation is a parameter, an action on the client's and the homeserver's state
-- `S` that may throw.
use sudo_secure_communicatio.Prelude.{ℕ, String, Bool, Option, List}
use sudo_secure_communicatio.Prelude.Int.{ℤ}
use sudo_secure_communicatio.Exec.{Exec}
use sudo_secure_communicatio.Rooms.Entities.{RoomPowerLevels, CustomRoomType}

-- What is read of a member of the SDK's `Room`; `is_direct` says whether the content of its
-- membership event has `is_direct: true`.
pub record SdkMember : Type 0 where
  pub user_id : String
  pub name : String
  pub membership : Option String
  pub is_direct : Bool

-- What is read of the SDK's `Room`: `power_levels` is the content of the state event
-- `m.room.power_levels` in its current state.
pub record SdkRoom : Type 0 where
  pub room_id : String
  pub name : String
  pub joined_member_count : ℕ
  pub my_membership : String
  pub members : List SdkMember
  pub power_levels : Option RoomPowerLevels

-- An event of `GET /rooms/{id}/members`.
pub record MemberEvent : Type 0 where
  pub state_key : String
  pub displayname : Option String
  pub membership : Option String

-- The events of `initial_state` that the code creates rooms with.
pub data InitialState : Type 0 where
  encryption : String → InitialState
  custom_type : CustomRoomType → InitialState

-- ICreateRoomOpts, as far as the code fills it in
pub record CreateRoomOpts : Type 0 where
  pub name : Option String
  pub topic : Option String
  pub is_direct : Bool
  pub visibility : String
  pub preset : String
  pub invite : Option (List String)
  pub power_level_content_override : Option RoomPowerLevels
  pub initial_state : List InitialState

pub record Sdk (S : Type 0) : Type 0 where
  pub get_user_id : Exec S (Option String)
  pub get_room : String → Exec S (Option SdkRoom)
  -- `room_events t` are the rooms of the `ClientEvent.Room` events of the next `t` milliseconds
  pub room_events : ℕ → Exec S (List SdkRoom)
  -- adds the room to the sliding sync's room subscriptions
  pub subscribe : String → Exec S Unit
  pub get_rooms : Exec S (List SdkRoom)
  pub get_joined_rooms : Exec S (List String)
  pub get_power_levels_event : String → Exec S RoomPowerLevels
  pub send_power_levels_event : String → RoomPowerLevels → Exec S Unit
  pub set_power_level : String → String → ℤ → Exec S Unit
  pub request_members : String → Exec S (List MemberEvent)
  pub get_topic_event : String → Exec S (Option String)
  pub get_avatar_event : String → Exec S (Option String)
  pub send_avatar_event : String → Option String → Exec S Unit
  pub request_room_type : String → Exec S (Option CustomRoomType)
  pub request_room_tags : String → Exec S (Option (List String))
  pub set_room_name : String → String → Exec S Unit
  pub set_room_topic : String → String → Exec S Unit
  pub join_room : String → Exec S Unit
  pub knock_room : String → Option String → Exec S Unit
  -- the `membership` of the state event `m.room.member` of a room and a user
  pub get_membership_event : String → String → Exec S (Option String)
  pub leave : String → Exec S Unit
  pub invite : String → String → Exec S Unit
  pub kick : String → String → Option String → Exec S Unit
  pub ban : String → String → Option String → Exec S Unit
  pub unban : String → String → Exec S Unit
  pub get_profile_info : String → Exec S Unit
  pub create_room : CreateRoomOpts → Exec S String
  pub set_ignored_users : List String → Exec S Unit
  pub get_ignored_users : Exec S (List String)
  pub is_user_ignored : String → Exec S Bool

-- The fields of MatrixClientManager that the room code reads: the SDK's client, the home server,
-- and whether sliding sync has been started.
pub record MatrixClientManager (S : Type 0) : Type 0 where
  pub client : Sdk S
  pub home_server : String
  pub sliding_sync : Bool
