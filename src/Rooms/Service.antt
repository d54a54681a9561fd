-- ===== src/Rooms/Service.antt =====
-- MatrixRoomsService (src/private/data/rooms/matrixRoomsService.ts) on top of the room methods of
-- MatrixClientManager. Its `create` stands in Groups/Create, and the methods that weigh power
-- levels in Rooms/Authority.
use sudo_secure_communicatio.Prelude.{
  ℕ, String, Bool, Option, none, some, List, map, ◌==◌, or_else, or_option, keep, present,
}
use sudo_secure_communicatio.Errors.{thrown, secure_comms, room_not_found}
use sudo_secure_communicatio.Exec.{Exec, pure, pass, raise, promise_all, ◌>>=◌, ◌>>◌}
use sudo_secure_communicatio.Ids.{to_matrix_user_id}
use sudo_secure_communicatio.Media.Entities.{MediaCredential}
use sudo_secure_communicatio.Rooms.Entities.{RoomPowerLevels, Room, RoomMember, MembershipState}
use sudo_secure_communicatio.Rooms.Sdk.{MatrixClientManager, SdkRoom, MemberEvent}
use sudo_secure_communicatio.Rooms.Manager
use sudo_secure_communicatio.Rooms.Members.{
  to_member, invitees, InvitationRequest, knock_requests, known_state,
}

-- `Input<T>`
pub record Input (A : Type 0) : Type 0 where
  pub value : A

-- AvatarInput; the file is its bytes
pub record AvatarInput : Type 0 where
  pub file : List ℕ
  pub file_name : String
  pub file_type : String
  pub media_credential : MediaCredential

-- UpdateRoomInput
pub record UpdateRoomInput : Type 0 where
  pub room_id : String
  pub name : Option (Input (Option String))
  pub description : Option (Input (Option String))
  pub avatar : Option (Input (Option AvatarInput))
  pub power_levels : Option (Input (Option RoomPowerLevels))
  pub is_visible : Option (Input Bool)

-- `input?.value ?? current`
abbrev pub value_or : {A : Type 0} → Option (Input (Option A)) → Option A → Option A
value_or none current = current
value_or (some input) current = or_option input.value current

module _ {S : Type 0} (m : MatrixClientManager S) where
  describe : String → Option SdkRoom → Exec S (Option Room)
  describe room_id none = pure none
  describe room_id (some room) = do
    description ← Manager.get_room_topic m room_id
    avatar_url ← Manager.get_room_avatar_url m room_id
    power_levels ← Manager.get_room_power_levels m room_id
    room_type ← Manager.get_room_type m room_id
    room_tags ← Manager.get_room_tags m room_id
    pure (
        some (record {
          room_id = room.room_id;
          type = room_type;
          name = some room.name;
          description = description;
          tags = room_tags;
          avatar_url = avatar_url;
          power_levels = power_levels;
          member_count = room.joined_member_count;
          inviter = none;
        }))

  unfoldable pub get : String → Exec S (Option Room)
  unfolding describe
  get room_id = do room ← Manager.get_room m room_id; describe room_id room

  unfoldable pub list : List String → Exec S (List Room)
  unfolding get
  list room_ids = do rooms ← promise_all get room_ids; pure (present rooms)

  with_levels : List MemberEvent → Option RoomPowerLevels → Exec S (List RoomMember)
  unfolding to_member
  with_levels members none = raise (thrown room_not_found none)
  with_levels members (some levels) = pure (map (to_member levels) members)

  with_members : String → Option (List MemberEvent) → Exec S (List RoomMember)
  unfolding with_levels
  with_members room_id none = raise (thrown room_not_found none)
  with_members room_id (some members) = do
    levels ← Manager.get_room_power_levels m room_id
    with_levels members levels

  unfoldable pub get_members : String → Exec S (List RoomMember)
  unfolding with_members
  get_members room_id = do members ← Manager.get_members m room_id; with_members room_id members

  unfoldable pub join : String → Exec S Unit
  join room_id = Manager.join_room m room_id

  unfoldable pub leave : String → Exec S Unit
  leave room_id = Manager.leave_room m room_id

  invite_absent : String → List String → Option SdkRoom → Exec S Unit
  unfolding invitees
  invite_absent room_id target_handle_ids none = raise (thrown room_not_found none)
  invite_absent room_id target_handle_ids (some room) = do
    promise_all (λ handle_id. Manager.invite m room_id (to_matrix_user_id handle_id m.home_server))
        (invitees room target_handle_ids)
    pass

  unfoldable pub send_invitations : String → List String → Exec S Unit
  unfolding invite_absent
  send_invitations room_id target_handle_ids = do
    room ← Manager.get_room m room_id
    invite_absent room_id target_handle_ids room

  rooms_with : String → Exec S (List Room)
  rooms_with membership = do
    rooms ← Manager.list_rooms m
    pure (
        map
          (λ room. record {
            room_id = room.room_id;
            type = none;
            name = some room.name;
            description = none;
            tags = none;
            avatar_url = none;
            power_levels = none;
            member_count = room.joined_member_count;
            inviter = none;
          })
          (keep (λ room. room.my_membership == membership) rooms))

  unfoldable pub list_invited_rooms : Exec S (List Room)
  unfolding rooms_with
  list_invited_rooms = rooms_with "invite"

  unfoldable pub list_knocked_rooms : Exec S (List Room)
  unfolding rooms_with
  list_knocked_rooms = rooms_with "knock"

  unfoldable pub knock_room : String → Option String → Exec S Unit
  knock_room room_id reason = Manager.knock_room m room_id reason

  unfoldable pub list_joined_room_ids : Exec S (List String)
  list_joined_room_ids = Manager.list_joined_rooms m

  requests_of : Option SdkRoom → Exec S (List InvitationRequest)
  unfolding knock_requests
  requests_of none = raise (thrown room_not_found none)
  requests_of (some room) = pure (knock_requests room)

  unfoldable pub list_knock_requests : String → Exec S (List InvitationRequest)
  unfolding requests_of
  list_knock_requests room_id = do room ← Manager.get_room m room_id; requests_of room

  unfoldable pub get_membership_state : String → String → Exec S (Option MembershipState)
  unfolding known_state
  get_membership_state room_id handle_id = do
    state ← Manager.get_membership_state m room_id (to_matrix_user_id handle_id m.home_server)
    pure (known_state state)

  -- `matrixMediaService.uploadMediaFile`, where the service has one, is the parameter `upload`.
  send_avatar :
      Option (AvatarInput → Exec S String) → String → Option AvatarInput → Exec S (Option String)
  send_avatar upload room_id none = do Manager.set_room_avatar m room_id none; pure none
  send_avatar none room_id (some avatar) =
      raise (thrown secure_comms (some "Media service is not available"))
  send_avatar (some upload) room_id (some avatar) = do
    url ← upload avatar
    Manager.set_room_avatar m room_id (some url)
    pure (some url)

  update_avatar :
      Option (AvatarInput → Exec S String)
      → String
      → Option (Input (Option AvatarInput))
      → Exec S (Option String)
  unfolding send_avatar
  update_avatar upload room_id none = pure none
  update_avatar upload room_id (some input) = send_avatar upload room_id input.value

  update_name : String → Option (Input (Option String)) → Exec S Unit
  update_name room_id none = pass
  update_name room_id (some input) = Manager.set_room_name m room_id (or_else input.value "")

  update_topic : String → Option (Input (Option String)) → Exec S Unit
  update_topic room_id none = pass
  update_topic room_id (some input) = Manager.set_room_topic m room_id (or_else input.value "")

  send_levels : String → Option RoomPowerLevels → Exec S Unit
  send_levels room_id none = pass
  send_levels room_id (some levels) = Manager.set_room_power_levels m room_id levels

  update_levels : String → Option (Input (Option RoomPowerLevels)) → Exec S Unit
  unfolding send_levels
  update_levels room_id none = pass
  update_levels room_id (some input) = send_levels room_id input.value

  apply_update : Option (AvatarInput → Exec S String) → UpdateRoomInput → Option Room → Exec S Room
  unfolding update_avatar update_name update_topic update_levels
  apply_update upload input none = raise (thrown room_not_found none)
  apply_update upload input (some room) = do
    update_name room.room_id input.name
    update_topic room.room_id input.description
    avatar_mxc_url ← update_avatar upload room.room_id input.avatar
    update_levels room.room_id input.power_levels
    pure (record {
      room_id = room.room_id;
      type = none;
      name = value_or input.name room.name;
      description = value_or input.description room.description;
      tags = none;
      avatar_url = or_option avatar_mxc_url room.avatar_url;
      power_levels = value_or input.power_levels room.power_levels;
      member_count = room.member_count;
      inviter = none;
    })

  unfoldable pub update : Option (AvatarInput → Exec S String) → UpdateRoomInput → Exec S Room
  unfolding get apply_update
  update upload input = do room ← get input.room_id; apply_update upload input room
