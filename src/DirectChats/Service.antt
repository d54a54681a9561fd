-- ===== src/DirectChats/Service.antt =====
-- MatrixDirectChatsService without the blocking of handles, which stands in Blocking. Calls that are
-- made together are made in the order of the source.
use sudo_secure_communicatio.Prelude.{
  String, Bool, true, false, not, ◌&&◌, ◌||◌, Option, none, some, List, [], ◌∷◌, ◌==◌, all, any,
  find, keep, contains, or_else, if◌then◌else◌,
}
use sudo_secure_communicatio.Errors.{
  thrown, handle_not_found, direct_chat_exists, direct_chat_membership, room_not_found,
}
use sudo_secure_communicatio.Exec.{Exec, pass, pure, raise, promise_all, ◌>>=◌, ◌>>◌}
use sudo_secure_communicatio.Ids.{to_matrix_user_id, to_handle_id}
use sudo_secure_communicatio.Rooms.Entities.{Handle}
use sudo_secure_communicatio.Rooms.Sdk.{MatrixClientManager, SdkRoom, SdkMember, MemberEvent}
use sudo_secure_communicatio.Rooms.Manager
use sudo_secure_communicatio.DirectChats.Lists.{rooms_with}
use sudo_secure_communicatio.DirectChats.Client.{
  DirectApi, create_direct_chat, join_direct_chat, get_direct_chat_account_data,
}

-- DirectChatEntity and DirectChatInvitationEntity: the chat, and the other handle or the inviter
pub record DirectChat : Type 0 where
  pub chat_id : String
  pub other_handle : Handle

pub record DirectChatInvitation : Type 0 where
  pub chat_id : String
  pub inviter_handle : Handle

-- `membership === value`
unfoldable pub is_membership : Option String → String → Bool
is_membership none value = false
is_membership (some membership) value = membership == value

unfoldable pub is_member_of_chat : String → MemberEvent → Bool
unfolding is_membership
is_member_of_chat user member =
    (member.state_key == user)
    && (is_membership member.membership "join" || is_membership member.membership "invite")

other_in_room : String → Option (List MemberEvent) → Bool
unfolding is_member_of_chat
other_in_room user none = false
other_in_room user (some members) = any (is_member_of_chat user) members

abbrev pub has_left : SdkMember → Bool
unfolding is_membership
has_left member = is_membership member.membership "leave"

-- the first filter of findDirectChatRooms, and the one for stale rooms
unfoldable pub is_live : String → List String → SdkRoom → Bool
unfolding has_left
is_live membership direct_content room =
    (room.my_membership == membership)
    && contains room.room_id direct_content
    && all (λ member. not (has_left member)) room.members

unfoldable pub is_stale : String → List String → SdkRoom → Bool
unfolding has_left
is_stale membership direct_content room =
    (room.my_membership == membership)
    && contains room.room_id direct_content
    && any has_left room.members

unfoldable pub is_flagged : String → SdkRoom → Bool
is_flagged membership room =
    (room.my_membership == membership) && any (λ member. member.is_direct) room.members

-- `splice(indexOf(room), 1)`
unfoldable pub remove_first : String → List String → List String
remove_first room [] = []
remove_first room (other ∷ rooms) =
    let rest = remove_first room rooms in if other == room then rooms else other ∷ rest

unfoldable pub live_or_flagged : String → List SdkRoom → List SdkRoom → List SdkRoom
unfolding is_flagged
live_or_flagged membership rooms [] = keep (is_flagged membership) rooms
live_or_flagged membership rooms (room ∷ live) = room ∷ live

to_invitation : {S : Type 0} → SdkRoom → Option SdkMember → Exec S DirectChatInvitation
to_invitation room none =
    raise (thrown direct_chat_membership (some "Direct chat membership not available"))
to_invitation room (some inviter) = pure (record {
  chat_id = room.room_id;
  inviter_handle = record { handle_id = to_handle_id inviter.user_id; name = inviter.name };
})

to_chat : {S : Type 0} → SdkRoom → Option MemberEvent → Exec S DirectChat
to_chat room none =
    raise (thrown direct_chat_membership (some "Direct chat membership not available"))
to_chat room (some other) = pure (record {
  chat_id = room.room_id;
  other_handle = record {
    handle_id = to_handle_id other.state_key;
    name = or_else other.displayname "";
  };
})

-- `members?.find((member) => member.userId !== userId)`
other_member : String → Option (List MemberEvent) → Option MemberEvent
other_member user none = none
other_member user (some members) = find (λ member. not (member.state_key == user)) members

module _ {S : Type 0} (m : MatrixClientManager S) (api : DirectApi S) where
  unfoldable pub chat_exists : String → Exec S Bool
  unfolding rooms_with get_direct_chat_account_data other_in_room
  chat_exists other_handle_id = do
    current_user_id ← Manager.get_user_id m
    rooms ← Manager.list_rooms m
    account_data ← get_direct_chat_account_data m api
    let direct_content = rooms_with current_user_id (or_else account_data [])
    results ←
        promise_all
          (λ room. do
            members ← Manager.get_members m room.room_id
            pure (other_in_room other_handle_id members))
          (keep (λ room. contains room.room_id direct_content) rooms)
    pure (any (λ result. result) results)

  -- The loop over the stale rooms; `user_room_list` is the array in the SDK's account data.
  unfoldable pub leave_stale : String → List String → List SdkRoom → Exec S Unit
  unfolding remove_first
  leave_stale user_id user_room_list [] = pass
  leave_stale user_id user_room_list (room ∷ rooms) =
      let listed = contains room.room_id user_room_list in
      let left = (if listed then remove_first room.room_id user_room_list else user_room_list) in
      (do
        (λ s. pass (if listed then api.amend user_id left s else s))
        Manager.leave_room m room.room_id
        leave_stale user_id left rooms)

  unfoldable pub find_direct_chat_rooms : String → String → Exec S (List SdkRoom)
  unfolding rooms_with get_direct_chat_account_data leave_stale is_live is_stale live_or_flagged
  find_direct_chat_rooms user_id membership = do
    rooms ← Manager.list_rooms m
    account_data ← get_direct_chat_account_data m api
    let direct_content = rooms_with user_id (or_else account_data [])
    leave_stale user_id direct_content (keep (is_stale membership direct_content) rooms)
    pure (live_or_flagged membership rooms (keep (is_live membership direct_content) rooms))

  create_if : String → Bool → Exec S String
  unfolding chat_exists create_direct_chat
  create_if user_id false =
      raise (thrown handle_not_found (some "Handle to chat to does not exist"))
  create_if user_id true = do
    exists ← chat_exists user_id
    if exists
        then raise (thrown direct_chat_exists (some "Direct chat already exists"))
        else create_direct_chat m api user_id

  unfoldable pub create : String → Exec S String
  unfolding create_if
  create handle_id_to_chat_to = do
    let user_id_to_chat_to = to_matrix_user_id handle_id_to_chat_to m.home_server
    user_exists ← Manager.user_exists m user_id_to_chat_to
    create_if user_id_to_chat_to user_exists

  join_found : String → Option SdkRoom → Exec S Unit
  unfolding join_direct_chat
  join_found user_id none = raise (thrown room_not_found none)
  join_found user_id (some room) = join_direct_chat m api user_id room.room_id

  unfoldable pub accept_invitation : String → Exec S Unit
  unfolding join_found
  accept_invitation chat_id = do
    user_id ← Manager.get_user_id m
    room ← Manager.get_room m chat_id
    join_found user_id room

  leave_found : Option SdkRoom → Exec S Unit
  leave_found none = raise (thrown room_not_found none)
  leave_found (some room) = Manager.leave_room m room.room_id

  unfoldable pub decline_invitation : String → Exec S Unit
  unfolding leave_found
  decline_invitation chat_id = do room ← Manager.get_room m chat_id; leave_found room

  unfoldable pub list_invitations : Exec S (List DirectChatInvitation)
  unfolding find_direct_chat_rooms to_invitation
  list_invitations = do
    user_id ← Manager.get_user_id m
    rooms ← find_direct_chat_rooms user_id "invite"
    promise_all
        (λ room. to_invitation room (find (λ member. not (member.user_id == user_id)) room.members))
        rooms

  unfoldable pub list_joined : Exec S (List DirectChat)
  unfolding find_direct_chat_rooms to_chat other_member
  list_joined = do
    user_id ← Manager.get_user_id m
    rooms ← find_direct_chat_rooms user_id "join"
    promise_all
        (λ room. do
          members ← Manager.get_members m room.room_id
          to_chat room (other_member user_id members))
        rooms
