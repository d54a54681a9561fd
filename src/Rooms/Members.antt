-- ===== src/Rooms/Members.antt =====
-- What MatrixRoomsService reads of the members of a room
-- (src/private/data/rooms/matrixRoomsService.ts).
pub mod Laws
use sudo_secure_communicatio.Prelude.{
  ℕ, String, Bool, false, not, ◌||◌, Option, none, some, List, map, ◌==◌, or_else, or_option, keep,
  contains, distinct, present, if◌then◌else◌,
}
use sudo_secure_communicatio.Errors.{thrown, secure_comms, room_not_found}
use sudo_secure_communicatio.Exec.{Exec, pure, pass, raise, promise_all, ◌>>=◌, ◌>>◌}
use sudo_secure_communicatio.Ids.{to_matrix_user_id, to_handle_id}
use sudo_secure_communicatio.Media.Entities.{MediaCredential}
use sudo_secure_communicatio.Rooms.Entities.{
  RoomPowerLevels, Room, RoomMember, MembershipState, invited, requested, joined, left, banned,
}
use sudo_secure_communicatio.Rooms.Sdk.{MatrixClientManager, SdkRoom, SdkMember, MemberEvent}
use sudo_secure_communicatio.Rooms.Levels.{user_level}
use sudo_secure_communicatio.Rooms.Manager

-- MembershipStateTransformer.fromMatrixToEntity; the names are those of the SDK's KnownMembership
unfoldable pub from_matrix_to_entity : String → MembershipState
from_matrix_to_entity membership =
    if membership == "ban"
    then banned
    else if membership == "invite"
    then invited
    else if membership == "join"
    then joined
    else if membership == "knock"
    then requested
    else if membership == "leave"
    then left
    else joined

-- `member.membership ? fromMatrixToEntity(member.membership) : JOINED`
unfoldable pub member_state : Option String → MembershipState
unfolding from_matrix_to_entity
member_state none = joined
member_state (some membership) =
    if membership == "" then joined else from_matrix_to_entity membership

-- the members of `getMembers`
unfoldable pub to_member : RoomPowerLevels → MemberEvent → RoomMember
unfolding user_level member_state
to_member levels member = record {
  handle = record {
    handle_id = to_handle_id member.state_key;
    name = or_else member.displayname "";
  };
  membership = member_state member.membership;
  power_level = user_level levels member.state_key;
}

-- the members whom `sendInvitations` does not invite
unfoldable pub is_taken : SdkMember → Bool
is_taken member = elim member.membership [
  | none ↦ false
  | some membership ↦ membership == "join" || membership == "invite" || membership == "ban"
]

-- `toInvite`
unfoldable pub invitees : SdkRoom → List String → List String
unfolding is_taken distinct
invitees room target_handle_ids =
    let already_joined = map (λ member. to_handle_id member.user_id) (keep is_taken room.members) in
    distinct (keep (λ handle_id. not (contains handle_id already_joined)) target_handle_ids)

-- ChannelInvitationRequestEntity
pub record InvitationRequest : Type 0 where
  pub channel_id : String
  pub handle_id : String

unfoldable pub is_knocking : SdkMember → Bool
is_knocking member = elim member.membership [
  | none ↦ false
  | some membership ↦ membership == "knock"
]

-- a member's `roomId` is that of the room
unfoldable pub knock_requests : SdkRoom → List InvitationRequest
unfolding is_knocking
knock_requests room =
    map (λ member. record { channel_id = room.room_id; handle_id = to_handle_id member.user_id })
      (keep is_knocking room.members)

-- `membershipState ? fromMatrixToEntity(membershipState) : undefined`
unfoldable pub known_state : Option String → Option MembershipState
unfolding from_matrix_to_entity
known_state none = none
known_state (some membership) =
    if membership == "" then none else some (from_matrix_to_entity membership)
