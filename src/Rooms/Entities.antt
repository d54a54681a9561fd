-- ===== src/Rooms/Entities.antt =====
-- Power levels, rooms and members. Power levels are integers, as the Matrix specification has
-- them. A field that may be `undefined` or `null` is an `Option`.
use sudo_secure_communicatio.Prelude.{ℕ, String, Option, none, List, Dict}
use sudo_secure_communicatio.Prelude.Int.{ℤ}

-- PowerLevelsEntity
pub record PowerLevels : Type 0 where
  pub users_default : Option ℤ
  pub events_default : Option ℤ
  pub invite : Option ℤ
  pub kick : Option ℤ
  pub ban : Option ℤ
  pub redact : Option ℤ
  pub events : Option (Dict ℤ)

-- RoomPowerLevelsEntity
pub record RoomPowerLevels : Type 0 where
  pub ban : Option ℤ
  pub events : Option (Dict ℤ)
  pub events_default : Option ℤ
  pub invite : Option ℤ
  pub kick : Option ℤ
  pub notifications : Option (Dict ℤ)
  pub redact : Option ℤ
  pub state_default : Option ℤ
  pub users : Option (Dict ℤ)
  pub users_default : Option ℤ

-- RoomPowerLevelsTransformer.fromEntityPowerLevelToRoomPowerLevel
unfoldable pub to_room_power_levels : PowerLevels → RoomPowerLevels
to_room_power_levels p = record {
  ban = p.ban;
  events = p.events;
  events_default = p.events_default;
  invite = p.invite;
  kick = p.kick;
  notifications = none;
  redact = p.redact;
  state_default = none;
  users = none;
  users_default = p.users_default;
}

-- CustomRoomType
pub data CustomRoomType : Type 0 where
  direct_chat group private_channel public_channel public_invite_only_channel : CustomRoomType

pub record Handle : Type 0 where
  pub handle_id : String
  pub name : String

-- RoomEntity
pub record Room : Type 0 where
  pub room_id : String
  pub type : Option CustomRoomType
  pub name : Option String
  pub description : Option String
  pub tags : Option (List String)
  pub avatar_url : Option String
  pub power_levels : Option RoomPowerLevels
  pub member_count : ℕ
  pub inviter : Option Handle

-- MembershipStateEntity
pub data MembershipState : Type 0 where
  invited requested joined left banned : MembershipState

-- RoomMemberEntity
pub record RoomMember : Type 0 where
  pub handle : Handle
  pub membership : MembershipState
  pub power_level : ℤ
