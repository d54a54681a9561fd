-- ===== src/DirectChats/Client.antt =====
-- `createDirectChat`, `joinDirectChat` and `getDirectChatAccountData` of MatrixClientManager
-- (src/private/data/common/matrixClientManager.ts).
pub mod Laws
use sudo_secure_communicatio.Prelude.{
  String, Bool, true, Option, none, some, List, [], ◌∷◌, or_else, if◌then◌else◌,
}
use sudo_secure_communicatio.Prelude.Int.{ℤ, pos}
use sudo_secure_communicatio.Exec.{Exec, pass, pure, or_fail, when, ◌>>=◌, ◌>>◌}
use sudo_secure_communicatio.Rooms.Entities.{PowerLevels, to_room_power_levels, direct_chat}
use sudo_secure_communicatio.Rooms.Sdk.{MatrixClientManager, encryption, custom_type}
use sudo_secure_communicatio.Rooms.Manager
use sudo_secure_communicatio.DirectChats.Lists.{DirectRooms, rooms_with, add_to_list, place}

-- DirectChatRoleEntity
pub data DirectChatRole : Type 0 where
  participant nobody : DirectChatRole

-- DirectChatPowerLevelsTransformer.fromEntityToPowerLevel
abbrev pub from_entity_to_power_level : DirectChatRole → ℤ
from_entity_to_power_level nobody = pos 101
from_entity_to_power_level participant = pos 100

-- DirectChatPermissionsEntity.default
abbrev pub default_delete_others_messages : DirectChatRole
default_delete_others_messages = nobody

-- The SDK's `getAccountData` and `setAccountData` for `m.direct`. The content that it returns is the
-- SDK's own object: `amend` is what an assignment to the array of a user in it does.
pub record DirectApi (S : Type 0) : Type 0 where
  pub get_direct : Exec S (Option DirectRooms)
  pub set_direct : DirectRooms → Exec S Unit
  pub amend : String → List String → S → S

abbrev pub direct_chat_levels : PowerLevels
direct_chat_levels = record {
  users_default = some (from_entity_to_power_level participant);
  events_default = none;
  invite = none;
  kick = none;
  ban = none;
  redact = some (from_entity_to_power_level default_delete_others_messages);
  events = none;
}

module _ {S : Type 0} (m : MatrixClientManager S) (api : DirectApi S) where
  list_new_room : String → String → Option DirectRooms → Exec S String
  unfolding place
  list_new_room user_id room_id direct = do
    when (place user_id room_id (or_else direct [])).1
        (api.set_direct (place user_id room_id (or_else direct [])).0)
    pure room_id

  list_created : String → String → Exec S String
  unfolding list_new_room
  list_created user_id room_id = do direct ← api.get_direct; list_new_room user_id room_id direct

  create_room_with : String → String → Exec S String
  unfolding to_room_power_levels list_created
  create_room_with user_id_to_chat_to user_id = do
    room_id ← m.client.create_room (record {
      name = none;
      topic = none;
      is_direct = true;
      visibility = "private";
      preset = "trusted_private_chat";
      invite = some (user_id_to_chat_to ∷ []);
      power_level_content_override = some (to_room_power_levels direct_chat_levels);
      initial_state = encryption "m.megolm.v1.aes-sha2" ∷ custom_type direct_chat ∷ [];
    })
    list_created user_id room_id

  unfoldable pub create_direct_chat : String → Exec S String
  unfolding create_room_with
  create_direct_chat user_id_to_chat_to =
      or_fail "Failed to create a direct chat room"
        (do user_id ← Manager.get_user_id m; create_room_with user_id_to_chat_to user_id)

  unfoldable pub join_direct_chat : String → String → Exec S Unit
  unfolding add_to_list
  join_direct_chat user_id chat_id = do
    direct ← api.get_direct
    or_fail "Failed to join direct chat room" (do
      m.client.join_room chat_id
      let (rooms, modified) = add_to_list user_id chat_id (or_else direct [])
      when modified (api.set_direct rooms))

  unfoldable pub get_direct_chat_account_data : Exec S (Option DirectRooms)
  get_direct_chat_account_data = api.get_direct
