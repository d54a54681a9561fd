-- ===== src/Groups/Create.antt =====
-- CreateGroupUseCase (src/private/domain/use-cases/groups/createGroupUseCase.ts) and `create` of
-- MatrixRoomsService (src/private/data/rooms/matrixRoomsService.ts), which only it calls. The `delay`
-- at the end of a use case waits and does nothing else.
pub mod Laws
use sudo_secure_communicatio.Prelude.{
  ℕ, String, Bool, true, false, Option, none, some, List, [], ◌∷◌, ◌++◌, map, Dict,
}
use sudo_secure_communicatio.Exec.{Exec, Result, ok, err, pure, raise, ◌>>=◌, ◌>>◌}
use sudo_secure_communicatio.Ids.{to_matrix_user_id}
use sudo_secure_communicatio.Words.{word_of, validate_words}
use sudo_secure_communicatio.Rooms.Entities.{
  PowerLevels, RoomPowerLevels, to_room_power_levels, Room, group,
}
use sudo_secure_communicatio.Rooms.Sdk.{MatrixClientManager, encryption, custom_type}
use sudo_secure_communicatio.Rooms.Manager
use sudo_secure_communicatio.Groups.Entities.{participant, default_permissions, Group}
use sudo_secure_communicatio.Groups.Roles.{from_entity_to_power_level, from_room_to_entity}

-- a synchronous call that may throw
abbrev pub lift : {S A : Type 0} → Result A → Exec S A
lift r s = (r, s)

-- CreateRoomInput of RoomsService
pub record CreateRoomInput : Type 0 where
  pub name : Option String
  pub description : Option String
  pub avatar_url : Option String
  pub invited_handle_ids : List String
  pub power_levels : Option PowerLevels

room_levels : Option PowerLevels → Option RoomPowerLevels
unfolding to_room_power_levels
room_levels none = none
room_levels (some levels) = some (to_room_power_levels levels)

-- `ids.length > 0 ? ids : undefined`
nonempty : List String → Option (List String)
nonempty [] = none
nonempty (id ∷ ids) = some (id ∷ ids)

module _ {S : Type 0} (m : MatrixClientManager S) where
  -- MatrixRoomsService.create
  unfoldable pub create : CreateRoomInput → Exec S Room
  unfolding room_levels nonempty
  create input = do
    room_id ← Manager.create_room m (record {
      name = input.name;
      topic = input.description;
      is_direct = false;
      visibility = "private";
      preset = "private_chat";
      invite = nonempty (map (λ id. to_matrix_user_id id m.home_server) input.invited_handle_ids);
      power_level_content_override = room_levels input.power_levels;
      initial_state = encryption "m.megolm.v1.aes-sha2" ∷ custom_type group ∷ [];
    })
    pure (record {
      room_id = room_id;
      type = none;
      name = input.name;
      description = input.description;
      tags = none;
      avatar_url = input.avatar_url;
      power_levels = room_levels input.power_levels;
      member_count = 1;
      inviter = none;
    })

-- the power levels that every group is created with
unfoldable pub initial_power_levels : PowerLevels
unfolding from_entity_to_power_level
initial_power_levels =
    let level = from_entity_to_power_level in
    let d = default_permissions in
    record {
      users_default = some (level participant);
      events_default = some (level d.send_messages);
      invite = some (level d.invite_handles);
      kick = some (level d.kick_handles);
      ban = some (level d.ban_handles);
      redact = some (level d.delete_others_messages);
      events = some (
          ("m.room.name", level d.change_group_name)
          ∷ ("m.room.topic", level d.change_group_description)
          ∷ ("m.room.avatar", level d.change_group_avatar)
          ∷ []);
    }

-- CreateGroupUseCaseInput
pub record CreateGroupUseCaseInput : Type 0 where
  pub handle_id : String
  pub name : Option String
  pub description : Option String
  pub invited_handle_ids : List String

-- WordValidationService and SessionManager are the parameters.
module _ {S : Type 0} (check_word_validity : List String → Exec S (List String))
    (get_matrix_client : String → Exec S (MatrixClientManager S)) where
  unfoldable pub execute : CreateGroupUseCaseInput → Exec S Group
  unfolding validate_words create initial_power_levels from_room_to_entity
  execute input = do
    validate_words check_word_validity (word_of input.name ++ word_of input.description)
    m ← get_matrix_client input.handle_id
    room ← create m (record {
      name = input.name;
      description = input.description;
      avatar_url = none;
      invited_handle_ids = input.invited_handle_ids;
      power_levels = some initial_power_levels;
    })
    lift (from_room_to_entity room)
