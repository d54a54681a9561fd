-- ===== src/Groups/Update.antt =====
-- UpdateGroupUseCase (src/private/domain/use-cases/groups/updateGroupUseCase.ts).
use sudo_secure_communicatio.Prelude.{ℕ, String, Option, none, some, List, ◌++◌}
use sudo_secure_communicatio.Exec.{Exec, pure, ◌>>=◌, ◌>>◌}
use sudo_secure_communicatio.Words.{word_of, validate_words}
use sudo_secure_communicatio.Media.Entities.{MediaCredential}
use sudo_secure_communicatio.Rooms.Sdk.{MatrixClientManager}
use sudo_secure_communicatio.Rooms.Service
use sudo_secure_communicatio.Rooms.Service.{Input, AvatarInput}
use sudo_secure_communicatio.Groups.Entities.{Group}
use sudo_secure_communicatio.Groups.Roles.{from_room_to_entity}
use sudo_secure_communicatio.Groups.Create.{lift}

pub record AvatarFile : Type 0 where
  pub file : List ℕ
  pub file_name : String
  pub file_type : String

-- UpdateGroupUseCaseInput
pub record UpdateGroupUseCaseInput : Type 0 where
  pub handle_id : String
  pub group_id : String
  pub name : Option (Input (Option String))
  pub description : Option (Input (Option String))
  pub avatar : Option (Input (Option AvatarFile))

input_option : {A : Type 0} → Option (Input (Option A)) → Option A
input_option none = none
input_option (some input) = input.value

-- WordValidationService, SessionManager, MediaCredentialManager and the upload of
-- MatrixMediaService are the parameters.
module _ {S : Type 0} (check_word_validity : List String → Exec S (List String))
    (get_matrix_client : String → Exec S (MatrixClientManager S))
    (get_avatar_credential : Exec S MediaCredential)
    (upload_media_file : AvatarInput → Exec S String) where
  -- `avatarInput`: an avatar without a value is left out of the request
  avatar_input : Option AvatarFile → Exec S (Option (Input (Option AvatarInput)))
  avatar_input none = pure none
  avatar_input (some avatar) = do
    credential ← get_avatar_credential
    pure (
        some (record {
          value = some (record {
            file = avatar.file;
            file_name = avatar.file_name;
            file_type = avatar.file_type;
            media_credential = credential;
          });
        }))

  -- the media service of `updateGroup`, which it has for a request with an avatar
  media_service : Option (Input (Option AvatarInput)) → Option (AvatarInput → Exec S String)
  media_service none = none
  media_service (some input) = elim input.value [
    | none ↦ none
    | some avatar ↦ some upload_media_file
  ]

  unfoldable pub execute : UpdateGroupUseCaseInput → Exec S Group
  unfolding validate_words avatar_input media_service input_option from_room_to_entity
  execute input = do
    validate_words check_word_validity
        (word_of (input_option input.name) ++ word_of (input_option input.description))
    avatar ← avatar_input (input_option input.avatar)
    m ← get_matrix_client input.handle_id
    room ← Service.update m (media_service avatar) (record {
      room_id = input.group_id;
      name = input.name;
      description = input.description;
      avatar = avatar;
      power_levels = none;
      is_visible = none;
    })
    lift (from_room_to_entity room)
