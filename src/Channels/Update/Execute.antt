-- ===== src/Channels/Update/Execute.antt =====
-- `execute` of UpdateChannelUseCase (src/private/domain/use-cases/channels/updateChannelUseCase.ts).
use sudo_secure_communicatio.Prelude.{
  ℕ, String, Bool, ◌||◌, Option, none, some, List, [], ◌++◌, or_else, is_some,
}
use sudo_secure_communicatio.Exec.{Exec, pure, when, ◌>>=◌, ◌>>◌}
use sudo_secure_communicatio.Words.{word_of, validate_words}
use sudo_secure_communicatio.Media.Entities.{MediaCredential}
use sudo_secure_communicatio.Rooms.Sdk.{MatrixClientManager}
use sudo_secure_communicatio.Rooms.Service
use sudo_secure_communicatio.Rooms.Service.{Input, AvatarInput}
use sudo_secure_communicatio.Channels.Entities.{
  ChannelRole, ChannelJoinRule, private, is_channel_visible, ChannelPermissionsInput,
}
use sudo_secure_communicatio.Channels.Update.Levels.{update_room_power_levels}

pub record AvatarFile : Type 0 where
  pub file : List ℕ
  pub file_name : String
  pub file_type : String

-- UpdateChannelUseCaseInput
pub record UpdateChannelUseCaseInput : Type 0 where
  pub handle_id : String
  pub channel_id : String
  pub name : Option (Input (Option String))
  pub description : Option (Input (Option String))
  pub avatar : Option (Input (Option AvatarFile))
  pub join_rule : Option (Input ChannelJoinRule)
  pub tags : Option (Input (List String))
  pub permissions : Option (Input (Option ChannelPermissionsInput))
  pub default_member_role : Option (Input ChannelRole)

-- UpdateChannelInput of ChannelsService; `avatar_image_metadata` is its `mimeType`
pub record UpdateChannelInput : Type 0 where
  pub self_handle_id : String
  pub channel_id : String
  pub name : Option (Input (Option String))
  pub description : Option (Input (Option String))
  pub tags : Option (Input (List String))
  pub join_rule : Option (Input ChannelJoinRule)
  pub avatar_url : Option (Input (Option String))
  pub avatar_image_metadata : Option (Input (Option String))

-- The interfaces that the use case is given: WordValidationService, ChannelsService (`Channel` is
-- its ChannelEntity, of which only the join rule is read), MediaCredentialManager, SessionManager,
-- and the upload of MatrixMediaService.
pub record Services (S Channel : Type 0) : Type 0 where
  pub check_word_validity : List String → Exec S (List String)
  pub get_channel : String → Exec S (Option Channel)
  pub join_rule : Channel → Option ChannelJoinRule
  pub update_channel : UpdateChannelInput → Exec S Channel
  pub get_avatar_credential : Exec S MediaCredential
  pub get_matrix_client : String → Exec S (MatrixClientManager S)
  pub upload_media_file : AvatarInput → Exec S String

input_value : {A : Type 0} → Option (Input A) → Option A
input_value none = none
input_value (some input) = some input.value

input_option : {A : Type 0} → Option (Input (Option A)) → Option A
input_option none = none
input_option (some input) = input.value

module _ {S Channel : Type 0} (services : Services S Channel) where
  join_rule_of : Option Channel → Option ChannelJoinRule
  join_rule_of none = none
  join_rule_of (some channel) = services.join_rule channel

  -- `input.joinRule?.value ?? (await channelsService.get(channelId))?.joinRule ?? PRIVATE`
  current_join_rule : String → Option (Input ChannelJoinRule) → Exec S ChannelJoinRule
  unfolding join_rule_of
  current_join_rule channel_id (some input) = pure input.value
  current_join_rule channel_id none = do
    channel ← services.get_channel channel_id
    pure (or_else (join_rule_of channel) private)

  upload_avatar : String → String → AvatarFile → Bool → Exec S (Option String)
  upload_avatar handle_id channel_id avatar is_visible = do
    m ← services.get_matrix_client handle_id
    credential ← services.get_avatar_credential
    room ← Service.update m (some services.upload_media_file) (record {
      room_id = channel_id;
      name = none;
      description = none;
      avatar = some (record {
        value = some (record {
          file = avatar.file;
          file_name = avatar.file_name;
          file_type = avatar.file_type;
          media_credential = credential;
        });
      });
      power_levels = none;
      is_visible = some (record { value = is_visible });
    })
    pure room.avatar_url

  -- `avatarUrl` and `avatarImageMetadata`, where the input has an avatar
  avatar_of :
      UpdateChannelUseCaseInput
      → Option AvatarFile
      → Exec S (Option (Input (Option String)) × Option (Input (Option String)))
  avatar_of input none = pure (some (record { value = none }), some (record { value = none }))
  avatar_of input (some file) = do
    join_rule ← current_join_rule input.channel_id input.join_rule
    url ← upload_avatar input.handle_id input.channel_id file (is_channel_visible join_rule)
    pure (some (record { value = url }), some (record { value = some file.file_type }))

  update_avatar :
      UpdateChannelUseCaseInput
      → Option (Input (Option AvatarFile))
      → Exec S (Option (Input (Option String)) × Option (Input (Option String)))
  unfolding avatar_of current_join_rule upload_avatar
  update_avatar input none = pure (none, none)
  update_avatar input (some avatar) = avatar_of input avatar.value

  unfoldable pub words_of : UpdateChannelUseCaseInput → List String
  unfolding input_value input_option
  words_of input = or_else (input_value input.tags) [] ++ word_of (input_option input.name)

  unfoldable pub execute : UpdateChannelUseCaseInput → Exec S Channel
  unfolding validate_words words_of update_avatar input_value input_option
  execute input = do
    validate_words services.check_word_validity (words_of input)
    avatar ← update_avatar input input.avatar
    result ← services.update_channel (record {
      self_handle_id = input.handle_id;
      channel_id = input.channel_id;
      name = input.name;
      description = input.description;
      tags = input.tags;
      join_rule = input.join_rule;
      avatar_url = avatar.0;
      avatar_image_metadata = avatar.1;
    })
    when (is_some input.default_member_role || is_some input.permissions) (do
      m ← services.get_matrix_client input.handle_id
      update_room_power_levels m input.channel_id (input_option input.permissions)
          (input_value input.default_member_role))
    pure result
