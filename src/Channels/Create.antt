-- ===== src/Channels/Create.antt =====
-- CreateChannelUseCase (src/private/domain/use-cases/channels/createChannelUseCase.ts).
use sudo_secure_communicatio.Prelude.{String, Option, none, List, ◌++◌}
use sudo_secure_communicatio.Exec.{Exec, ◌>>◌}
use sudo_secure_communicatio.Words.{word_of, validate_words}
use sudo_secure_communicatio.Rooms.Entities.{PowerLevels}
use sudo_secure_communicatio.Channels.Entities.{
  ChannelRole, ChannelJoinRule, ChannelPermissionsInput,
}
use sudo_secure_communicatio.Channels.PowerLevels.{to_initial_power_levels}

-- CreateChannelUseCaseInput
pub record CreateChannelUseCaseInput : Type 0 where
  pub handle_id : String
  pub name : Option String
  pub description : Option String
  pub join_rule : ChannelJoinRule
  pub tags : List String
  pub invited_handle_ids : List String
  pub permissions : ChannelPermissionsInput
  pub default_member_role : ChannelRole

-- CreateChannelInput of ChannelsService
pub record CreateChannelInput : Type 0 where
  pub self_handle_id : String
  pub name : Option String
  pub description : Option String
  pub join_rule : ChannelJoinRule
  pub tags : List String
  pub invited_handle_ids : List String
  pub power_levels : PowerLevels
  pub avatar_url : Option String
  pub avatar_image_metadata : Option String

-- `check_word_validity` is WordValidationService's, `create` is ChannelsService's.
module _ {S Channel : Type 0} (check_word_validity : List String → Exec S (List String))
    (create : CreateChannelInput → Exec S Channel) where
  unfoldable pub execute : CreateChannelUseCaseInput → Exec S Channel
  unfolding validate_words to_initial_power_levels
  execute input = do
    validate_words check_word_validity (input.tags ++ word_of input.name)
    create (record {
      self_handle_id = input.handle_id;
      name = input.name;
      description = input.description;
      join_rule = input.join_rule;
      tags = input.tags;
      invited_handle_ids = input.invited_handle_ids;
      power_levels = to_initial_power_levels input.permissions input.default_member_role;
      avatar_url = none;
      avatar_image_metadata = none;
    })
