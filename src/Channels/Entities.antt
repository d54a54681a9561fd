-- ===== src/Channels/Entities.antt =====
-- Roles, permissions and join rules (src/private/domain/entities/channels/channelEntity.ts).
use sudo_secure_communicatio.Prelude.{ℕ, Bool, true, false, Option}

-- ChannelRoleEntity
pub data ChannelRole : Type 0 where
  admin moderator participant react_only_participant : ChannelRole

-- "ranked in descending order"
abbrev pub rank : ChannelRole → ℕ
rank admin = 3
rank moderator = 2
rank participant = 1
rank react_only_participant = 0

-- ChannelJoinRuleEntity
pub data ChannelJoinRule : Type 0 where
  private public public_with_invite : ChannelJoinRule

-- isChannelVisible
unfoldable pub is_channel_visible : ChannelJoinRule → Bool
is_channel_visible private = false
is_channel_visible public = true
is_channel_visible public_with_invite = true

-- ChannelPermissionsEntity
pub record ChannelPermissions : Type 0 where
  pub send_messages : ChannelRole
  pub invite_handles : ChannelRole
  pub kick_handles : ChannelRole
  pub ban_handles : ChannelRole
  pub change_channel_name : ChannelRole
  pub change_channel_description : ChannelRole
  pub change_channel_avatar : ChannelRole
  pub delete_others_messages : ChannelRole

-- ChannelPermissionsEntity.default
abbrev pub default_permissions : ChannelPermissions
default_permissions = record {
  send_messages = participant;
  invite_handles = participant;
  kick_handles = moderator;
  ban_handles = moderator;
  change_channel_name = moderator;
  change_channel_description = moderator;
  change_channel_avatar = moderator;
  delete_others_messages = moderator;
}

-- ChannelPermissionsInputEntity
pub record ChannelPermissionsInput : Type 0 where
  pub send_messages : Option ChannelRole
  pub invite_handles : Option ChannelRole
  pub kick_handles : Option ChannelRole
  pub ban_handles : Option ChannelRole
  pub change_channel_name : Option ChannelRole
  pub change_channel_description : Option ChannelRole
  pub change_channel_avatar : Option ChannelRole
  pub delete_others_messages : Option ChannelRole
