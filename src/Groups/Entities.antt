-- ===== src/Groups/Entities.antt =====
-- Roles, permissions and groups (src/private/domain/entities/groups/groupEntity.ts).
use sudo_secure_communicatio.Prelude.{ℕ, String, Option}
use sudo_secure_communicatio.Rooms.Entities.{Handle}

-- GroupRoleEntity
pub data GroupRole : Type 0 where
  admin participant nobody : GroupRole

-- GroupPermissionsEntity
pub record GroupPermissions : Type 0 where
  pub send_messages : GroupRole
  pub invite_handles : GroupRole
  pub kick_handles : GroupRole
  pub ban_handles : GroupRole
  pub change_group_name : GroupRole
  pub change_group_description : GroupRole
  pub change_group_avatar : GroupRole
  pub delete_others_messages : GroupRole

-- GroupPermissionsEntity.default
abbrev pub default_permissions : GroupPermissions
default_permissions = record {
  send_messages = participant;
  invite_handles = participant;
  kick_handles = admin;
  ban_handles = admin;
  change_group_name = participant;
  change_group_description = participant;
  change_group_avatar = participant;
  delete_others_messages = nobody;
}

-- GroupEntity
pub record Group : Type 0 where
  pub group_id : String
  pub name : Option String
  pub description : Option String
  pub avatar_url : Option String
  pub permissions : Option GroupPermissions
  pub member_count : ℕ
  pub inviter : Option Handle
