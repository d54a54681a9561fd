-- ===== src/Groups/Delete.antt =====
-- DeleteGroupUseCase (src/private/domain/use-cases/groups/deleteGroupUseCase.ts).
pub mod Laws
use sudo_secure_communicatio.Prelude.{
  String, Bool, true, false, not, ◌&&◌, ◌||◌, Option, none, some, List, [], ◌∷◌, map, ◌==◌, all,
  find, keep, if◌then◌else◌,
}
use sudo_secure_communicatio.Prelude.Int.{ltb_ℤ}
use sudo_secure_communicatio.Errors.{Error, thrown, handle_not_found, permission_denied}
use sudo_secure_communicatio.Exec.{Exec, Result, ok, err, pure, raise, ◌>>=◌, ◌>>◌}
use sudo_secure_communicatio.Rooms.Entities.{
  RoomMember, MembershipState, invited, requested, joined, left, banned,
}
use sudo_secure_communicatio.Rooms.Sdk.{MatrixClientManager}
use sudo_secure_communicatio.Rooms.Service
use sudo_secure_communicatio.Groups.Entities.{GroupRole, admin, participant, nobody}
use sudo_secure_communicatio.Groups.Roles.{from_power_level_to_entity}
use sudo_secure_communicatio.Groups.Create.{lift}

abbrev pub is_joined : MembershipState → Bool
is_joined joined = true
is_joined _ = false

abbrev pub is_joined_or_invited : MembershipState → Bool
is_joined_or_invited joined = true
is_joined_or_invited invited = true
is_joined_or_invited _ = false

abbrev pub is_admin : GroupRole → Bool
is_admin admin = true
is_admin _ = false

-- `isHighestRole`
unfoldable pub is_highest_role : String → RoomMember → List RoomMember → Bool
is_highest_role handle_id current members =
    all
      (λ member.
        member.handle.handle_id == handle_id
        || not (is_joined_or_invited member.membership)
        || ltb_ℤ member.power_level current.power_level)
      members

-- the members who are kicked
unfoldable pub others : String → List RoomMember → List String
others handle_id members =
    map (λ member. member.handle.handle_id)
      (keep (λ (member : RoomMember). not (member.handle.handle_id == handle_id)) members)

not_found : Error
not_found = thrown handle_not_found (some "Handle not found in group")

with_role : String → RoomMember → List RoomMember → GroupRole → Result (List String)
unfolding is_highest_role others
with_role handle_id current members role =
    if not (is_admin role)
    then err (thrown permission_denied (some "Cannot delete group as you are not the admin"))
    else if not (is_highest_role handle_id current members)
    then err (
        thrown permission_denied
          (some "Cannot delete group as you do not have a role higher than all other members"))
    else ok (others handle_id members)

with_current : String → List RoomMember → Option RoomMember → Result (List String)
unfolding with_role from_power_level_to_entity not_found
with_current handle_id members none = err not_found
with_current handle_id members (some current) =
    if not (is_joined current.membership)
    then err not_found
    else elim (from_power_level_to_entity current.power_level) [
      | ok role ↦ with_role handle_id current members role
      | err e ↦ err e
    ]

-- The checks of `deleteGroup`: the handles to kick, or the error that is thrown.
unfoldable pub check_delete : String → List RoomMember → Result (List String)
unfolding with_current
check_delete handle_id members =
    with_current handle_id members (find (λ member. member.handle.handle_id == handle_id) members)

-- `members.forEach(async …)` starts a kick for each of the others and waits for none: the result is
-- the kicks that still run when the use case leaves the group. What they throw is lost.
unfoldable pub delete_group :
    {S : Type 0} → MatrixClientManager S → String → String → Exec S (List String)
unfolding check_delete
delete_group m handle_id group_id = do
  members ← Service.get_members m group_id
  running_kicks ← lift (check_delete handle_id members)
  Service.leave m group_id
  pure running_kicks
