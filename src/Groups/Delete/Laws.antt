-- ===== src/Groups/Delete/Laws.antt =====
-- Who may delete a group, and whom that kicks.
use sudo_secure_communicatio.Prelude.{
  String, ◌≡◌, ◌⊎◌, inl, inr, Bool, true, false, not, ◌&&◌, some, List, [], ◌∷◌, ◌==◌, eq_iff, any,
  All, find, contains, Option-cases, arith,
}
use sudo_secure_communicatio.Prelude.Int.{◌<ℤ◌}
use sudo_secure_communicatio.Exec.{ok, Result-cases}
use sudo_secure_communicatio.Rooms.Entities.{RoomMember, joined}
use sudo_secure_communicatio.Rooms.Sdk.{MatrixClientManager}
use sudo_secure_communicatio.Rooms.Service
use sudo_secure_communicatio.Groups.Entities.{GroupRole, admin}
use sudo_secure_communicatio.Groups.Roles.{from_power_level_to_entity}
use sudo_secure_communicatio.Groups.Delete.{
  is_joined_or_invited, is_highest_role, others, check_delete, delete_group, with_current,
  with_role,
}

find_sound : {A : Type 0} (p : A → Bool) (xs : List A) (x : A) → find p xs ≡ some x → p x ≡ true
find_sound p [] x h = cc
find_sound p (y ∷ xs) x h = ground (arith, find_sound p xs x)

-- The others of a group are its members but the handle itself, whatever their membership.
contains-others :
    (handle_id other : String) (members : List RoomMember)
    → contains other (others handle_id members)
      ≡ (not (other == handle_id) && any (λ member. member.handle.handle_id == other) members)
unfolding others
contains-others handle_id other [] = ground arith
contains-others handle_id other (member ∷ members) = ground (
  arith,
  contains-others handle_id other members,
  eq_iff member.handle.handle_id handle_id,
  eq_iff member.handle.handle_id other,
  eq_iff other handle_id,
)

-- `member` is no obstacle for `current` to delete the group.
abbrev pub IsBelow : String → RoomMember → RoomMember → Type 0
IsBelow handle_id current member =
    (member.handle.handle_id ≡ handle_id)
    ⊎ (is_joined_or_invited member.membership ≡ false)
    ⊎ (member.power_level <ℤ current.power_level)

highest_sound :
    (handle_id : String) (current : RoomMember) (members : List RoomMember)
    → is_highest_role handle_id current members ≡ true
    → All (IsBelow handle_id current) members
unfolding is_highest_role
highest_sound handle_id current [] h = tt
highest_sound handle_id current (member ∷ members) h = (
  ground (arith, eq_iff member.handle.handle_id handle_id),
  highest_sound handle_id current members (ground arith),
)

-- Who is allowed to delete a group.
pub record MayDelete (handle_id : String) (members : List RoomMember) : Type 0 where
  pub current : RoomMember
  pub is_self : current.handle.handle_id ≡ handle_id
  pub has_joined : current.membership ≡ joined
  pub has_role : from_power_level_to_entity current.power_level ≡ ok admin
  pub is_highest : All (IsBelow handle_id current) members

with_role_sound :
    (handle_id : String) (current : RoomMember) (members : List RoomMember) (role : GroupRole)
    (kicks : List String)
    → with_role handle_id current members role ≡ ok kicks
    → (role ≡ admin)
      × (is_highest_role handle_id current members ≡ true)
      × (kicks ≡ others handle_id members)
unfolding with_role
with_role_sound handle_id current members role kicks h = ground arith

with_current_sound :
    (handle_id : String) (members : List RoomMember) (current : RoomMember) (kicks : List String)
    → current.handle.handle_id ≡ handle_id
    → with_current handle_id members (some current) ≡ ok kicks
    → MayDelete handle_id members × (kicks ≡ others handle_id members)
unfolding with_current
with_current_sound handle_id members current kicks self h =
    elim (Result-cases (from_power_level_to_entity current.power_level)) [
      | inl (role, e) ↦
          let (is_admin_role, highest, same) =
            with_role_sound handle_id current members role kicks (ground arith) in
          (
            record {
              current = current;
              is_self = self;
              has_joined = ground arith;
              has_role = ground arith;
              is_highest = highest_sound handle_id current members highest;
            },
            same,
          )
      | inr (e, failed) ↦ absurd (ground arith)
    ]

check_delete_sound :
    (handle_id : String) (members : List RoomMember) (kicks : List String)
    → check_delete handle_id members ≡ ok kicks
    → MayDelete handle_id members × (kicks ≡ others handle_id members)
unfolding check_delete
check_delete_sound handle_id members kicks h =
    elim (Option-cases (find (λ member. member.handle.handle_id == handle_id) members)) [
      | inl missing ↦ absurd (ground arith)
      | inr (current, found) ↦
          with_current_sound handle_id members current kicks
            ((eq_iff current.handle.handle_id handle_id).0
              (find_sound (λ member. member.handle.handle_id == handle_id) members current found))
            (rw found at h)
    ]

-- A group is deleted without an error only for a handle that is a joined member of it with the role
-- ADMIN, and whose power level is above that of every other member who has joined or is invited;
-- the kicks that are started are those of all other members, and those alone.
pub delete_group-MayDelete :
    {S : Type 0} (m : MatrixClientManager S) (handle_id group_id : String) (s t u : S)
    (members : List RoomMember) (kicks : List String) (other : String)
    → Service.get_members m group_id s ≡ (ok members, t)
    → delete_group m handle_id group_id s ≡ (ok kicks, u)
    → MayDelete handle_id members
      × (contains other kicks
          ≡ (not (other == handle_id) && any (λ member. member.handle.handle_id == other) members))
unfolding delete_group
delete_group-MayDelete m handle_id group_id s t u members kicks other read h =
    elim (Result-cases (check_delete handle_id members)) [
      | inl (list, checked) ↦
          let (may, same) = check_delete_sound handle_id members list checked in
          let e : list ≡ kicks = ground arith in
          (may, rw (← e, same) (contains-others handle_id other members))
      | inr (e, failed) ↦ absurd (ground arith)
    ]
