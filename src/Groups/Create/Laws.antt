-- ===== src/Groups/Create/Laws.antt =====
-- What Groups/Create returns.
use sudo_secure_communicatio.Prelude.{String, ◌≡◌, refl, some, List, arith}
use sudo_secure_communicatio.Exec.{Exec, ok}
use sudo_secure_communicatio.Rooms.Entities.{to_room_power_levels}
use sudo_secure_communicatio.Rooms.Sdk.{MatrixClientManager}
use sudo_secure_communicatio.Groups.Entities.{default_permissions, Group}
use sudo_secure_communicatio.Groups.Roles.{from_room_permissions}
use sudo_secure_communicatio.Groups.Create.{CreateGroupUseCaseInput, initial_power_levels, execute}

initial_permissions :
    from_room_permissions (to_room_power_levels initial_power_levels) ≡ ok default_permissions
unfolding from_room_permissions to_room_power_levels initial_power_levels
initial_permissions = refl

-- A group that is created without an error has the default permissions, one member, and the name
-- and the description of the input.
pub execute-default_permissions :
    {S : Type 0} (check_word_validity : List String → Exec S (List String))
    (get_matrix_client : String → Exec S (MatrixClientManager S)) (input : CreateGroupUseCaseInput)
    (s t : S) (g : Group)
    → execute check_word_validity get_matrix_client input s ≡ (ok g, t)
    → (g.permissions ≡ some default_permissions)
      × (g.member_count ≡ 1)
      × (g.name ≡ input.name)
      × (g.description ≡ input.description)
unfolding execute
execute-default_permissions check get_client input s t g h = ground arith
