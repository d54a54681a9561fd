-- ===== src/Ids.antt =====
-- The conversions between handle ids and Matrix user ids (src/private/util/id.ts).
pub mod Laws
use Prim.Native.Char.{Char, code}
use Prim.Native.String.{◌++◌}
use sudo_secure_communicatio.Prelude.{ℕ, String, Option, none, some, nat_eq, if◌then◌else◌}

-- `s.split(c)[0]`
unfoldable pub until : ℕ → String → String
until c String.[] = ""
until c (String.◌∷◌ d s) = if nat_eq (code d) c then "" else String.◌∷◌ d (until c s)

-- `s.split(c)` without its first part, joined again, if it has more than one part
unfoldable pub after : ℕ → String → Option String
after c String.[] = none
after c (String.◌∷◌ d s) = if nat_eq (code d) c then some s else after c s

unfoldable pub to_matrix_user_id : String → String → String
to_matrix_user_id id home_server = "@" ++ id ++ ":" ++ home_server

-- `s.split('@')[1]?.split(':')[0] || ''`; the second part ends at a second `@`
name_part : Option String → String
name_part none = ""
name_part (some rest) = until b':' (until b'@' rest)

unfoldable pub to_handle_id : String → String
unfolding until after name_part
to_handle_id id = name_part (after b'@' id)
