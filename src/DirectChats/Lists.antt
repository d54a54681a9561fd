-- ===== src/DirectChats/Lists.antt =====
-- The content of the account data `m.direct`: for each user, the rooms that are direct chats with
-- that user; and how `createDirectChat` and `joinDirectChat` of MatrixClientManager
-- (src/private/data/common/matrixClientManager.ts) change it.
pub mod Laws
use sudo_secure_communicatio.Prelude.{
  String, Bool, true, false, ◌||◌, Option, none, some, List, [], ◌∷◌, ◌++◌, ◌==◌, nat_eq, length,
  contains, without, or_else, Dict, lookup, insert, if◌then◌else◌,
}

abbrev pub DirectRooms : Type 0
DirectRooms = Dict (List String)

-- `roomMap.get(user) ?? []`
unfoldable pub rooms_with : String → DirectRooms → List String
unfolding lookup
rooms_with user direct = or_else (lookup user direct) []

-- The loop that removes the room from the lists of the other users, and whether it changed one.
unfoldable pub drop_from_others : String → String → DirectRooms → DirectRooms × Bool
drop_from_others user room [] = ([], false)
drop_from_others user room ((other, rooms) ∷ direct) =
    let (rest, modified) = drop_from_others user room direct in
    if other == user
    then ((other, rooms) ∷ rest, modified)
    else if nat_eq (length (without room rooms)) (length rooms)
    then ((other, rooms) ∷ rest, modified)
    else ((other, without room rooms) ∷ rest, true)

-- Adding the room to the list of a user, if it is not there.
unfoldable pub add_to_list : String → String → DirectRooms → DirectRooms × Bool
unfolding rooms_with insert
add_to_list user room direct =
    if contains room (rooms_with user direct)
    then (direct, false)
    else (insert user (rooms_with user direct ++ (room ∷ [])) direct, true)

-- What createDirectChat makes of the content, and `modified`.
unfoldable pub place : String → String → DirectRooms → DirectRooms × Bool
unfolding drop_from_others add_to_list
place user room direct =
    let (others, dropped) = drop_from_others user room direct in
    if user == ""
    then (others, dropped)
    else (let (all, added) = add_to_list user room others in (all, dropped || added))
