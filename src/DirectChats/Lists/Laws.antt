-- ===== src/DirectChats/Lists/Laws.antt =====
-- Which rooms the lists of direct chats hold after a chat has been created or joined.
use sudo_secure_communicatio.Prelude.{
  ◌≤◌, String, ◌≡◌, ◌≢◌, refl, false, ◌||◌, ◌&&◌, List, [], ◌∷◌, ◌++◌, ◌==◌, length, contains,
  contains-append, contains-without, without, lookup, lookup-insert, eq_iff, if◌then◌else◌, arith,
}
use sudo_secure_communicatio.DirectChats.Lists.{
  DirectRooms, rooms_with, drop_from_others, add_to_list, place,
}

length-without : (s : String) (xs : List String) → length (without s xs) ≤ length xs
length-without s [] = omega arith
length-without s (x ∷ xs) = ground (arith, length-without s xs)

-- Removing a text leaves the list alone if the length stays.
without-same :
    (s : String) (xs : List String) → length (without s xs) ≡ length xs → without s xs ≡ xs
without-same s [] h = refl
without-same s (x ∷ xs) h = ground (arith, length-without s xs, without-same s xs)

-- The loop's tests save work only: it removes the room from each other user's list.
rooms_with-drop_from_others :
    (user room other : String) (direct : DirectRooms)
    → rooms_with other (drop_from_others user room direct).0
      ≡ (if other == user then rooms_with other direct else without room (rooms_with other direct))
unfolding rooms_with lookup drop_from_others
rooms_with-drop_from_others user room other [] = ground arith
rooms_with-drop_from_others user room other ((key, rooms) ∷ direct) = ground (
  arith,
  rooms_with-drop_from_others user room other direct,
  eq_iff key user,
  eq_iff key other,
  eq_iff other user,
  without-same room rooms,
)

drop_from_others-unmodified :
    (user room : String) (direct : DirectRooms)
    → (drop_from_others user room direct).1 ≡ false
    → (drop_from_others user room direct).0 ≡ direct
unfolding drop_from_others
drop_from_others-unmodified user room [] h = refl
drop_from_others-unmodified user room ((key, rooms) ∷ direct) h =
    ground (arith, drop_from_others-unmodified user room direct)

contains-add_to_list :
    (user room other x : String) (direct : DirectRooms)
    → contains x (rooms_with other (add_to_list user room direct).0)
      ≡ (contains x (rooms_with other direct) || ((other == user) && (x == room)))
unfolding add_to_list rooms_with
contains-add_to_list user room other x direct = ground (
  arith,
  lookup-insert user other (rooms_with user direct ++ (room ∷ [])) direct,
  contains-append x (rooms_with user direct) (room ∷ []),
  eq_iff user other,
  eq_iff other user,
  eq_iff x room,
  eq_iff room x,
)

-- After a user has created a direct chat, the room stands in the user's own list and in nobody
-- else's, and of every other room, each list holds just those that it held; if the content is not
-- sent because nothing was modified, then it is the old one.
pub contains-place :
    (user room other x : String) (direct : DirectRooms)
    → user ≢ ""
    → (contains x (rooms_with other (place user room direct).0)
        ≡ (if x == room then other == user else contains x (rooms_with other direct)))
      × ((place user room direct).1 ≡ false → (place user room direct).0 ≡ direct)
unfolding place add_to_list
contains-place user room other x direct named = (
  ground (
    arith,
    eq_iff user "",
    rooms_with-drop_from_others user room other direct,
    contains-without x room (rooms_with other direct),
    contains-add_to_list user room other x (drop_from_others user room direct).0,
    eq_iff x room,
    eq_iff room x,
  ),
  (λ unmodified.
      ground (arith, unmodified, eq_iff user "", drop_from_others-unmodified user room direct)),
)
