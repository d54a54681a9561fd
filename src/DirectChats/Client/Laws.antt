-- ===== src/DirectChats/Client/Laws.antt =====
-- Where the account data lists a direct chat that has been created.
use mathlib.Core.Path.{subst, sym}
use sudo_secure_communicatio.Prelude.{
  String, ◌≡◌, ◌≢◌, true, false, Option, some, [], or_else, contains, inl, inr, Bool-cases, eq_iff,
  eq_refl, arith,
}
use sudo_secure_communicatio.Exec.{Result-cases, ok, ◌>>=◌}
use sudo_secure_communicatio.Exec.Laws.{bind-eq-ok, or_fail-eq-ok}
use sudo_secure_communicatio.Rooms.Sdk.{MatrixClientManager}
use sudo_secure_communicatio.Rooms.Manager
use sudo_secure_communicatio.DirectChats.Lists.{DirectRooms, rooms_with, place}
use sudo_secure_communicatio.DirectChats.Lists.Laws.{contains-place}
use sudo_secure_communicatio.DirectChats.Client.{
  DirectApi, create_direct_chat, create_room_with, list_created, list_new_room,
}

-- The SDK returns the account data that was set last, and the same when it is read again.
pub record KeepsDirect {S : Type 0} (api : DirectApi S) : Type 0 where
  pub set_get :
      (rooms : DirectRooms) (s t : S)
      → api.set_direct rooms s ≡ (ok tt, t)
      → (api.get_direct t).0 ≡ ok (some rooms)
  pub get_get :
      (rooms : Option DirectRooms) (s t : S)
      → api.get_direct s ≡ (ok rooms, t)
      → (api.get_direct t).0 ≡ ok rooms

-- The room stands in the list of one user and of no other.
pub record ListedFor (user room : String) (direct : DirectRooms) : Type 0 where
  pub own : contains room (rooms_with user direct) ≡ true
  pub others : (other : String) → other ≢ user → contains room (rooms_with other direct) ≡ false

place-ListedFor :
    (user room : String) (direct : DirectRooms)
    → user ≢ ""
    → ListedFor user room (place user room direct).0
place-ListedFor user room direct named = record {
  own =
      ground
        (arith, (contains-place user room user room direct named).0, eq_refl user, eq_refl room);
  others = λ other differs. ground (
    arith,
    (contains-place user room other room direct named).0,
    eq_refl room,
    eq_iff other user,
  );
}

module _ {S : Type 0} (m : MatrixClientManager S) (api : DirectApi S)
    (keeps : KeepsDirect api) where
  set_if_modified :
      (user room made : String) (old : Option DirectRooms) (s t u : S)
      → user ≢ ""
      → api.get_direct s ≡ (ok old, t)
      → list_new_room m api user room old t ≡ (ok made, u)
      → (new : Option DirectRooms) × ((api.get_direct u).0 ≡ ok new)
        × ListedFor user room (or_else new [])
        × (made ≡ room)
  unfolding list_new_room
  set_if_modified user room made old s t u named got sent =
      elim (Bool-cases (place user room (or_else old [])).1) [
        | inl modified ↦ (
          some (place user room (or_else old [])).0,
          keeps.set_get (place user room (or_else old [])).0 t u (
              ground
                (arith, Result-cases (api.set_direct (place user room (or_else old [])).0 t).0)),
          place-ListedFor user room (or_else old []) named,
          ground arith,
        )
        | inr unmodified ↦ (
          old,
          subst (λ w. (api.get_direct w).0 ≡ ok old) (ground arith) (keeps.get_get old s t got),
          subst (ListedFor user room)
              ((contains-place user room user room (or_else old []) named).1 unmodified)
              (place-ListedFor user room (or_else old []) named),
          ground arith,
        )
      ]

  -- If `createDirectChat` returns, and the SDK returns the account data that was set last, then
  -- the account data has the new room in the list of the user who created the chat and in no
  -- other user's list.
  pub create_direct_chat-ListedFor :
      (user_id_to_chat_to room : String) (s t : S)
      → create_direct_chat m api user_id_to_chat_to s ≡ (ok room, t)
      → (user : String) × (before : S) × (Manager.get_user_id m s ≡ (ok user, before))
        × (direct : Option DirectRooms) × ((api.get_direct t).0 ≡ ok direct)
        × ListedFor user room (or_else direct [])
  unfolding create_direct_chat create_room_with list_created
  create_direct_chat-ListedFor other room s t returned =
      let (user, s1, found, e1) =
        bind-eq-ok (Manager.get_user_id m) (create_room_with m api other) s t room (
          or_fail-eq-ok "Failed to create a direct chat room"
            (Manager.get_user_id m >>= create_room_with m api other) s t room returned) in
      let (id, s2, created, e2) =
        bind-eq-ok (m.client.create_room _) (list_created m api user) s1 t room e1 in
      let (old, s3, got, e3) =
        bind-eq-ok api.get_direct (list_new_room m api user id) s2 t room e2 in
      let (new, kept, listed, same) =
        set_if_modified user id room old s2 s3 t (Manager.get_user_id-named m user s s1 found) got
          e3 in
      (user, s1, found, new, kept, subst (λ r. ListedFor user r (or_else new [])) (sym same) listed)
