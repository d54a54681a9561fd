-- ===== src/Blocking/Laws.antt =====
-- The list of blocked handles after block_handle of Blocking.
use sudo_secure_communicatio.Prelude.{String, ◌≡◌, List, [], ◌∷◌, contains, arith}
use sudo_secure_communicatio.Exec.{ok}
use sudo_secure_communicatio.Ids.{to_matrix_user_id}
use sudo_secure_communicatio.Rooms.Sdk.{Sdk, MatrixClientManager}
use sudo_secure_communicatio.Rooms.Manager
use sudo_secure_communicatio.Blocking.{block_handle, list_blocked_handles}

-- matrix-js-sdk documents `setIgnoredUsers` as setting the users that the user ignores, and
-- `getIgnoredUsers` and `isUserIgnored` as reading them.
pub record StoresIgnored {S : Type 0} (sdk : Sdk S) : Type 0 where
  pub read_back :
      (users : List String) (s t : S)
      → sdk.set_ignored_users users s ≡ (ok tt, t)
      → sdk.get_ignored_users t ≡ (ok users, t)
  pub is_ignored :
      (users : List String) (user : String) (s : S)
      → sdk.get_ignored_users s ≡ (ok users, s)
      → sdk.is_user_ignored user s ≡ (ok (contains user users), s)

module _ {S : Type 0} (m : MatrixClientManager S) (stores : StoresIgnored m.client)
    (handle_id : String) (s u : S) where
  abbrev user_id : String
  user_id = to_matrix_user_id handle_id m.home_server

  ignore_handle-sets :
      (t : S)
      → Manager.ignore_handle m user_id t ≡ (ok tt, u)
      → m.client.set_ignored_users (user_id ∷ []) t ≡ (ok tt, u)
  unfolding Manager.ignore_handle
  ignore_handle-sets t h = ground arith

  block_handle-ignores :
      block_handle m handle_id s ≡ (ok tt, u)
      → (t : S) × (Manager.ignore_handle m user_id t ≡ (ok tt, u))
  unfolding block_handle
  block_handle-ignores h = ((Manager.user_exists m user_id s).1, ground arith)

  -- After a handle has been blocked without an error it is the one blocked handle: whoever was
  -- blocked before is not blocked any more.
  pub block_handle-replaces :
      block_handle m handle_id s ≡ (ok tt, u) → list_blocked_handles m u ≡ (ok (user_id ∷ []), u)
  unfolding list_blocked_handles Manager.list_ignored_handles
  block_handle-replaces h =
      let (t, ignored) = block_handle-ignores h in
      ground (arith, stores.read_back (user_id ∷ []) t u (ignore_handle-sets t ignored))
