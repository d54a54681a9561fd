-- ===== src/Tests/Rooms.antt =====
-- The theorems on rooms, blocking, groups, channels and media credentials at concrete inputs.
use sudo_secure_communicatio.Prelude.{
  String, ◌≡◌, ◌≢◌, refl, false, none, [], ◌∷◌, ◌==◌, eq_iff, arith,
}
use sudo_secure_communicatio.Prelude.Int.{pos}
use sudo_secure_communicatio.Exec.{ok, err}
use sudo_secure_communicatio.Ids.{to_matrix_user_id}
use sudo_secure_communicatio.Media.Entities.{RoomMediaCredential}
use sudo_secure_communicatio.Media.Credentials.{Config}
use sudo_secure_communicatio.Media.Credentials.Laws
use sudo_secure_communicatio.Media.Credentials.Laws.{Call, ask_all, cache_never_hits}
use sudo_secure_communicatio.Rooms.Levels.{current_level}
use sudo_secure_communicatio.Rooms.Manager
use sudo_secure_communicatio.Rooms.Authority.{
  denied, update_room_member_power_level, kick_handle, ban_handle, unban_handle,
}
use sudo_secure_communicatio.Rooms.Authority.Laws.{denied_of_le}
use sudo_secure_communicatio.Blocking.{block_handle, list_blocked_handles}
use sudo_secure_communicatio.Blocking.Laws.{StoresIgnored, block_handle-replaces}
use sudo_secure_communicatio.Tests.Samples.{World, world, room, sdk, manager}

texts_differ : (s t : String) → (s == t) ≡ false → s ≢ t
texts_differ s t h = ground (arith, eq_iff s t)

denied_of_le_example :
    (update_room_member_power_level manager "room" "cid" (pos 0) world
      ≡ (err (denied "You are not permitted to update this members role"), world))
    × (kick_handle manager "room" "cid" none world
        ≡ (err (denied "You are not permitted to kick"), world))
    × (ban_handle manager "room" "cid" none world
        ≡ (err (denied "You are not permitted to ban"), world))
    × (unban_handle manager "room" "cid" world
        ≡ (err (denied "You are not permitted to unban"), world))
unfolding Manager.get_user_id Manager.get_room to_matrix_user_id current_level
denied_of_le_example =
    denied_of_le manager world world world "@ann:hs" "room" "cid" room refl refl (pos 0) none
      (texts_differ "@ann:hs" "@cid:hs" refl) (ground arith)

sdk-StoresIgnored : StoresIgnored sdk
sdk-StoresIgnored = record {
  read_back = λ users s t h. ground arith;
  is_ignored = λ users user s h. ground arith;
}

block_handle-replaces_example :
    list_blocked_handles manager (record world { ignored = to_matrix_user_id "bob" "hs" ∷ [] }) ≡ (
      ok (to_matrix_user_id "bob" "hs" ∷ []),
      record world { ignored = to_matrix_user_id "bob" "hs" ∷ [] },
    )
unfolding block_handle Manager.user_exists Manager.ignore_handle
block_handle-replaces_example =
    block_handle-replaces manager sdk-StoresIgnored "bob" world
      (record world { ignored = to_matrix_user_id "bob" "hs" ∷ [] }) refl

abbrev credential : RoomMediaCredential
credential = record {
  credential = record { access_key_id = "a"; secret_access_key = "b"; session_token = "c" };
  key_prefix = "room";
  expiry = 900000;
}

-- The service counts its requests by a list.
abbrev config : Config World
config = record {
  room_media_bucket = "bucket";
  region = "region";
  get_credential =
      λ handle_id for_write room_id w. (ok credential, record w { sent = handle_id ∷ w.sent });
}

abbrev call : Call
call = record { now = 0; handle_id = "ann"; for_write = false; room_id = "room" }

cache_never_hits_example :
    (Laws.run config (call ∷ call ∷ []) (record { cache = []; next = 0; service = world })).service
    ≡ ask_all config (call ∷ call ∷ []) world
cache_never_hits_example = cache_never_hits config (call ∷ call ∷ []) 0 world
