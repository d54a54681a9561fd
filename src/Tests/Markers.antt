-- ===== src/Tests/Markers.antt =====
-- The theorems on marks of rooms and on polls that are created, at concrete inputs.
use sudo_secure_communicatio.Prelude.{
  String, ◌≡◌, ◌≢◌, refl, sym, ap, Bool, true, false, Option, none, some, List, [], ◌∷◌, ◌==◌,
  eq_iff, arith, if◌then◌else◌,
}
use sudo_secure_communicatio.Exec.{ok, pass, pure}
use sudo_secure_communicatio.Messaging.Content.{
  EventContent, Event, plain_text, poll, poll_start, truthy,
}
use sudo_secure_communicatio.Messaging.Transformer.{mapped_content}
use sudo_secure_communicatio.Messaging.PollEvents.{start_content}
use sudo_secure_communicatio.Messaging.PollEvents.Laws.{of_poll, create_poll-read}
use sudo_secure_communicatio.Messaging.ReadMarkers.{
  ReadApi, is_marked, existing_room, send_receipt, mark_as_unread, send_read_receipt,
}
use sudo_secure_communicatio.Messaging.ReadMarkers.Laws.{
  StoresMark, SyncedForUnread, SyncedForRead, read_after_unread, read_before_sync,
}
use sudo_secure_communicatio.Rooms.Manager
use sudo_secure_communicatio.Tests.Samples.{World, world, manager, text_event, no_relation_body}

abbrev mark_text : Bool → String
mark_text true = "unread"
mark_text false = "read"

abbrev newest_mark : List String → Option Bool
newest_mark [] = none
newest_mark (sent ∷ earlier) =
    if sent == "unread" then some true else if sent == "read" then some false else none

-- The homeserver's mark of the only room is the last text that has been sent; the SDK's copy of
-- what has been sent is in the place of the ignored users.
abbrev read_api : ReadApi World
read_api = record {
  get_marked_unread = λ room_id w. (ok (newest_mark w.ignored), w);
  set_marked_unread = λ room_id unread w. (ok tt, record w { sent = mark_text unread ∷ w.sent });
  latest_event = λ room_id. pure (some (text_event "a" [] none "first" 10));
  set_room_read_markers = λ room_id event_id. pass;
  send_read_receipt = λ event. pass;
  send_typing = λ room_id is_typing timeout. pass;
}

abbrev server : World → String → Bool
server w room_id = is_marked (newest_mark w.sent)

newest-mark_text :
    (unread : Bool) (sent : List String)
    → is_marked (newest_mark (mark_text unread ∷ sent)) ≡ unread
newest-mark_text true sent = refl
newest-mark_text false sent = refl

read_api-StoresMark : StoresMark read_api server
read_api-StoresMark = record {
  sets = λ room_id unread s t h.
      let moved : t ≡ record s { sent = mark_text unread ∷ s.sent } = ground arith in
      rw moved (newest-mark_text unread s.sent);
  reads_copy = λ room_id unread s t h. ground arith;
}

abbrev unread_world : World
unread_world = record world { sent = "unread" ∷ [] }

abbrev synced_world : World
synced_world = record unread_world { ignored = "unread" ∷ [] }

abbrev read_world : World
read_world = record synced_world { sent = "read" ∷ "unread" ∷ [] }

world-SyncedForUnread : SyncedForUnread manager read_api server "room" world
unfolding existing_room Manager.get_room
world-SyncedForUnread room s1 there =
    let same : s1 ≡ world = sym (ap (λ p. p.1) there) in rw same (none, refl, refl)

synced_world-SyncedForRead : SyncedForRead manager read_api server "room" synced_world
unfolding send_receipt Manager.get_room truthy
synced_world-SyncedForRead s1 sent =
    let same : s1 ≡ synced_world = sym (ap (λ p. p.1) sent) in rw same (some true, refl, refl)

read_after_unread_example : (server unread_world "room" ≡ true) × (server read_world "room" ≡ false)
unfolding mark_as_unread send_read_receipt Manager.get_room truthy
read_after_unread_example =
    read_after_unread manager read_api server read_api-StoresMark "room" world unread_world
      synced_world read_world world-SyncedForUnread refl synced_world-SyncedForRead refl

-- Without a sync in between, the room is still marked after both calls.
read_before_sync_example : server unread_world "room" ≡ true
unfolding mark_as_unread send_read_receipt send_receipt Manager.get_room truthy
read_before_sync_example =
    read_before_sync manager read_api server read_api-StoresMark "room" world unread_world
      unread_world unread_world none world-SyncedForUnread refl refl refl refl refl refl

texts_differ : (s t : String) → (s == t) ≡ false → s ≢ t
texts_differ s t h = ground (arith, eq_iff s t)

abbrev lunch : EventContent
unfolding start_content
lunch = record {
  body = record (no_relation_body "") { msgtype = none; body = none };
  new_content = none;
  membership = none;
  poll_start = some (start_content "open" "Lunch?" ("yes" ∷ "no" ∷ []) 1);
  poll_answers = none;
  mentions = none;
  mentions_room = false;
}

abbrev poll_event : Event
poll_event = record (text_event "a" [] none "" 10) { type = poll_start }

create_poll-read_example :
    mapped_content poll_event (some lunch)
    ≡ ok (
        of_poll "org.matrix.msc3381.poll.start"
          (poll "open" (plain_text "Lunch?") (plain_text "yes" ∷ plain_text "no" ∷ []) 1))
unfolding lunch
create_poll-read_example =
    create_poll-read poll_event lunch "open" "Lunch?" ("yes" ∷ "no" ∷ []) 1 refl refl refl
      (texts_differ "Lunch?" "" refl) (texts_differ "yes" "" refl, (texts_differ "no" "" refl, tt))
      (ground arith)
