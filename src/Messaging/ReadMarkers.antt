-- ===== src/Messaging/ReadMarkers.antt =====
-- `markAsUnread`, `sendReadReceipt` and `sendTypingNotification` of MatrixClientManager
-- (src/private/data/common/matrixClientManager.ts).
pub mod Laws
use sudo_secure_communicatio.Prelude.{
  ℕ, String, Bool, true, false, not, Option, none, some, or_else, if◌then◌else◌,
}
use sudo_secure_communicatio.Errors.{thrown, plain, room_not_found}
use sudo_secure_communicatio.Exec.{Exec, Result, pure, raise, or_fail, when, ◌>>=◌, ◌>>◌}
use sudo_secure_communicatio.Rooms.Sdk.{SdkRoom, MatrixClientManager}
use sudo_secure_communicatio.Rooms.Manager
use sudo_secure_communicatio.Messaging.Content.{Event, truthy}

-- The room's account data `m.marked_unread`, the `unread` of its content; the last event of its
-- live timeline; and the SDK's requests.
pub record ReadApi (S : Type 0) : Type 0 where
  pub get_marked_unread : String → Exec S (Option Bool)
  pub set_marked_unread : String → Bool → Exec S Unit
  pub latest_event : String → Exec S (Option Event)
  pub set_room_read_markers : String → String → Exec S Unit
  pub send_read_receipt : Event → Exec S Unit
  pub send_typing : String → Bool → ℕ → Exec S Unit

-- `markedUnreadEvent?.getContent()?.unread === true`
abbrev pub is_marked : Option Bool → Bool
is_marked unread = or_else unread false

module _ {S : Type 0} (m : MatrixClientManager S) (api : ReadApi S) where
  room_or_throw : Option SdkRoom → Exec S SdkRoom
  room_or_throw none = raise (thrown room_not_found none)
  room_or_throw (some room) = pure room

  event_or_throw : Option Event → Exec S Event
  event_or_throw none = raise (thrown plain (some "Latest event could not be found"))
  event_or_throw (some event) = pure event

  id_or_throw : Option String → Exec S String
  id_or_throw none = raise (thrown plain (some "Latest event id could not be fetched"))
  id_or_throw (some id) = pure id

  -- `getRoom`, and the throw if there is no room
  unfoldable pub existing_room : String → Exec S SdkRoom
  unfolding Manager.get_room room_or_throw
  existing_room room_id = do room ← Manager.get_room m room_id; room_or_throw room

  -- the `try` block of `markAsUnread`
  unfoldable pub mark : String → Exec S Unit
  unfolding existing_room
  mark room_id = do
    existing_room room_id
    unread ← api.get_marked_unread room_id
    when (not (is_marked unread)) (api.set_marked_unread room_id true)

  unfoldable pub mark_as_unread : String → Exec S Unit
  unfolding mark
  mark_as_unread room_id = or_fail "Failed to mark as unread" (mark room_id)

  -- what the `try` block of `sendReadReceipt` begins with
  unfoldable pub send_receipt : String → Exec S Unit
  unfolding existing_room event_or_throw id_or_throw truthy
  send_receipt room_id = do
    existing_room room_id
    latest ← api.latest_event room_id
    event ← event_or_throw latest
    event_id ← id_or_throw (truthy event.event_id)
    api.set_room_read_markers room_id event_id
    api.send_read_receipt event

  -- the `try` block of `sendReadReceipt`
  unfoldable pub receipt_and_unmark : String → Exec S Unit
  unfolding send_receipt
  receipt_and_unmark room_id = do
    send_receipt room_id
    unread ← api.get_marked_unread room_id
    when (is_marked unread) (api.set_marked_unread room_id false)

  unfoldable pub send_read_receipt : String → Exec S Unit
  unfolding receipt_and_unmark
  send_read_receipt room_id = or_fail "Failed to send read receipt" (receipt_and_unmark room_id)

  unfoldable pub send_typing_notification : String → Bool → Exec S Unit
  send_typing_notification room_id is_typing =
      or_fail "Failed to send typing notification" (api.send_typing room_id is_typing 30000)
