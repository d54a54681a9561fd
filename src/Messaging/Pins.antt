-- ===== src/Messaging/Pins.antt =====
-- `pinUnpinMessage` of MatrixClientManager (src/private/data/common/matrixClientManager.ts).
pub mod Laws
use sudo_secure_communicatio.Prelude.{
  String, Option, none, some, List, [], ◌∷◌, ◌++◌, ◌==◌, not, contains, distinct, without, length,
  nat_eq, or_else, if◌then◌else◌,
}
use sudo_secure_communicatio.Errors.{Error, thrown, matrix_error, plain}
use sudo_secure_communicatio.Exec.{Exec, pure, raise, catch, or_fail, when, ◌>>=◌}

-- The SDK's `getStateEvent` and `sendStateEvent` for the event `m.room.pinned_events` of a room:
-- the `pinned` of its content.
pub record PinApi (S : Type 0) : Type 0 where
  pub get_pinned_event : String → Exec S (Option (List String))
  pub send_pinned_event : String → List String → Exec S Unit

-- the `catch` of `getStateEvent`
unfoldable pub absent_event : {S : Type 0} → Error → Exec S (Option (List String))
absent_event (thrown c m) = raise (thrown plain (some "Failed to retrieve state event"))
absent_event (matrix_error code) =
    if code == "M_NOT_FOUND"
    then pure none
    else raise (thrown plain (some "Failed to retrieve state event"))

-- `updatedPinnedEventIds`
unfoldable pub toggle : String → List String → List String
unfolding distinct
toggle event_id pinned =
    if contains event_id (distinct pinned)
    then without event_id (distinct pinned)
    else distinct pinned ++ event_id ∷ []

module _ {S : Type 0} (api : PinApi S) where
  -- the state event is sent only if the lengths differ, in both cases of the condition
  send_changed : String → List String → List String → Exec S Unit
  send_changed room_id pinned updated =
      when (not (nat_eq (length pinned) (length updated))) (api.send_pinned_event room_id updated)

  unfoldable pub pin_unpin_message : String → String → Exec S Unit
  unfolding absent_event toggle send_changed
  pin_unpin_message room_id event_id = or_fail "Failed to toggle pinned message" (do
    pinned_event ← catch (api.get_pinned_event room_id) absent_event
    send_changed room_id (or_else pinned_event []) (toggle event_id (or_else pinned_event [])))
