-- ===== src/Messaging/Reading.antt =====
-- Reading messages: `get`, `list` and `getPinnedMessages` of MatrixMessagingService
-- (src/private/data/messaging/matrixMessagingService.ts), on `getMessage`, `getReplacements`,
-- `getReadReceipts` and `getPinnedMessages` of MatrixClientManager
-- (src/private/data/common/matrixClientManager.ts). Calls that are made together are made in the
-- order of the source.
pub mod Laws
use Prim.Native.String as Text
use sudo_secure_communicatio.Prelude.{
  ℕ, String, Bool, true, false, not, Option, none, some, List, [], ◌∷◌, ◌++◌, ◌==◌, map, keep,
  present, contains, or_else, Dict, if◌then◌else◌,
}
use sudo_secure_communicatio.Errors.{Error, thrown, matrix_error, plain, room_not_found}
use sudo_secure_communicatio.Exec.{
  Exec, Result, ok, err, pure, raise, catch, or_fail, promise_all, ◌>>=◌, ◌>>◌,
}
use sudo_secure_communicatio.Rooms.Sdk.{SdkRoom, MatrixClientManager}
use sudo_secure_communicatio.Rooms.Manager
use sudo_secure_communicatio.Messaging.Content.{
  Event, MessageContent, MessageReceipt, Message, truthy,
}
use sudo_secure_communicatio.Messaging.Transformer.{bind, from_event_to_entity}
use sudo_secure_communicatio.Messaging.Reactions.{ReactionApi, get_reactions}
use sudo_secure_communicatio.Messaging.Pins.{PinApi, absent_event}
use sudo_secure_communicatio.Messaging.Timeline.{MessagesApi, Timeline, Listed, list_messages}
use sudo_secure_communicatio.Messaging.Edits.{
  edit_content, edit_listed_content, edit_pinned_content, complete, sort_by_time,
}

-- A receipt of the SDK's `getReceiptsForEvent`; `is_read` is whether its type is `m.read`.
pub record Receipt : Type 0 where
  pub is_read : Bool
  pub user_id : String
  pub timestamp : ℕ

-- The SDK's methods on the events of a room that is loaded: `replacements` are the relations
-- `m.replace` of an event that are messages, `receipts` those of the event with an id.
pub record EventApi (S : Type 0) : Type 0 where
  pub find_event : SdkRoom → String → Option Event
  pub replacements : SdkRoom → String → Option (List Event)
  pub receipts : SdkRoom → String → Option (List Receipt)
  pub fetch_room_event : String → String → Exec S String

-- a synchronous call that may throw
abbrev pub lift : {S A : Type 0} → Result A → Exec S A
lift r s = (r, s)

cons_if : Option Message → List Message → List Message
cons_if none messages = messages
cons_if (some message) messages = message ∷ messages

-- `events.map(fromMatrixToEntity)` with the messages that are there; the first that throws decides.
unfoldable pub messages_of : String → List Event → Result (List Message)
unfolding from_event_to_entity cons_if
messages_of user_id [] = ok []
messages_of user_id (event ∷ events) =
    bind (from_event_to_entity user_id event)
      (λ message. bind (messages_of user_id events) (λ messages. ok (cons_if message messages)))

-- The messages whose ids have not been seen.
unfoldable pub unseen : List String → List Message → List Message
unseen seen [] = []
unseen seen (message ∷ messages) =
    let known = contains message.message_id seen in
    let rest = unseen (if known then seen else message.message_id ∷ seen) messages in
    if known then rest else message ∷ rest

unfoldable pub to_receipts : Option (List Receipt) → List MessageReceipt
to_receipts none = []
to_receipts (some receipts) =
    map (λ receipt. record { timestamp = receipt.timestamp; handle_id = receipt.user_id })
      (keep (λ receipt. receipt.is_read) receipts)

replacements_of : String → Option (List Event) → Result (List Message)
unfolding messages_of unseen
replacements_of user_id none = ok []
replacements_of user_id (some relations) =
    bind (messages_of user_id (keep (λ event. not event.is_redacted) relations))
      (λ messages. ok (unseen [] messages))

-- the sender's name, from the room's members
name_sender : (String → Option String) → Message → Message
name_sender member_name message = record message {
  sender_handle = record message.sender_handle {
    name = or_else (member_name message.sender_handle.handle_id) "";
  };
}

name_found : (String → Option String) → Option Message → Option Message
unfolding name_sender
name_found member_name none = none
name_found member_name (some message) = some (name_sender member_name message)

found_message : (String → Option String) → String → Option Event → Result (Option Message)
unfolding name_found from_event_to_entity
found_message member_name user_id none = ok none
found_message member_name user_id (some event) =
    bind (from_event_to_entity user_id event) (λ message. ok (name_found member_name message))

-- `[...main, ...Object.values(threads).flat()]`
unfoldable pub flatten : List Message → Dict (List Message) → List Message
flatten main [] = main
flatten main ((thread_id, messages) ∷ threads) = flatten (main ++ messages) threads

-- ListMessagesOutput of `list`
pub record ListedMessages : Type 0 where
  pub messages : List Message
  pub next_token : Option String

module _ {S : Type 0} (m : MatrixClientManager S) (api : EventApi S) (messages_api : MessagesApi S)
    (reaction_api : ReactionApi S) (pin_api : PinApi S) where
  replacements_in : String → String → String → Option SdkRoom → Exec S (List Message)
  unfolding replacements_of
  replacements_in user_id room_id message_id none = raise (thrown room_not_found none)
  replacements_in user_id room_id message_id (some room) =
      or_fail (Text.◌++◌ "Failed to get replacements for message " message_id)
        (lift (replacements_of user_id (api.replacements room message_id)))

  -- MatrixClientManager.getReplacements
  unfoldable pub get_replacements : String → String → Exec S (List Message)
  unfolding replacements_in
  get_replacements room_id message_id = do
    user_id ← Manager.get_user_id m
    room ← Manager.get_room m room_id
    replacements_in user_id room_id message_id room

  -- MatrixClientManager.fetchRoomEvent
  unfoldable pub fetch_room_event : String → String → Exec S String
  fetch_room_event room_id event_id =
      or_fail "Failed to fetch room event" (api.fetch_room_event room_id event_id)

  target_event : String → Option String → String → Exec S String
  unfolding fetch_room_event
  target_event room_id (some event) event_id = pure event
  target_event room_id none event_id =
      if event_id == ""
      then raise (thrown plain (some "Valid event could not be found"))
      else fetch_room_event room_id event_id

  receipts_in : String → Option String → String → Option SdkRoom → Exec S (List MessageReceipt)
  unfolding target_event to_receipts
  receipts_in room_id event event_id none = raise (thrown room_not_found none)
  receipts_in room_id event event_id (some room) = do
    target ← target_event room_id event event_id
    pure (to_receipts (api.receipts room target))

  -- MatrixClientManager.getReadReceipts; an event is known by its id
  unfoldable pub get_read_receipts : String → Option String → String → Exec S (List MessageReceipt)
  unfolding receipts_in
  get_read_receipts room_id event event_id =
      or_fail "Failed to get read receipts"
        (do room ← Manager.get_room m room_id; receipts_in room_id event event_id room)

  message_in : String → String → Option SdkRoom → Exec S (Option Message)
  unfolding found_message
  message_in user_id event_id none = raise (thrown room_not_found none)
  message_in user_id event_id (some room) =
      or_fail "Failed to get message" (
        lift (found_message (messages_api.member_name room) user_id (api.find_event room event_id)))

  -- MatrixClientManager.getMessage
  unfoldable pub get_message : String → String → Exec S (Option Message)
  unfolding message_in
  get_message event_id room_id = do
    user_id ← Manager.get_user_id m
    room ← Manager.get_room m room_id
    message_in user_id event_id room

  -- A message with its edits, reactions and receipts; `event` is what getReadReceipts is given.
  unfoldable pub completed :
      (MessageContent → MessageContent → MessageContent)
      → (Message → Option String)
      → String
      → Message
      → Exec S Message
  unfolding get_replacements get_reactions get_read_receipts complete
  completed edit event room_id message = do
    edits ← get_replacements room_id message.message_id
    reactions ← get_reactions m reaction_api room_id message.message_id
    receipts ← get_read_receipts room_id (event message) message.message_id
    pure (complete edit message edits reactions receipts)

  completed_if : String → Option Message → Exec S (Option Message)
  unfolding completed edit_content
  completed_if room_id none = pure none
  completed_if room_id (some message) = do
    done ← completed edit_content (λ message. none) room_id message
    pure (some done)

  -- MatrixMessagingService.get
  unfoldable pub get : String → String → Exec S (Option Message)
  unfolding get_message completed_if
  get room_id message_id = do message ← get_message message_id room_id; completed_if room_id message

  process_threads : String → Dict (List Message) → Exec S (Dict (List Message))
  unfolding completed edit_listed_content
  process_threads room_id threads =
      promise_all
        (λ (thread : String × List Message). do
          messages ←
              promise_all
                (completed edit_listed_content (λ message. some message.message_id) room_id)
                thread.1
          pure (thread.0, messages))
        threads

  sorted_list : String → Option Listed → Exec S (Option ListedMessages)
  unfolding completed edit_listed_content process_threads sort_by_time flatten
  sorted_list room_id none = pure none
  sorted_list room_id (some listed) = do
    main ←
        promise_all (completed edit_listed_content (λ message. some message.message_id) room_id)
          listed.timeline.main
    threads ← process_threads room_id listed.timeline.threads
    pure (
        some (record {
          messages = sort_by_time (flatten main threads);
          next_token = listed.next_token;
        }))

  -- MatrixMessagingService.list; there is no result if listMessages runs out of fuel
  unfoldable pub list : ℕ → String → ℕ → Option String → Exec S (Option ListedMessages)
  unfolding list_messages sorted_list
  list fuel room_id limit next_token = do
    listed ← list_messages m messages_api fuel room_id limit next_token
    sorted_list room_id listed

  -- MatrixClientManager.getPinnedMessages
  unfoldable pub pinned_messages : String → Exec S (List Message)
  unfolding get_message absent_event
  pinned_messages room_id = or_fail "Failed to get pinned messages" (do
    pinned ← catch (pin_api.get_pinned_event room_id) absent_event
    messages ← promise_all (λ event_id. get_message event_id room_id) (or_else pinned [])
    pure (present messages))

  -- MatrixMessagingService.getPinnedMessages
  unfoldable pub get_pinned_messages : String → Exec S (List Message)
  unfolding pinned_messages completed edit_pinned_content
  get_pinned_messages room_id = do
    messages ← pinned_messages room_id
    promise_all (completed edit_pinned_content (λ message. none) room_id) messages
