-- ===== src/Messaging/Timeline.antt =====
-- `listMessages` of MatrixClientManager (src/private/data/common/matrixClientManager.ts).
pub mod Laws
pub mod Pages
use sudo_secure_communicatio.Prelude.{
  ℕ, suc, zero, ◌-◌, String, Bool, true, false, not, ◌&&◌, Option, none, some, List, [], ◌∷◌, ◌++◌,
  ◌==◌, keep, length, ltb, or_else, Dict, lookup, insert, if◌then◌else◌,
}
use sudo_secure_communicatio.Errors.{thrown, plain, room_not_found}
use sudo_secure_communicatio.Exec.{Exec, Result, ok, err, pure, raise, or_fail, promise_all, ◌>>=◌}
use sudo_secure_communicatio.Rooms.Entities.{Handle}
use sudo_secure_communicatio.Rooms.Sdk.{SdkRoom, MatrixClientManager}
use sudo_secure_communicatio.Rooms.Manager
use sudo_secure_communicatio.Messaging.Content.{
  EventContent, EventType, room_message, room_message_encrypted, room_member, poll_start,
  poll_response, reaction, other_type, Event, Detail, membership_change, MessageContent, Message,
  truthy,
}
use sudo_secure_communicatio.Messaging.Transformer.{bind, has_rel_type, from_event_to_entity}

-- The result of the SDK's `createMessagesRequest`, its `chunk` as events, and its `end`
pub record EventPage : Type 0 where
  pub chunk : List Event
  pub end : Option String

-- The SDK's methods on messages: `decrypt_event_if_needed` returns the event as it is afterwards, and
-- `member_name` is `getMember(id)?.name`.
pub record MessagesApi (S : Type 0) : Type 0 where
  pub create_messages_request : String → Option String → ℕ → Exec S EventPage
  pub decrypt_event_if_needed : Event → Exec S Event
  pub member_name : SdkRoom → String → Option String

-- `mainMessages` and `threads`
pub record Timeline : Type 0 where
  pub main : List Message
  pub threads : Dict (List Message)

-- ListMessagesOutput of listMessages
pub record Listed : Type 0 where
  pub timeline : Timeline
  pub next_token : Option String

abbrev pub is_listed_type : EventType → Bool
is_listed_type room_message = true
is_listed_type room_message_encrypted = true
is_listed_type room_member = true
is_listed_type poll_start = true
is_listed_type poll_response = false
is_listed_type reaction = false
is_listed_type (other_type name) = false

unfoldable pub is_replacement : Option EventContent → Bool
unfolding has_rel_type
is_replacement none = false
is_replacement (some content) = has_rel_type content.body.relates_to "m.replace"

-- the filter on the chunk
unfoldable pub is_relevant : Event → Bool
unfolding is_replacement
is_relevant event = not (is_replacement event.content) && is_listed_type event.type

-- `Math.max(1, limit - count)`
unfoldable pub request_limit : ℕ → ℕ → ℕ
request_limit limit count = if ltb 1 (limit - count) then limit - count else 1

-- Whether the loop goes on, and with which token: it ends where there is no token, and where there
-- are as many messages as wanted.
unfoldable pub next_request : ℕ → ℕ → Option String → Option String
next_request limit count none = none
next_request limit count (some token) = if ltb count limit then some token else none

abbrev pub go_on :
    {S A : Type 0} → (Option String → Exec S (Option A)) → A → Option String → Exec S (Option A)
go_on next result none = pure (some result)
go_on next result (some token) = next (some token)

abbrev pub is_member : EventType → Bool
is_member room_message = false
is_member room_message_encrypted = false
is_member room_member = true
is_member poll_start = false
is_member poll_response = false
is_member reaction = false
is_member (other_type name) = false

name_handle : (String → Option String) → Handle → Handle
name_handle member_name handle = record handle { name = or_else (member_name handle.handle_id) "" }

-- `(content as MembershipChange).handle.name = …`, a TypeError on a content that has no handle.
name_member : (String → Option String) → Detail → Result Detail
unfolding name_handle
name_member member_name (membership_change state handle) =
    ok (membership_change state (name_handle member_name handle))
name_member member_name other = err (thrown plain none)

-- The names of the sender, and of the member of a membership change.
unfoldable pub named : (String → Option String) → EventType → Message → Result Message
unfolding name_handle name_member
named member_name type message =
    let with_sender = record message {
      sender_handle = name_handle member_name message.sender_handle;
    } in
    if is_member type
    then bind (name_member member_name message.content.detail)
        (λ detail. ok (record with_sender { content = record message.content { detail = detail } }))
    else ok with_sender

-- `message.content.type === 'unknown' && !message.content.isEdited`
unfoldable pub is_unknown : MessageContent → Bool
is_unknown content = (or_else content.type "" == "unknown") && not content.is_edited

-- The message of an event, or none where the loop goes on with the next event.
unfoldable pub shown_message :
    (String → Option String) → EventType → Option Message → Result (Option Message)
unfolding is_unknown named
shown_message member_name type none = ok none
shown_message member_name type (some message) =
    if is_unknown message.content
    then ok none
    else bind (named member_name type message) (λ message. ok (some message))

unfoldable pub shown : (String → Option String) → String → Event → Result (Option Message)
unfolding from_event_to_entity shown_message
shown member_name user_id event =
    bind (from_event_to_entity user_id event) (shown_message member_name event.type)

-- A message takes the place of the first with its id, or stands at the end.
unfoldable pub put : Message → List Message → List Message
put message [] = message ∷ []
put message (other ∷ messages) =
    if other.message_id == message.message_id
    then message ∷ messages
    else other ∷ put message messages

put_in_thread : Message → Option String → Timeline → Timeline
unfolding put lookup insert
put_in_thread message none timeline = record timeline { main = put message timeline.main }
put_in_thread message (some thread_id) timeline = record timeline {
  threads =
      insert thread_id (put message (or_else (lookup thread_id timeline.threads) []))
        timeline.threads;
}

-- A message goes to its thread or to the main timeline.
unfoldable pub place : Option Message → Timeline → Timeline
unfolding put_in_thread truthy
place none timeline = timeline
place (some message) timeline = put_in_thread message (truthy message.content.thread_id) timeline

-- the loop over the events
unfoldable pub add_events :
    (String → Option String) → String → List Event → Timeline → Result Timeline
unfolding shown place
add_events member_name user_id [] timeline = ok timeline
add_events member_name user_id (event ∷ events) timeline =
    bind (shown member_name user_id event)
      (λ message. add_events member_name user_id events (place message timeline))

abbrev pub no_messages : Timeline
no_messages = record { main = []; threads = [] }

module _ {S : Type 0} (m : MatrixClientManager S) (api : MessagesApi S) where
  decrypt_if : Event → Exec S Event
  decrypt_if event = if event.is_encrypted then api.decrypt_event_if_needed event else pure event

  -- The `do … while` loop, which returns the events and the last token; there is no result if the
  -- fuel, the number of requests, is used up.
  unfoldable pub fetch :
      String → ℕ → ℕ → Option String → List Event → Exec S (Option (List Event × Option String))
  unfolding is_relevant request_limit next_request decrypt_if truthy
  fetch room_id limit zero token events = pure none
  fetch room_id limit (suc fuel) token events = do
    page ← api.create_messages_request room_id token (request_limit limit (length events))
    decrypted ← promise_all decrypt_if (events ++ keep is_relevant page.chunk)
    go_on (λ next. fetch room_id limit fuel next decrypted) (decrypted, page.end)
        (next_request limit (length decrypted) (truthy page.end))

  to_listed : SdkRoom → String → Option (List Event × Option String) → Exec S (Option Listed)
  unfolding add_events
  to_listed room user_id none = pure none
  to_listed room user_id (some (events, token)) = do
    timeline ← (λ s. (add_events (api.member_name room) user_id events no_messages, s))
    pure (some (record { timeline = timeline; next_token = token }))

  list_in : String → ℕ → ℕ → Option String → String → Option SdkRoom → Exec S (Option Listed)
  unfolding fetch to_listed
  list_in room_id limit fuel token user_id none = raise (thrown room_not_found none)
  list_in room_id limit fuel token user_id (some room) =
      or_fail "Failed to list messages"
        (do fetched ← fetch room_id limit fuel token []; to_listed room user_id fetched)

  -- listMessages
  unfoldable pub list_messages : ℕ → String → ℕ → Option String → Exec S (Option Listed)
  unfolding list_in
  list_messages fuel room_id limit token = do
    user_id ← Manager.get_user_id m
    room ← Manager.get_room m room_id
    list_in room_id limit fuel token user_id room
