-- ===== src/Messaging/Transformer.antt =====
-- `fromMatrixToEntity` of MessageTransformer
-- (src/private/data/messaging/transformer/messageTransformer.ts).
use sudo_secure_communicatio.Prelude.{
  ℕ, String, Bool, true, false, Option, none, some, List, [], ◌==◌, nat_eq, map, or_else,
  if◌then◌else◌,
}
use sudo_secure_communicatio.Errors.{thrown, secure_comms, plain}
use sudo_secure_communicatio.Exec.{Result, ok, err}
use sudo_secure_communicatio.Rooms.Members.{from_matrix_to_entity}
use sudo_secure_communicatio.Messaging.Content.{
  Relation, Body, PollText, plain_text, fields, PollStartContent, EventContent, EventType,
  room_message, room_message_encrypted, room_member, poll_start, poll_response, reaction,
  other_type, EventStatus, encrypting, queued, sending, sent, not_sent, cancelled, Event, Detail,
  base, redacted, text, emote, notice, image, file, audio, video, location, key_verification,
  membership_change, poll, poll_answer, MessageContent, MessageState, pending, committed, failed,
  Message, truthy,
}
use sudo_secure_communicatio.Messaging.Media.{
  within, get_image_content, get_file_content, get_audio_content, get_video_content,
}

abbrev pub bind : {A B : Type 0} → Result A → (A → Result B) → Result B
bind (ok a) f = f a
bind (err e) f = err e

-- the `switch (contentType)` of messageContentFromMessageEvent
unfoldable pub detail_of : Option String → Body → Detail
unfolding get_image_content get_file_content get_audio_content get_video_content
detail_of none content = base
detail_of (some msgtype) content =
    if msgtype == "m.text"
    then text content.body
    else if msgtype == "m.emote"
    then emote content.body
    else if msgtype == "m.notice"
    then notice content.body
    else if msgtype == "m.image"
    then image (get_image_content content)
    else if msgtype == "m.file"
    then file (get_file_content content)
    else if msgtype == "m.audio"
    then audio (get_audio_content content)
    else if msgtype == "m.video"
    then video (get_video_content content)
    else if msgtype == "m.location"
    then location content.body content.geo_uri
    else if msgtype == "m.key.verification.request"
    then key_verification content.body content.from_device content.methods content.timestamp
    else base

-- `relatesTo?.['rel_type'] === rel_type`
unfoldable pub has_rel_type : Option Relation → String → Bool
has_rel_type none rel_type = false
has_rel_type (some relation) rel_type = or_else relation.rel_type "" == rel_type

-- the thread that a relation names, and the message that it replies to
unfoldable pub thread_of : Option Relation → Option String
unfolding has_rel_type
thread_of relates_to =
    if has_rel_type relates_to "m.thread" then within relates_to (λ r. r.event_id) else none

unfoldable pub reply_of : Option Relation → Option String
reply_of relates_to = within relates_to (λ r. within r.in_reply_to (λ id. id))

-- The content that messageContentFromMessageEvent makes of `content`, which may be undefined, and
-- of the relation that the thread and the reply are taken from.
unfoldable pub content_with : Bool → Option Body → MessageContent
unfolding detail_of thread_of reply_of truthy
content_with is_edited none = record {
  type = some "unknown";
  is_edited = is_edited;
  thread_id = none;
  replied_to_message_id = none;
  detail = base;
}
content_with is_edited (some content) = record {
  type = some (or_else content.msgtype "unknown");
  is_edited = is_edited;
  thread_id = truthy (thread_of content.relates_to);
  replied_to_message_id = truthy (reply_of content.relates_to);
  detail = detail_of content.msgtype content;
}

-- messageContentFromMessageEvent
unfoldable pub message_content_from_message_event : EventContent → MessageContent
unfolding content_with has_rel_type
message_content_from_message_event content =
    if has_rel_type content.body.relates_to "m.replace"
    then content_with true content.new_content
    else content_with false (some content.body)

-- messageContentFromMemberEvent
unfoldable pub message_content_from_member_event :
    EventContent → Option String → Result MessageContent
unfolding from_matrix_to_entity
message_content_from_member_event content state_key =
    let membership = or_else content.membership "" in
    if membership == ""
    then err (thrown secure_comms (some "Membership state is missing"))
    else ok (record {
      type = none;
      is_edited = false;
      thread_id = none;
      replied_to_message_id = none;
      detail =
          membership_change (from_matrix_to_entity membership)
            (record { handle_id = or_else state_key ""; name = "" });
    })

text_or_value : PollText → Option String → Option String → PollText
text_or_value value (some msc) body = plain_text msc
text_or_value value none (some body) = plain_text body
text_or_value value none none = value

-- `value['org.matrix.msc1767.text'] || value.body || value || ''`: an object with neither stays.
unfoldable pub poll_text : PollText → PollText
unfolding truthy text_or_value
poll_text (plain_text s) = plain_text s
poll_text (fields msc body) = text_or_value (fields msc body) (truthy msc) (truthy body)

-- The text of the type of poll events, `M_POLL_START.name` and `M_POLL_RESPONSE.name`
abbrev poll_start_name : String
poll_start_name = "org.matrix.msc3381.poll.start"

abbrev poll_response_name : String
poll_response_name = "org.matrix.msc3381.poll.response"

poll_message : String → Detail → MessageContent
poll_message name detail = record {
  type = some name;
  is_edited = false;
  thread_id = none;
  replied_to_message_id = none;
  detail = detail;
}

-- `n || 1`
or_one : Option ℕ → ℕ
or_one none = 1
or_one (some n) = if nat_eq n 0 then 1 else n

-- The two cases of messageContentFromPollEvent; a content without the poll's own part is read as
-- `undefined`, which throws a TypeError.
poll_start_content : Option PollStartContent → Result MessageContent
unfolding poll_text poll_message or_one
poll_start_content none = err (thrown plain none)
poll_start_content (some start) = ok (
    poll_message poll_start_name (
      poll start.kind (poll_text start.question) (map poll_text start.answers)
        (or_one start.max_selections)))

poll_response_content : Option Relation → Option (List PollText) → Result MessageContent
unfolding poll_text poll_message
poll_response_content relates_to none = err (thrown plain none)
poll_response_content relates_to (some answers) = ok (
    poll_message poll_response_name
      (poll_answer (within relates_to (λ r. r.event_id)) (map poll_text answers)))

abbrev empty_content : MessageContent
empty_content = record {
  type = none;
  is_edited = false;
  thread_id = none;
  replied_to_message_id = none;
  detail = base;
}

-- the `switch (eventType)`
content_of_type : EventType → EventContent → Option String → Result MessageContent
unfolding message_content_from_message_event message_content_from_member_event poll_start_content
    poll_response_content
content_of_type room_message content state_key = ok (message_content_from_message_event content)
content_of_type room_member content state_key = message_content_from_member_event content state_key
content_of_type poll_start content state_key = poll_start_content content.poll_start
content_of_type poll_response content state_key =
    poll_response_content content.body.relates_to content.poll_answers
content_of_type room_message_encrypted content state_key = ok empty_content
content_of_type reaction content state_key = ok empty_content
content_of_type (other_type name) content state_key = ok empty_content

-- The thread and the reply of events that are no messages.
unfoldable pub with_thread : Option Relation → MessageContent → MessageContent
unfolding has_rel_type
with_thread relates_to content =
    if has_rel_type relates_to "m.thread"
    then record content { thread_id = within relates_to (λ r. r.event_id) }
    else content

unfoldable pub with_reply : Option (Option String) → MessageContent → MessageContent
with_reply none content = content
with_reply (some event_id) content = record content { replied_to_message_id = event_id }

abbrev pub is_room_message : EventType → Bool
is_room_message room_message = true
is_room_message room_message_encrypted = false
is_room_message room_member = false
is_room_message poll_start = false
is_room_message poll_response = false
is_room_message reaction = false
is_room_message (other_type name) = false

related : EventType → Option Relation → MessageContent → MessageContent
unfolding with_thread with_reply
related type relates_to content =
    if is_room_message type
    then content
    else with_reply (within relates_to (λ r. r.in_reply_to)) (with_thread relates_to content)

-- `mappedContent`
unfoldable pub mapped_content : Event → Option EventContent → Result MessageContent
unfolding content_of_type related
mapped_content event none =
    if event.is_redacted
    then ok (record empty_content { detail = redacted })
    else err (thrown secure_comms (some "Event is not redacted but content is missing"))
mapped_content event (some content) =
    bind (content_of_type event.type content event.state_key)
      (λ mapped. ok (related event.type content.body.relates_to mapped))

-- `event.event?.event_id ? COMMITTED : FAILED`
committed_if : Option String → MessageState
committed_if none = failed
committed_if (some id) = committed

unfoldable pub state_of : Option EventStatus → Option String → MessageState
unfolding committed_if truthy
state_of (some encrypting) raw_id = pending
state_of (some queued) raw_id = pending
state_of (some sending) raw_id = pending
state_of (some sent) raw_id = committed
state_of (some not_sent) raw_id = committed_if (truthy raw_id)
state_of (some cancelled) raw_id = committed_if (truthy raw_id)
state_of none raw_id = committed_if (truthy raw_id)

-- `userId === event.getSender()`
is_sender : String → Option String → Bool
is_sender user_id none = false
is_sender user_id (some sender) = user_id == sender

to_message : String → Event → String → MessageContent → Message
unfolding state_of is_sender
to_message user_id event event_id content = record {
  message_id = event_id;
  state = state_of event.status event.raw_id;
  timestamp = event.timestamp;
  sender_handle = record { handle_id = or_else event.sender ""; name = "" };
  is_own = is_sender user_id event.sender;
  content = content;
  reactions = [];
  receipts = [];
}

entity_with_id : String → Event → Option String → Result (Option Message)
unfolding mapped_content to_message
entity_with_id user_id event none = ok none
entity_with_id user_id event (some event_id) =
    bind (mapped_content event event.content)
      (λ content. ok (some (to_message user_id event event_id content)))

-- fromMatrixToEntity
unfoldable pub from_event_to_entity : String → Event → Result (Option Message)
unfolding entity_with_id truthy
from_event_to_entity user_id event = entity_with_id user_id event (truthy event.event_id)
