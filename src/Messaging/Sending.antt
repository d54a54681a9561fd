-- ===== src/Messaging/Sending.antt =====
-- Sending, editing and deleting messages: MatrixMessagingService
-- (src/private/data/messaging/matrixMessagingService.ts) on the message methods of
-- MatrixClientManager (src/private/data/common/matrixClientManager.ts).
pub mod Laws
use Prim.Native.String.{◌++◌}
use sudo_secure_communicatio.Prelude.{
  ℕ, String, Bool, true, false, ◌&&◌, not, ltb, Option, none, some, List, [], ◌∷◌, ◌==◌, length,
  or_else, if◌then◌else◌,
}
use sudo_secure_communicatio.Errors.{thrown, room_not_found}
use sudo_secure_communicatio.Exec.{Exec, raise, or_fail, ◌>>=◌}
use sudo_secure_communicatio.Ids.{to_matrix_user_id}
use sudo_secure_communicatio.Rooms.Sdk.{SdkRoom, MatrixClientManager}
use sudo_secure_communicatio.Rooms.Manager
use sudo_secure_communicatio.Messaging.Content.{Relation, Info, Body, truthy}

-- `m.mentions`
pub record Mentions : Type 0 where
  pub user_ids : List String
  pub room : Bool

-- RoomMessageEventContent, as far as the code fills it in: the fields that are read of a message
-- too, and the others. `relates_to_sender` is `com.sudoplatform.relates_to_sender`.
pub record Formatted : Type 0 where
  pub body : Body
  pub format : Option String
  pub formatted_body : Option String
  pub mentions : Option Mentions

pub record Outgoing : Type 0 where
  pub content : Formatted
  pub new_content : Option Formatted
  pub relates_to_sender : Option String

-- MessageMentionEntity
pub data Mention : Type 0 where
  handle_mention : String → String → Mention
  chat_mention : Mention

-- RedactReasonEntity
pub data RedactReason : Type 0 where
  delete_own : Option String → RedactReason
  edit_reaction : RedactReason
  moderation : String → Bool → Option String → RedactReason
  unknown_reason : RedactReason

-- The SDK's methods on messages. `sender_of` is `findEventById(id)?.getSender()`.
pub record SendApi (S : Type 0) : Type 0 where
  pub send_message : String → Outgoing → Exec S Unit
  pub send_message_event : String → Outgoing → Exec S Unit
  pub redact_event : String → String → Option String → Exec S Unit
  pub sender_of : SdkRoom → String → Option String

-- `{ body, msgtype }`
unfoldable pub plain_body : String → String → Body
plain_body msgtype body = record {
  msgtype = some msgtype;
  body = some body;
  caption = none;
  url = none;
  info = none;
  filename = none;
  file_name = none;
  file = none;
  geo_uri = none;
  from_device = none;
  methods = none;
  timestamp = none;
  relates_to = none;
}

unfoldable pub unformatted : Body → Formatted
unformatted body = record { body = body; format = none; formatted_body = none; mentions = none }

unfoldable pub outgoing : Formatted → Outgoing
outgoing content = record { content = content; new_content = none; relates_to_sender = none }

-- The result of handleMentions
pub record Handled : Type 0 where
  pub formatted_body : String
  pub user_mentions : List String
  pub has_chat_mention : Bool

-- `push` on a list of strings
unfoldable pub push : List String → String → List String
push [] item = item ∷ []
push (x ∷ xs) item = x ∷ push xs item

-- `replace_all pattern replacement s` is JavaScript's `s.replace(new RegExp(pattern, 'g'), replacement)`
-- for a pattern whose special characters are escaped.
module _ (replace_all : String → String → String → String) (home_server : String) where
  -- the loop of handleMentions
  unfoldable pub handle_mentions : List Mention → String → Handled → Handled
  unfolding to_matrix_user_id push
  handle_mentions [] room_id handled = handled
  handle_mentions (handle_mention handle_id name ∷ mentions) room_id handled =
      let matrix_user_id = to_matrix_user_id handle_id home_server in
      let display_name = "@" ++ name in
      handle_mentions mentions room_id (record {
        formatted_body =
            replace_all display_name
              ("<a href=\"https://matrix.to/#/" ++ matrix_user_id ++ "\">" ++ display_name
                ++ "</a>")
              handled.formatted_body;
        user_mentions = push handled.user_mentions matrix_user_id;
        has_chat_mention = handled.has_chat_mention;
      })
  handle_mentions (chat_mention ∷ mentions) room_id handled =
      handle_mentions mentions room_id (record {
        formatted_body =
            replace_all "@chat" ("<a href=\"https://matrix.to/#/" ++ room_id ++ "\">@chat</a>")
              handled.formatted_body;
        user_mentions = handled.user_mentions;
        has_chat_mention = true;
      })

  with_mentions : String → List Mention → String → Formatted → Formatted
  unfolding handle_mentions
  with_mentions message mentions room_id content =
      let handled =
        handle_mentions mentions room_id
          (record { formatted_body = message; user_mentions = []; has_chat_mention = false }) in
      record content {
        format = some "org.matrix.custom.html";
        formatted_body = some handled.formatted_body;
        mentions =
            some (record { user_ids = handled.user_mentions; room = handled.has_chat_mention });
      }

  -- buildMessageContent
  unfoldable pub build_message_content : String → List Mention → String → Outgoing
  unfolding with_mentions plain_body unformatted outgoing
  build_message_content message mentions room_id =
      let content = unformatted (plain_body "m.text" message) in
      outgoing (
        if ltb 0 (length mentions) then with_mentions message mentions room_id content else content)

-- `{ ...content, 'm.relates_to': …, 'com.sudoplatform.relates_to_sender': … }`
unfoldable pub related_to : Relation → Option String → Outgoing → Outgoing
related_to relation sender content = record content {
  content = record content.content {
    body = record content.content.body { relates_to = some relation };
  };
  relates_to_sender = sender;
}

abbrev pub thread_relation : String → Relation
thread_relation thread_id = record {
  rel_type = some "m.thread";
  event_id = some thread_id;
  in_reply_to = none;
}

abbrev pub reply_relation : String → Relation
reply_relation message_id = record {
  rel_type = none;
  event_id = none;
  in_reply_to = some (some message_id);
}

abbrev pub replace_relation : String → Relation
replace_relation event_id = record {
  rel_type = some "m.replace";
  event_id = some event_id;
  in_reply_to = none;
}

-- `editContent`
unfoldable pub edit_content : String → Outgoing → Outgoing
unfolding plain_body unformatted
edit_content original_event_id content = record {
  content = unformatted (record (plain_body "m.text" "") {
    body = content.content.body.body;
    relates_to = some (replace_relation original_event_id);
  });
  new_content = some content.content;
  relates_to_sender = none;
}

-- the suffix of handleRedactReason, for a thread id that is there and not empty
thread_suffix : Option String → String
thread_suffix none = ""
thread_suffix (some thread_id) = ": (in thread with Id: " ++ thread_id ++ ")"

-- handleRedactReason
unfoldable pub handle_redact_reason : Option RedactReason → Option String
unfolding truthy thread_suffix
handle_redact_reason none = none
handle_redact_reason (some (delete_own thread_id)) =
    some ("deleteOwn" ++ thread_suffix (truthy thread_id))
handle_redact_reason (some edit_reaction) = some "editReaction"
handle_redact_reason (some (moderation reason hide thread_id)) =
    if hide
    then some ("moderation: (hidden)" ++ thread_suffix (truthy thread_id))
    else if reason == ""
    then some ("moderation" ++ thread_suffix (truthy thread_id))
    else some ("moderation: " ++ reason ++ thread_suffix (truthy thread_id))
handle_redact_reason (some unknown_reason) = some "Redacted for unknown reason"

module _ {S : Type 0} (m : MatrixClientManager S) (api : SendApi S) where
  -- MatrixClientManager.sendMessage
  unfoldable pub send_message : String → Outgoing → Exec S Unit
  send_message room_id content =
      or_fail "Failed to send a message" (api.send_message room_id content)

  thread_in : String → String → Outgoing → Option SdkRoom → Exec S Unit
  unfolding related_to
  thread_in room_id thread_id content none = raise (thrown room_not_found none)
  thread_in room_id thread_id content (some room) = or_fail "Failed to send a thread message" (
      api.send_message room_id
        (related_to (thread_relation thread_id) (api.sender_of room thread_id) content))

  -- MatrixClientManager.sendThreadMessage
  unfoldable pub send_thread_message : String → String → Outgoing → Exec S Unit
  unfolding thread_in
  send_thread_message room_id thread_id content = do
    room ← Manager.get_room m room_id
    thread_in room_id thread_id content room

  reply_in : String → String → Outgoing → Option SdkRoom → Exec S Unit
  unfolding related_to
  reply_in room_id message_id content none = raise (thrown room_not_found none)
  reply_in room_id message_id content (some room) = or_fail "Failed to send a reply message" (
      api.send_message_event room_id
        (related_to (reply_relation message_id) (api.sender_of room message_id) content))

  -- MatrixClientManager.sendReplyMessage
  unfoldable pub send_reply_message : String → String → Outgoing → Exec S Unit
  unfolding reply_in
  send_reply_message room_id reply_to_message_id content = do
    room ← Manager.get_room m room_id
    reply_in room_id reply_to_message_id content room

  -- MatrixClientManager.editMessage
  unfoldable pub edit_message : String → String → Outgoing → Exec S Unit
  unfolding edit_content
  edit_message room_id original_event_id content =
      or_fail "Failed to edit message"
        (api.send_message_event room_id (edit_content original_event_id content))

  -- MatrixClientManager.deleteMessage; an empty reason is not sent
  unfoldable pub delete_message : String → String → Option String → Exec S Unit
  unfolding truthy
  delete_message room_id event_id reason =
      or_fail "Failed to delete message" (api.redact_event room_id event_id (truthy reason))

  -- MatrixMessagingService.edit
  unfoldable pub edit : String → String → String → Exec S Unit
  unfolding edit_message plain_body unformatted outgoing
  edit room_id message_id message =
      edit_message room_id message_id (outgoing (unformatted (plain_body "m.text" message)))

  -- MatrixMessagingService.delete
  unfoldable pub delete : String → String → Option RedactReason → Exec S Unit
  unfolding delete_message handle_redact_reason
  delete room_id message_id reason = delete_message room_id message_id (handle_redact_reason reason)

  module _ (replace_all : String → String → String → String) where
    -- MatrixMessagingService.sendMessage, sendThread, sendReply and editMediaCaption
    unfoldable pub send : String → String → List Mention → Exec S Unit
    unfolding send_message build_message_content
    send room_id message mentions =
        send_message room_id
          (build_message_content replace_all m.home_server message mentions room_id)

    unfoldable pub send_thread : String → String → String → List Mention → Exec S Unit
    unfolding send_thread_message build_message_content
    send_thread room_id thread_id message mentions =
        send_thread_message room_id thread_id
          (build_message_content replace_all m.home_server message mentions room_id)

    unfoldable pub send_reply : String → String → String → List Mention → Exec S Unit
    unfolding send_reply_message build_message_content
    send_reply room_id reply_to_message_id message mentions =
        send_reply_message room_id reply_to_message_id
          (build_message_content replace_all m.home_server message mentions room_id)

    unfoldable pub edit_media_caption : String → String → String → List Mention → Exec S Unit
    unfolding edit_message build_message_content
    edit_media_caption room_id message_id caption mentions =
        edit_message room_id message_id
          (build_message_content replace_all m.home_server caption mentions room_id)
