-- ===== src/Messaging/Sending/Laws.antt =====
-- What MessageTransformer reads of the messages that have been sent.
use sudo_secure_communicatio.Prelude.{
  String, ◌≡◌, ◌≢◌, Bool, true, false, Option, none, some, List, eq_iff, arith,
}
use sudo_secure_communicatio.Messaging.Content.{Body, EventContent, MessageContent, text, truthy}
use sudo_secure_communicatio.Messaging.Transformer.{
  message_content_from_message_event, content_with, detail_of, thread_of, reply_of, has_rel_type,
}
use sudo_secure_communicatio.Messaging.Sending.{
  Formatted, Outgoing, Mention, Mentions, plain_body, build_message_content, related_to,
  thread_relation, reply_relation, edit_content, with_mentions, unformatted, outgoing,
}

new_body : Option Formatted → Option Body
new_body none = none
new_body (some content) = some content.body

user_ids_of : Option Mentions → Option (List String)
user_ids_of none = none
user_ids_of (some mentions) = some mentions.user_ids

room_of : Option Mentions → Bool
room_of none = false
room_of (some mentions) = mentions.room

-- The content of the event that a message becomes: the homeserver gives it back as it was sent.
unfoldable pub delivered : Outgoing → EventContent
unfolding new_body user_ids_of room_of
delivered message = record {
  body = message.content.body;
  new_content = new_body message.new_content;
  membership = none;
  poll_start = none;
  poll_answers = none;
  mentions = user_ids_of message.content.mentions;
  mentions_room = room_of message.content.mentions;
}

-- A text message as the transformer shows it.
abbrev pub text_message : Bool → Option String → Option String → String → MessageContent
text_message is_edited thread_id reply_id message = record {
  type = some "m.text";
  is_edited = is_edited;
  thread_id = thread_id;
  replied_to_message_id = reply_id;
  detail = text (some message);
}

abbrev pub read : Outgoing → MessageContent
unfolding message_content_from_message_event delivered
read sent = message_content_from_message_event (delivered sent)

module _ (replace_all : String → String → String → String) (home_server message : String)
    (mentions : List Mention) (room_id : String) where
  built-body :
      (build_message_content replace_all home_server message mentions room_id).content.body
      ≡ plain_body "m.text" message
  unfolding build_message_content with_mentions unformatted outgoing
  built-body = ground arith

  -- A text that is sent, whatever it mentions, is read as that text: sent on its own, it is in no
  -- thread and replies to nothing, sent to a thread or as a reply it names that thread or that
  -- message, and sent as an edit it is edited, and names no thread whatever the edited message does.
  pub build_message_content-read :
      (id : String)
      → id ≢ ""
      → let content = build_message_content replace_all home_server message mentions room_id in
        (sender : Option String)
        → (read content ≡ text_message false none none message)
          × (read (related_to (thread_relation id) sender content)
              ≡ text_message false (some id) none message)
          × (read (related_to (reply_relation id) sender content)
              ≡ text_message false none (some id) message)
          × (read (edit_content id content) ≡ text_message true none none message)
  unfolding message_content_from_message_event content_with detail_of thread_of reply_of
      has_rel_type truthy related_to edit_content delivered plain_body unformatted
  build_message_content-read id named sender = (
    ground (arith, built-body, eq_iff id ""),
    ground (arith, built-body, eq_iff id ""),
    ground (arith, built-body, eq_iff id ""),
    ground (arith, built-body, eq_iff id ""),
  )
