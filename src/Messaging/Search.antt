-- ===== src/Messaging/Search.antt =====
-- `searchMessages` of MatrixClientManager (src/private/data/common/matrixClientManager.ts), with
-- SearchMessagesItemTransformer (src/private/data/messaging/transformer/).
pub mod Laws
use sudo_secure_communicatio.Prelude.{
  ℕ, String, Bool, true, false, Option, none, some, List, [], ◌∷◌, ◌&&◌, ◌==◌, or_else,
  if◌then◌else◌,
}
use sudo_secure_communicatio.Exec.{Exec, pure, or_fail, ◌>>=◌}
use sudo_secure_communicatio.Messaging.Content.{Relation, Body, Info, EventContent, EventType}
use sudo_secure_communicatio.Messaging.Media.{within}
use sudo_secure_communicatio.Messaging.Transformer.{is_room_message, has_rel_type, reply_of}

-- IEventWithRoomId
pub record FoundEvent : Type 0 where
  pub event_id : String
  pub room_id : String
  pub sender : String
  pub origin_server_ts : ℕ
  pub type : EventType
  pub content : Option EventContent

-- `search_categories.room_events` of the SDK's answer: what is missing of it is missing here.
pub record RoomEvents : Type 0 where
  pub results : Option (List (Option FoundEvent))
  pub next_batch : Option String

-- The SDK's `search`, of a text, the greatest number of messages, and a batch.
pub record SearchApi (S : Type 0) : Type 0 where
  pub search : String → ℕ → Option String → Exec S (Option RoomEvents)

-- SearchMessagesItemEntity
pub record SearchMessagesItem : Type 0 where
  pub message_id : String
  pub recipient : String
  pub sender_handle_id : String
  pub replied_to_message_id : Option String
  pub body : Option String
  pub filename : Option String
  pub mime_type : Option String
  pub timestamp : ℕ

-- SearchMessagesOutput
pub record SearchMessagesOutput : Type 0 where
  pub messages : List SearchMessagesItem
  pub next_token : Option String

-- the `switch (contentType)`
filename_of : String → Option String → Option String
filename_of msgtype filename =
    if msgtype == "m.image"
    then some (or_else filename "image")
    else if msgtype == "m.file"
    then some (or_else filename "file")
    else if msgtype == "m.audio"
    then some (or_else filename "audio")
    else if msgtype == "m.video"
    then some (or_else filename "video")
    else none

-- `a ?? b`
or_given : Option String → Option String → Option String
or_given none b = b
or_given (some a) b = some a

-- `body`: an edit has the text of its `m.new_content`.
found_body : EventContent → Option String
unfolding has_rel_type or_given
found_body content =
    if has_rel_type content.body.relates_to "m.replace"
    then or_given (within content.new_content (λ body. body.body)) content.body.body
    else content.body.body

-- fromMatrixToEntity
unfoldable pub to_search_item : FoundEvent → EventContent → SearchMessagesItem
unfolding filename_of found_body reply_of
to_search_item event content = record {
  message_id = event.event_id;
  recipient = event.room_id;
  sender_handle_id = event.sender;
  replied_to_message_id = reply_of content.body.relates_to;
  body = found_body content;
  filename = filename_of (or_else content.body.msgtype "") content.body.filename;
  mime_type = within content.body.info (λ info. info.mimetype);
  timestamp = event.origin_server_ts;
}

-- The item of an event that is not passed over: a message whose `msgtype` is `m.text`.
item_of : FoundEvent → Option EventContent → Option SearchMessagesItem
unfolding to_search_item
item_of event none = none
item_of event (some content) =
    if is_room_message event.type && or_else content.body.msgtype "" == "m.text"
    then some (to_search_item event content)
    else none

found_item : Option FoundEvent → Option SearchMessagesItem
unfolding item_of
found_item none = none
found_item (some event) = item_of event event.content

add_item : Option SearchMessagesItem → List SearchMessagesItem → List SearchMessagesItem
add_item none items = items
add_item (some item) items = item ∷ items

-- `roomResults.flatMap`
unfoldable pub search_items : List (Option FoundEvent) → List SearchMessagesItem
unfolding found_item add_item
search_items [] = []
search_items (result ∷ results) = add_item (found_item result) (search_items results)

to_output : Option RoomEvents → SearchMessagesOutput
unfolding search_items
to_output none = record { messages = []; next_token = none }
to_output (some events) = record {
  messages = search_items (or_else events.results []);
  next_token = events.next_batch;
}

unfoldable pub search_messages :
    {S : Type 0} → SearchApi S → String → ℕ → Option String → Exec S SearchMessagesOutput
unfolding to_output
search_messages api search_text limit next_token =
    or_fail "Failed to search for messages"
      (do events ← api.search search_text limit next_token; pure (to_output events))
