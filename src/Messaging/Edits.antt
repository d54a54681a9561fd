-- ===== src/Messaging/Edits.antt =====
-- How MatrixMessagingService (src/private/data/messaging/matrixMessagingService.ts) applies the edits of a
-- message, and sorts messages by their timestamps.
pub mod Order
pub mod Laws
use sudo_secure_communicatio.Prelude.{
  String, Bool, true, false, ◌||◌, Option, none, some, List, [], ◌∷◌, ◌==◌, leb, if◌then◌else◌,
}
use sudo_secure_communicatio.Messaging.Content.{
  Media, Detail, base, redacted, text, emote, notice, image, file, audio, video, location,
  key_verification, membership_change, poll, poll_answer, MessageContent, MessageReceipt, Message,
  truthy,
}
use sudo_secure_communicatio.Messaging.Reactions.{MessageReaction}

-- A message into its place in a list that is sorted by timestamps, before those with the same one.
unfoldable pub insert_by_time : Message → List Message → List Message
insert_by_time message [] = message ∷ []
insert_by_time message (other ∷ messages) =
    let rest = insert_by_time message messages in
    if leb message.timestamp other.timestamp then message ∷ other ∷ messages else other ∷ rest

-- `sort((a, b) => a.timestamp - b.timestamp)`, which is stable
unfoldable pub sort_by_time : List Message → List Message
unfolding insert_by_time
sort_by_time [] = []
sort_by_time (message ∷ messages) = insert_by_time message (sort_by_time messages)

-- `at(-1)`
unfoldable pub last_message : List Message → Option Message
last_message [] = none
last_message (message ∷ []) = some message
last_message (message ∷ next ∷ messages) = last_message (next ∷ messages)

abbrev pub is_media : Option String → Bool
is_media none = false
is_media (some type) =
    type == "m.audio" || type == "m.file" || type == "m.image" || type == "m.video"

-- `(content as Text).text`
unfoldable pub text_of : Detail → Option String
text_of (text s) = s
text_of other = none

-- `caption = …` on a media content
unfoldable pub set_caption : Option String → Detail → Detail
set_caption caption (image media) = image (record media { caption = caption })
set_caption caption (file media) = file (record media { caption = caption })
set_caption caption (audio media) = audio (record media { caption = caption })
set_caption caption (video media) = video (record media { caption = caption })
set_caption caption other = other

-- The edit of `get`: a media message gets a caption, another message the content of the edit.
unfoldable pub edit_content : MessageContent → MessageContent → MessageContent
unfolding text_of set_caption
edit_content content edited =
    if is_media content.type
    then record content {
      is_edited = true;
      detail = set_caption (text_of edited.detail) content.detail;
    }
    else record edited { is_edited = true }

keep_thread : Option String → MessageContent → MessageContent
keep_thread none content = content
keep_thread (some thread_id) content = record content { thread_id = some thread_id }

-- The edit of `list`, which keeps the thread.
unfoldable pub edit_listed_content : MessageContent → MessageContent → MessageContent
unfolding edit_content keep_thread truthy
edit_listed_content content edited =
    keep_thread (truthy content.thread_id) (edit_content content edited)

-- The edit of `getPinnedMessages`
unfoldable pub edit_pinned_content : MessageContent → MessageContent → MessageContent
edit_pinned_content content edited = record edited { is_edited = true }

edit_with :
    (MessageContent → MessageContent → MessageContent)
    → MessageContent
    → Option Message
    → MessageContent
edit_with edit content none = content
edit_with edit content (some latest) = edit content latest.content

-- The message with its latest edit, its reactions and its receipts.
unfoldable pub complete :
    (MessageContent → MessageContent → MessageContent)
    → Message
    → List Message
    → List MessageReaction
    → List MessageReceipt
    → Message
unfolding edit_with sort_by_time last_message
complete edit message edits reactions receipts = record message {
  content = edit_with edit message.content (last_message (sort_by_time edits));
  reactions = reactions;
  receipts = receipts;
}
