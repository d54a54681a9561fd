-- ===== src/Messaging/Edits/Laws.antt =====
-- What an edit does to the thread of a message.
use sudo_secure_communicatio.Prelude.{String, ◌≡◌, ◌≢◌, refl, true, false, none, some, List}
use sudo_secure_communicatio.Messaging.Content.{MessageContent, truthy}
use sudo_secure_communicatio.Messaging.Edits.{is_media, edit_content, edit_listed_content}
use sudo_secure_communicatio.Messaging.Sending.{Mention, build_message_content}
use sudo_secure_communicatio.Messaging.Sending as Sending
use sudo_secure_communicatio.Messaging.Sending.Laws.{read, text_message, build_message_content-read}

-- A message of a thread that is not of one of the four types of media, and whose latest edit is one that `edit` or
-- `editMediaCaption` sent, has the text of the edit, in a list and by itself. In a list it is still in
-- its thread; `get` returns it without one.
pub edit_listed_content-thread :
    (replace_all : String → String → String → String) (home_server message : String)
    (mentions : List Mention) (room_id id thread_id : String) (content : MessageContent)
    → id ≢ ""
    → is_media content.type ≡ false
    → truthy content.thread_id ≡ some thread_id
    → let edited = read (
        Sending.edit_content id
          (build_message_content replace_all home_server message mentions room_id)) in
      (edit_listed_content content edited ≡ text_message true (some thread_id) none message)
      × (edit_content content edited ≡ text_message true none none message)
unfolding edit_listed_content edit_content
edit_listed_content-thread replace_all home_server message mentions room_id id thread_id content
      named other in_thread =
    rw (edit_content-read, other, in_thread) (refl, refl)
  where
    edit_content-read :
        read (
          Sending.edit_content id
            (build_message_content replace_all home_server message mentions room_id))
        ≡ text_message true none none message
    edit_content-read =
        (build_message_content-read replace_all home_server message mentions room_id id named
          none).3
