-- ===== src/Tests/Chats.antt =====
-- The theorems on direct chats, and on messages that are sent, listed and counted, at concrete inputs.
use sudo_secure_communicatio.Prelude.{
  ℕ, String, ◌≡◌, ◌≢◌, refl, true, false, Option, none, some, List, [], ◌∷◌, ◌==◌, eq_iff, keep,
  lookup, insert, IsDistinct, or_else, arith,
}
use sudo_secure_communicatio.Exec.{ok}
use sudo_secure_communicatio.Rooms.Manager
use sudo_secure_communicatio.DirectChats.Lists.{place}
use sudo_secure_communicatio.DirectChats.Client.{create_direct_chat}
use sudo_secure_communicatio.DirectChats.Client.Laws.{
  KeepsDirect, ListedFor, create_direct_chat-ListedFor,
}
use sudo_secure_communicatio.Messaging.Content.{Event, Message, committed, truthy}
use sudo_secure_communicatio.Messaging.Timeline.{Timeline, add_events, fetch}
use sudo_secure_communicatio.Messaging.Timeline.Laws.{
  with_id, ids, messages_in, latest, add_events-no_messages,
}
use sudo_secure_communicatio.Messaging.Timeline.Pages.{Fetched, FiniteHistory, fetch-Fetched}
use sudo_secure_communicatio.Messaging.Summaries.{ChatSummary, summarize, is_counted_type}
use sudo_secure_communicatio.Messaging.Summaries.Laws.{CountsEvents, summarize-CountsEvents}
use sudo_secure_communicatio.Messaging.Sending.{
  build_message_content, related_to, thread_relation, reply_relation, edit_content,
}
use sudo_secure_communicatio.Messaging.Sending.Laws.{read, text_message, build_message_content-read}
use sudo_secure_communicatio.Messaging.Edits
use sudo_secure_communicatio.Messaging.Edits.Laws.{edit_listed_content-thread}
use sudo_secure_communicatio.Messaging.Reading.{ListedMessages}
use sudo_secure_communicatio.Tests.Samples.{
  World, world, manager, direct_api, text_event, in_thread, names, messages_api,
}

direct_api-KeepsDirect : KeepsDirect direct_api
direct_api-KeepsDirect = record {
  set_get = λ rooms s t sent. ground arith;
  get_get = λ rooms s t got. ground arith;
}

abbrev chat_created : World
chat_created = record {
  ignored = "@eve:hs" ∷ [];
  sent = "create" ∷ [];
  direct = ("@bob:hs", "old" ∷ []) ∷ ("@ann:hs", "new" ∷ []) ∷ [];
}

create_direct_chat-ListedFor_example :
    (user : String) × (before : World) × (Manager.get_user_id manager world ≡ (ok user, before))
    × (direct : Option (List (String × List String))) × ((direct_api.get_direct chat_created).0
        ≡ ok direct)
    × ListedFor user "new" (or_else direct [])
unfolding create_direct_chat place insert lookup Manager.get_user_id
create_direct_chat-ListedFor_example =
    create_direct_chat-ListedFor manager direct_api direct_api-KeepsDirect "@bob:hs" "new" world
      chat_created refl

-- Bob writes to a thread, and one of his messages comes twice, the second time with another text.
abbrev events : List Event
events =
    text_event "a" [] none "first" 10
    ∷ text_event "b" ("@ann:hs" ∷ []) in_thread "second" 20
    ∷ text_event "a" [] none "third" 30
    ∷ []

abbrev shown_as : String → Option String → String → ℕ → Message
shown_as id thread_id message timestamp = record {
  message_id = id;
  state = committed;
  timestamp = timestamp;
  sender_handle = record { handle_id = "@bob:hs"; name = "Bob" };
  is_own = false;
  content = text_message false thread_id none message;
  reactions = [];
  receipts = [];
}

abbrev timeline : Timeline
timeline = record {
  main = shown_as "a" none "third" 30 ∷ [];
  threads = ("t", shown_as "b" (some "t") "second" 20 ∷ []) ∷ [];
}

add_events-no_messages_example :
    IsDistinct (ids (messages_in none timeline))
    × ((id : String)
        → with_id id (messages_in none timeline) ≡ latest names "@ann:hs" none id events none)
unfolding add_events lookup insert
add_events-no_messages_example = add_events-no_messages names "@ann:hs" events timeline none refl

abbrev pages_left : Option String → ℕ
pages_left none = 1
pages_left (some token) = 0

messages_api-FiniteHistory : FiniteHistory messages_api "room" pages_left
unfolding truthy
messages_api-FiniteHistory none limit page s t next got more = omega arith
messages_api-FiniteHistory (some token) limit page s t next got more = ground (arith, got, more)

fetch-Fetched_example :
    Fetched messages_api "room" 10 none [] (fetch manager messages_api "room" 10 2 none [] world)
fetch-Fetched_example =
    fetch-Fetched manager messages_api "room" 10 pages_left 2 none [] world
      messages_api-FiniteHistory (λ event decrypted s t h. ground arith) (omega arith)

abbrev summary : ChatSummary
summary = record {
  recipient = "chat";
  has_unread_messages = true;
  unread_count = record { all_messages = 3; mentions = 1 };
  thread_unread_count = ("t", record { all_messages = 1; mentions = 1 }) ∷ [];
  latest_message = some (record (shown_as "a" none "third" 30) {
    sender_handle = record { handle_id = "@bob:hs"; name = "" };
  });
}

summarize-CountsEvents_example :
    CountsEvents "@ann:hs" true (keep (λ event. is_counted_type event.type) events) summary
unfolding summarize lookup insert
summarize-CountsEvents_example =
    summarize-CountsEvents "chat" "@ann:hs" true events (text_event "a" [] none "third" 30) summary
      refl

-- Replaces nothing.
abbrev keep_text : String → String → String → String
keep_text pattern replacement s = s

texts_differ : (s t : String) → (s == t) ≡ false → s ≢ t
texts_differ s t h = ground (arith, eq_iff s t)

build_message_content-read_example :
    (read (build_message_content keep_text "hs" "hi" [] "room") ≡ text_message false none none "hi")
    × (read (
          related_to
            (thread_relation "t")
            none
            (build_message_content keep_text "hs" "hi" [] "room"))
        ≡ text_message false (some "t") none "hi")
    × (read (
          related_to
            (reply_relation "t")
            none
            (build_message_content keep_text "hs" "hi" [] "room"))
        ≡ text_message false none (some "t") "hi")
    × (read (edit_content "t" (build_message_content keep_text "hs" "hi" [] "room"))
        ≡ text_message true none none "hi")
build_message_content-read_example =
    build_message_content-read keep_text "hs" "hi" [] "room" "t" (texts_differ "t" "" refl) none

edit_listed_content-thread_example :
    (Edits.edit_listed_content
        (text_message false (some "t") none "hi")
        (read (edit_content "b" (build_message_content keep_text "hs" "ho" [] "room")))
      ≡ text_message true (some "t") none "ho")
    × (Edits.edit_content
          (text_message false (some "t") none "hi")
          (read (edit_content "b" (build_message_content keep_text "hs" "ho" [] "room")))
        ≡ text_message true none none "ho")
unfolding truthy
edit_listed_content-thread_example =
    edit_listed_content-thread keep_text "hs" "ho" [] "room" "b" "t"
      (text_message false (some "t") none "hi") (texts_differ "b" "" refl) refl refl

abbrev listed : ListedMessages
listed = record {
  messages = shown_as "a" (some "t") "first" 10 ∷ shown_as "b" none "later" 20 ∷ [];
  next_token = none;
}
