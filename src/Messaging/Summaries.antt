-- ===== src/Messaging/Summaries.antt =====
-- `getChatSummaries` of MatrixClientManager (src/private/data/common/matrixClientManager.ts).
pub mod Laws
use sudo_secure_communicatio.Prelude.{
  ℕ, ◌+◌, suc, String, Bool, true, false, ◌||◌, Option, none, some, List, [], ◌∷◌, ◌==◌, keep, ltb,
  contains, or_else, Dict, lookup, insert, if◌then◌else◌,
}
use sudo_secure_communicatio.Errors.{thrown, room_not_found}
use sudo_secure_communicatio.Exec.{Exec, Result, ok, err, pure, raise, promise_all, ◌>>=◌}
use sudo_secure_communicatio.Rooms.Sdk.{SdkRoom, MatrixClientManager}
use sudo_secure_communicatio.Rooms.Manager
use sudo_secure_communicatio.Messaging.Content.{
  EventContent, EventType, room_message, room_message_encrypted, room_member, poll_start,
  poll_response, reaction, other_type, Event, Message, truthy,
}
use sudo_secure_communicatio.Messaging.Transformer.{bind, thread_of, from_event_to_entity}

-- The SDK's part: the events of the live timeline, whether the room's account data marks it as
-- unread, the event of a user's read receipt, and `decryptEventIfNeeded`.
pub record SummaryApi (S : Type 0) : Type 0 where
  pub live_timeline : SdkRoom → List Event
  pub marked_unread : SdkRoom → Bool
  pub read_receipt : SdkRoom → String → Option String
  pub decrypt_event_if_needed : Event → Exec S Event

-- `{ all, mentions }`
pub record Unread : Type 0 where
  pub all_messages : ℕ
  pub mentions : ℕ

-- The counts that the loop over the unread events makes.
pub record Counts : Type 0 where
  pub unread : Unread
  pub threads : Dict Unread

-- ChatSummaryEntity
pub record ChatSummary : Type 0 where
  pub recipient : String
  pub has_unread_messages : Bool
  pub unread_count : Unread
  pub thread_unread_count : Dict Unread
  pub latest_message : Option Message

abbrev pub no_unread : Unread
no_unread = record { all_messages = 0; mentions = 0 }

abbrev pub no_counts : Counts
no_counts = record { unread = no_unread; threads = [] }

abbrev pub is_counted_type : EventType → Bool
is_counted_type room_message = true
is_counted_type room_message_encrypted = true
is_counted_type room_member = true
is_counted_type poll_start = true
is_counted_type poll_response = false
is_counted_type reaction = true
is_counted_type (other_type name) = false

abbrev pub has_id : String → Option String → Bool
has_id id none = false
has_id id (some other) = other == id

-- The events after the first with the id, if there is one.
unfoldable pub after_event : String → List Event → Option (List Event)
after_event id [] = none
after_event id (event ∷ events) =
    let rest = after_event id events in if has_id id event.event_id then some events else rest

-- `unreadEvents`: all events if the last read one is not known
unfoldable pub unread_events : Option String → List Event → List Event
unfolding after_event
unread_events none events = events
unread_events (some id) events = or_else (after_event id events) events

-- `events.at(-1)`
unfoldable pub last_event : List Event → Option Event
last_event [] = none
last_event (event ∷ []) = some event
last_event (event ∷ next ∷ events) = last_event (next ∷ events)

unfoldable pub is_mentioned : String → Option EventContent → Bool
is_mentioned user_id none = false
is_mentioned user_id (some content) =
    contains user_id (or_else content.mentions []) || content.mentions_room

-- `threadId`, if it is not empty
unfoldable pub event_thread : Option EventContent → Option String
unfolding thread_of truthy
event_thread none = none
event_thread (some content) = truthy (thread_of content.body.relates_to)

unfoldable pub count_one : Bool → Unread → Unread
count_one mentioned unread = record {
  all_messages = unread.all_messages + 1;
  mentions = if mentioned then unread.mentions + 1 else unread.mentions;
}

count_thread : Bool → Option String → Dict Unread → Dict Unread
unfolding count_one lookup insert
count_thread mentioned none threads = threads
count_thread mentioned (some thread_id) threads =
    insert thread_id (count_one mentioned (or_else (lookup thread_id threads) no_unread)) threads

-- the body of the loop over `unreadMessageEvents`
unfoldable pub count_event : String → Event → Counts → Counts
unfolding is_mentioned event_thread count_one count_thread
count_event user_id event counts = record {
  unread = count_one (is_mentioned user_id event.content) counts.unread;
  threads =
      count_thread (is_mentioned user_id event.content) (event_thread event.content) counts.threads;
}

unfoldable pub count_events : String → List Event → Counts → Counts
unfolding count_event
count_events user_id [] counts = counts
count_events user_id (event ∷ events) counts =
    count_events user_id events (count_event user_id event counts)

-- What is returned where the timeline has events.
unfoldable pub to_summary : String → Bool → Counts → Option Message → ChatSummary
to_summary recipient marked_unread counts latest_message =
    let count = counts.unread.all_messages in
    record {
      recipient = recipient;
      has_unread_messages = ltb 0 count || marked_unread;
      unread_count = record {
        all_messages = if ltb 0 count then count else if marked_unread then 1 else 0;
        mentions = counts.unread.mentions;
      };
      thread_unread_count = counts.threads;
      latest_message = latest_message;
    }

-- What is returned where the timeline has no latest event.
empty_summary : String → Bool → ChatSummary
empty_summary recipient marked_unread = record {
  recipient = recipient;
  has_unread_messages = marked_unread;
  unread_count = record { all_messages = if marked_unread then 1 else 0; mentions = 0 };
  thread_unread_count = [];
  latest_message = none;
}

-- The summary from the unread events and the latest event, both as they are after decryption.
unfoldable pub summarize : String → String → Bool → List Event → Event → Result ChatSummary
unfolding count_events to_summary from_event_to_entity
summarize recipient user_id marked_unread unread latest =
    let counted = keep (λ event. is_counted_type event.type) unread in
    bind (from_event_to_entity user_id latest) (λ message.
      ok (to_summary recipient marked_unread (count_events user_id counted no_counts) message))

module _ {S : Type 0} (m : MatrixClientManager S) (api : SummaryApi S) where
  decrypt_if : Event → Exec S Event
  decrypt_if event = if event.is_encrypted then api.decrypt_event_if_needed event else pure event

  -- The latest event is the last of the unread ones, if there are any, and is decrypted with them.
  summary_with : String → String → SdkRoom → Option Event → Exec S ChatSummary
  unfolding unread_events last_event summarize decrypt_if empty_summary truthy
  summary_with recipient user_id room none = pure (empty_summary recipient (api.marked_unread room))
  summary_with recipient user_id room (some latest) = do
    unread ←
        promise_all decrypt_if
          (unread_events (truthy (api.read_receipt room user_id)) (api.live_timeline room))
    (λ s. (
      summarize recipient user_id (api.marked_unread room) unread
          (or_else (last_event unread) latest),
      s,
    ))

  summary_in : String → String → Option SdkRoom → Exec S ChatSummary
  unfolding summary_with last_event
  summary_in recipient user_id none = raise (thrown room_not_found none)
  summary_in recipient user_id (some room) =
      summary_with recipient user_id room (last_event (api.live_timeline room))

  -- getChatSummaries; the recipients with their rooms
  unfoldable pub get_chat_summaries : List (String × String) → Exec S (List ChatSummary)
  unfolding summary_in
  get_chat_summaries room_ids = do
    user_id ← Manager.get_user_id m
    promise_all
        (λ (entry : String × String). do
          room ← Manager.get_room m entry.1
          summary_in entry.0 user_id room)
        room_ids
