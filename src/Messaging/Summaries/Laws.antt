-- ===== src/Messaging/Summaries/Laws.antt =====
-- What the unread counts of a chat summary count.
use mathlib.Core.Path.{subst}
use sudo_secure_communicatio.Prelude.{
  ℕ, ◌+◌, String, ◌≡◌, refl, Bool, true, false, ◌&&◌, Option, none, some, ap, any, ◌++◌, List, [],
  ◌∷◌, ◌==◌, keep, length, ltb, nat_eq, or_else, lookup, lookup-insert, inl, inr, Dict, eq_iff,
  if◌then◌else◌, arith,
}
use sudo_secure_communicatio.Exec.{ok, Result-cases}
use sudo_secure_communicatio.Messaging.Content.{Event, Message}
use sudo_secure_communicatio.Messaging.Transformer.{from_event_to_entity}
use sudo_secure_communicatio.Messaging.Summaries.{
  Unread, Counts, ChatSummary, no_unread, no_counts, is_counted_type, is_mentioned, event_thread,
  count_one, count_thread, count_event, count_events, to_summary, summarize, has_id, after_event,
  unread_events,
}

-- How many of the events pass a test.
unfoldable pub number : (Event → Bool) → List Event → ℕ
number test [] = 0
number test (event ∷ events) = if test event then number test events + 1 else number test events

abbrev pub is_text : Option String → String → Bool
is_text none s = false
is_text (some t) s = t == s

unfoldable pub in_thread : String → Event → Bool
unfolding event_thread
in_thread thread_id event = is_text (event_thread event.content) thread_id

unfoldable pub mentions_user : String → Event → Bool
unfolding is_mentioned
mentions_user user_id event = is_mentioned user_id event.content

-- The counts of a thread, zero where it has no entry
unfoldable pub unread_of : String → Dict Unread → Unread
unfolding lookup
unread_of thread_id threads = or_else (lookup thread_id threads) no_unread

unread_of-count_thread :
    (thread_id : String) (mentioned : Bool) (thread : Option String) (threads : Dict Unread)
    → unread_of thread_id (count_thread mentioned thread threads) ≡ (
        if is_text thread thread_id
        then count_one mentioned (unread_of thread_id threads)
        else unread_of thread_id threads)
unfolding unread_of count_thread
unread_of-count_thread thread_id mentioned none threads = refl
unread_of-count_thread thread_id mentioned (some thread) threads = ground (
  arith,
  eq_iff thread thread_id,
  lookup-insert thread thread_id (count_one mentioned (or_else (lookup thread threads) no_unread))
      threads,
)

unread_of-none : (thread_id : String) → unread_of thread_id [] ≡ no_unread
unfolding unread_of lookup
unread_of-none thread_id = refl

after_event-none :
    (id : String) (events : List Event)
    → any (λ event. has_id id event.event_id) events ≡ false
    → after_event id events ≡ none
unfolding after_event
after_event-none id [] h = refl
after_event-none id (event ∷ events) h = ground (arith, after_event-none id events)

after_event-append :
    (id : String) (before after : List Event) (read : Event)
    → has_id id read.event_id ≡ true
    → any (λ event. has_id id event.event_id) before ≡ false
    → after_event id (before ++ (read ∷ after)) ≡ some after
unfolding after_event
after_event-append id [] after read found h = ground (arith, found)
after_event-append id (event ∷ before) after read found h =
    ground (arith, after_event-append id before after read found)

module _ (user_id : String) where
  count_events-all :
      (events : List Event) (counts : Counts)
      → (count_events user_id events counts).unread.all_messages
        ≡ counts.unread.all_messages + length events
  unfolding count_events count_event count_one
  count_events-all [] counts = omega arith
  count_events-all (event ∷ events) counts =
      ground (arith, count_events-all events (count_event user_id event counts))

  count_events-mentions :
      (events : List Event) (counts : Counts)
      → (count_events user_id events counts).unread.mentions
        ≡ counts.unread.mentions + number (mentions_user user_id) events
  unfolding count_events count_event count_one number mentions_user
  count_events-mentions [] counts = omega arith
  count_events-mentions (event ∷ events) counts =
      ground (arith, count_events-mentions events (count_event user_id event counts))

  count_events-thread :
      (thread_id : String) (events : List Event) (counts : Counts)
      → let unread = unread_of thread_id (count_events user_id events counts).threads in
        (unread.all_messages
          ≡ (unread_of thread_id counts.threads).all_messages + number (in_thread thread_id) events)
        × (unread.mentions
            ≡ (unread_of thread_id counts.threads).mentions
              + number (λ event. in_thread thread_id event && mentions_user user_id event) events)
  unfolding count_events count_event count_one number mentions_user in_thread
  count_events-thread thread_id [] counts = (omega arith, omega arith)
  count_events-thread thread_id (event ∷ events) counts =
      let (all, mentions) =
        count_events-thread thread_id events (count_event user_id event counts) in
      let step =
        unread_of-count_thread thread_id (is_mentioned user_id event.content)
          (event_thread event.content) counts.threads in
      (ground (arith, all, step), ground (arith, mentions, step))

-- The summary counts these events: the mentions are those that mention the user, each thread's
-- counts are those of the events in it, the count of all is the number of the events, or one where
-- there are none and the room is marked as unread, and there are unread messages exactly where
-- that count is not 0.
pub record CountsEvents (user_id : String) (marked_unread : Bool) (events : List Event)
    (summary : ChatSummary) : Type 0 where
  pub all_messages :
      summary.unread_count.all_messages
      ≡ (if marked_unread && nat_eq (length events) 0 then 1 else length events)
  pub mentions : summary.unread_count.mentions ≡ number (mentions_user user_id) events
  pub has_unread : summary.has_unread_messages ≡ ltb 0 summary.unread_count.all_messages
  pub thread :
      (thread_id : String)
      → (unread_of thread_id summary.thread_unread_count).all_messages
        ≡ number (in_thread thread_id) events
  pub thread_mentions :
      (thread_id : String)
      → (unread_of thread_id summary.thread_unread_count).mentions
        ≡ number (λ event. in_thread thread_id event && mentions_user user_id event) events

to_summary-CountsEvents :
    (recipient user_id : String) (marked_unread : Bool) (events : List Event)
    (latest : Option Message)
    → CountsEvents user_id marked_unread events
        (to_summary recipient marked_unread (count_events user_id events no_counts) latest)
unfolding to_summary
to_summary-CountsEvents recipient user_id marked_unread events latest = record {
  all_messages = ground (arith, count_events-all user_id events no_counts);
  mentions = ground (arith, count_events-mentions user_id events no_counts);
  has_unread = ground (arith, count_events-all user_id events no_counts);
  thread = λ thread_id.
      ground (
        arith,
        (count_events-thread user_id thread_id events no_counts).0,
        unread_of-none thread_id,
      );
  thread_mentions = λ thread_id.
      ground (
        arith,
        (count_events-thread user_id thread_id events no_counts).1,
        unread_of-none thread_id,
      );
}

-- A summary that getChatSummaries makes counts, of the unread events, those of the five types that
-- it names.
pub summarize-CountsEvents :
    (recipient user_id : String) (marked_unread : Bool) (unread : List Event) (latest : Event)
    (summary : ChatSummary)
    → summarize recipient user_id marked_unread unread latest ≡ ok summary
    → CountsEvents user_id marked_unread (keep (λ event. is_counted_type event.type) unread) summary
unfolding summarize
summarize-CountsEvents recipient user_id marked_unread unread latest summary e =
    elim (Result-cases (from_event_to_entity user_id latest)) [
      | inl (message, seen) ↦
          subst
            (CountsEvents user_id marked_unread (keep (λ event. is_counted_type event.type) unread))
            (ground arith)
            (to_summary-CountsEvents recipient user_id marked_unread
              (keep (λ event. is_counted_type event.type) unread) message)
      | inr (error, failed) ↦ absurd (ground arith)
    ]

-- After the read receipt's event, and no earlier, events are unread; where no event is the receipt's, all are.
pub unread_events-receipt :
    (id : String) (before after : List Event) (read : Event)
    → has_id id read.event_id ≡ true
    → any (λ event. has_id id event.event_id) before ≡ false
    → (unread_events (some id) (before ++ (read ∷ after)) ≡ after)
      × (unread_events (some id) before ≡ before)
unfolding unread_events
unread_events-receipt id before after read found none_before = (
  ap (λ rest. or_else rest (before ++ (read ∷ after)))
      (after_event-append id before after read found none_before),
  ap (λ rest. or_else rest before) (after_event-none id before none_before),
)
