-- ===== src/Messaging/Timeline/Laws.antt =====
-- Each message that listMessages finds stands once in the timeline or in its thread, with what the
-- last event about it says.
use mathlib.Core.Path.{subst}
use sudo_secure_communicatio.Prelude.{
  String, ◌≡◌, refl, ◌∙◌, sym, ap, Bool, true, false, ◌&&◌, ◌||◌, Option, none, some, List, [], ◌∷◌,
  ◌==◌, map, find, contains, IsDistinct, or_else, inl, inr, lookup, lookup-insert, eq_iff,
  if◌then◌else◌, arith,
}
use sudo_secure_communicatio.Exec.{Result, ok, err, Result-cases}
use sudo_secure_communicatio.Messaging.Content.{Event, Message, truthy}
use sudo_secure_communicatio.Messaging.Timeline.{
  Timeline, shown, put, put_in_thread, place, add_events, no_messages,
}

-- The message with an id in a list
abbrev pub with_id : String → List Message → Option Message
with_id id messages = find (λ message. message.message_id == id) messages

abbrev pub ids : List Message → List String
ids messages = map (λ message. message.message_id) messages

-- The messages of the main timeline, or of a thread
unfoldable pub messages_in : Option String → Timeline → List Message
unfolding lookup
messages_in none timeline = timeline.main
messages_in (some thread_id) timeline = or_else (lookup thread_id timeline.threads) []

abbrev pub same_place : Option String → Option String → Bool
same_place none none = true
same_place none (some s) = false
same_place (some s) none = false
same_place (some s) (some t) = s == t

-- Whether the message belongs there and has the id.
unfoldable pub fits : Option String → String → Option Message → Bool
unfolding truthy
fits at id none = false
fits at id (some message) =
    same_place at (truthy message.content.thread_id) && message.message_id == id

abbrev pub newer :
    Option String → String → Option Message → Result (Option Message) → Option Message
unfolding fits
newer at id old (err e) = old
newer at id old (ok message) = if fits at id message then message else old

-- The message with an id that the last event about it gives, or the one that was there before.
unfoldable pub latest :
    (String → Option String)
    → String
    → Option String
    → String
    → List Event
    → Option Message
    → Option Message
unfolding shown newer
latest member_name user_id at id [] old = old
latest member_name user_id at id (event ∷ events) old =
    latest member_name user_id at id events (newer at id old (shown member_name user_id event))

with_id-put :
    (message : Message) (id : String) (messages : List Message)
    → with_id id (put message messages)
      ≡ (if message.message_id == id then some message else with_id id messages)
unfolding put
with_id-put message id [] = refl
with_id-put message id (other ∷ messages) = ground (
  arith,
  with_id-put message id messages,
  eq_iff other.message_id message.message_id,
  eq_iff other.message_id id,
  eq_iff message.message_id id,
)

contains-put :
    (message : Message) (id : String) (messages : List Message)
    → contains id (ids (put message messages))
      ≡ ((message.message_id == id) || contains id (ids messages))
unfolding put
contains-put message id [] = refl
contains-put message id (other ∷ messages) = ground (
  arith,
  contains-put message id messages,
  eq_iff other.message_id message.message_id,
  eq_iff other.message_id id,
  eq_iff message.message_id id,
)

put-IsDistinct :
    (message : Message) (messages : List Message)
    → IsDistinct (ids messages)
    → IsDistinct (ids (put message messages))
unfolding put
put-IsDistinct message [] h = (refl, tt)
put-IsDistinct message (other ∷ messages) (here, later) = ground (
  arith,
  put-IsDistinct message messages later,
  contains-put message other.message_id messages,
  eq_iff other.message_id message.message_id,
  eq_iff message.message_id other.message_id,
)

messages_in-put_in_thread :
    (message : Message) (at thread : Option String) (timeline : Timeline)
    → messages_in at (put_in_thread message thread timeline) ≡ (
        if same_place at thread
        then put message (messages_in at timeline)
        else messages_in at timeline)
unfolding messages_in put_in_thread
messages_in-put_in_thread message none none timeline = refl
messages_in-put_in_thread message none (some thread) timeline = refl
messages_in-put_in_thread message (some at) none timeline = refl
messages_in-put_in_thread message (some at) (some thread) timeline = ground (
  arith,
  lookup-insert thread at (put message (or_else (lookup thread timeline.threads) []))
      timeline.threads,
  eq_iff thread at,
  eq_iff at thread,
)

with_id-place :
    (message : Option Message) (at : Option String) (id : String) (timeline : Timeline)
    → with_id id (messages_in at (place message timeline))
      ≡ (if fits at id message then message else with_id id (messages_in at timeline))
unfolding place fits
with_id-place none at id timeline = refl
with_id-place (some message) at id timeline = ground (
  arith,
  messages_in-put_in_thread message at (truthy message.content.thread_id) timeline,
  with_id-put message id (messages_in at timeline),
)

place-IsDistinct :
    (message : Option Message) (at : Option String) (timeline : Timeline)
    → IsDistinct (ids (messages_in at timeline))
    → IsDistinct (ids (messages_in at (place message timeline)))
unfolding place
place-IsDistinct none at timeline h = h
place-IsDistinct (some message) at timeline h = ground (
  arith,
  messages_in-put_in_thread message at (truthy message.content.thread_id) timeline,
  put-IsDistinct message (messages_in at timeline) h,
)

ok-injective : {before after : Timeline} → ok before ≡ ok after → after ≡ before
ok-injective e = cc

messages_in-no_messages : (at : Option String) → messages_in at no_messages ≡ []
unfolding messages_in lookup
messages_in-no_messages none = refl
messages_in-no_messages (some thread_id) = refl

module _ (member_name : String → Option String) (user_id : String) where
  add_events-latest :
      (at : Option String) (id : String) (events : List Event) (before after : Timeline)
      → add_events member_name user_id events before ≡ ok after
      → with_id id (messages_in at after)
        ≡ latest member_name user_id at id events (with_id id (messages_in at before))
  unfolding add_events latest
  add_events-latest at id [] before after e =
      ap (λ timeline. with_id id (messages_in at timeline)) (ok-injective e)
  add_events-latest at id (event ∷ events) before after e =
      elim (Result-cases (shown member_name user_id event)) [
        | inl (message, seen) ↦ rw seen (
            add_events-latest at id events (place message before) after (ground arith)
            ∙ ap (latest member_name user_id at id events) (with_id-place message at id before))
        | inr (error, failed) ↦ absurd (ground arith)
      ]

  add_events-IsDistinct :
      (at : Option String) (events : List Event) (before after : Timeline)
      → add_events member_name user_id events before ≡ ok after
      → IsDistinct (ids (messages_in at before))
      → IsDistinct (ids (messages_in at after))
  unfolding add_events
  add_events-IsDistinct at [] before after e h =
      subst (λ timeline. IsDistinct (ids (messages_in at timeline))) (sym (ok-injective e)) h
  add_events-IsDistinct at (event ∷ events) before after e h =
      elim (Result-cases (shown member_name user_id event)) [
        | inl (message, seen) ↦
            add_events-IsDistinct at events (place message before) after (ground arith)
              (place-IsDistinct message at before h)
        | inr (error, failed) ↦ absurd (ground arith)
      ]

-- When listMessages lists events, no message stands twice in the main timeline or in a thread, and
-- the message with an id that stands in either is the one that the last of the events that gives
-- a message with that id for that place gives.
pub add_events-no_messages :
    (member_name : String → Option String) (user_id : String) (events : List Event)
    (listed : Timeline) (at : Option String)
    → add_events member_name user_id events no_messages ≡ ok listed
    → IsDistinct (ids (messages_in at listed))
      × ((id : String)
          → with_id id (messages_in at listed) ≡ latest member_name user_id at id events none)
add_events-no_messages member_name user_id events listed at e = (
  add_events-IsDistinct member_name user_id at events no_messages listed e
      (subst (λ messages. IsDistinct (ids messages)) (sym (messages_in-no_messages at)) tt),
  λ id.
      add_events-latest member_name user_id at id events no_messages listed e
      ∙ ap (λ messages. latest member_name user_id at id events (with_id id messages))
          (messages_in-no_messages at),
)
