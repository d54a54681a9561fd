-- ===== src/Messaging/Reactions.antt =====
-- `getReactions` and `toggleReaction` of MatrixClientManager
-- (src/private/data/common/matrixClientManager.ts).
pub mod Laws
use Prim.Native.String.{◌++◌}
use sudo_secure_communicatio.Prelude.{
  ℕ, String, Bool, false, not, ◌&&◌, Option, none, some, List, [], ◌∷◌, ◌==◌, map, keep, find,
  distinct, length, if◌then◌else◌,
}
use sudo_secure_communicatio.Errors.{thrown, room_not_found}
use sudo_secure_communicatio.Exec.{Exec, pure, raise, or_fail, ◌>>=◌}
use sudo_secure_communicatio.Rooms.Sdk.{SdkRoom, MatrixClientManager}
use sudo_secure_communicatio.Rooms.Manager

-- What is read of an event that annotates a message.
pub record ReactionEvent : Type 0 where
  pub event_id : Option String
  pub sender : Option String
  pub is_redacted : Bool

-- What is read of an event of the live timeline: `relates_to` and `key` are those of the content's
-- `m.relates_to`.
pub record TimelineEvent : Type 0 where
  pub event_id : Option String
  pub type : String
  pub sender : Option String
  pub relates_to : Option String
  pub key : Option String

-- The methods of the SDK on reactions. `annotations` are the events that annotate a message, sorted
-- by their key (`getSortedAnnotationsByKey`), and `sender_of` is `findEventById(id)?.getSender()`.
pub record ReactionApi (S : Type 0) : Type 0 where
  pub annotations : SdkRoom → String → Option (List (String × List ReactionEvent))
  pub timeline : SdkRoom → List TimelineEvent
  pub sender_of : SdkRoom → String → Option String
  pub redact_event : String → String → Exec S Unit
  pub send_reaction : String → String → String → Option String → Exec S Unit

-- MessageReactionEntity
pub record MessageReaction : Type 0 where
  pub content : String
  pub count : ℕ
  pub sender_handle_ids : List String
  pub event_ids : List String

-- `filter(Boolean)` on texts that may be undefined
unfoldable pub truthy : List (Option String) → List String
truthy [] = []
truthy (none ∷ texts) = truthy texts
truthy (some text ∷ texts) = let rest = truthy texts in if text == "" then rest else text ∷ rest

-- `nonRedactedEvents`
abbrev pub live : List ReactionEvent → List ReactionEvent
live events = keep (λ event. not event.is_redacted) events

unfoldable pub to_reaction : String × List ReactionEvent → MessageReaction
unfolding truthy distinct
to_reaction (key, events) =
    let senders = distinct (truthy (map (λ event. event.sender) (live events))) in
    record {
      content = key;
      count = length senders;
      sender_handle_ids = senders;
      event_ids = truthy (map (λ event. event.event_id) (live events));
    }

to_reactions : Option (List (String × List ReactionEvent)) → List MessageReaction
unfolding to_reaction
to_reactions none = []
to_reactions (some reactions) = map to_reaction reactions

is_text : Option String → String → Bool
is_text none text = false
is_text (some other) text = other == text

-- the test for the user's own reaction
is_own : String → String → String → TimelineEvent → Bool
unfolding is_text
is_own user event_id reaction event =
    event.type == "m.reaction"
    && is_text event.relates_to event_id
    && is_text event.key reaction
    && is_text event.sender user

id_of : Option TimelineEvent → Option String
id_of none = none
id_of (some event) = event.event_id

module _ {S : Type 0} (m : MatrixClientManager S) (api : ReactionApi S) where
  reactions_in : String → Option SdkRoom → Exec S (List MessageReaction)
  unfolding to_reactions
  reactions_in message_id none = raise (thrown room_not_found none)
  reactions_in message_id (some room) = pure (to_reactions (api.annotations room message_id))

  unfoldable pub get_reactions : String → String → Exec S (List MessageReaction)
  unfolding reactions_in
  get_reactions room_id message_id =
      or_fail ("Failed to get reactions for message " ++ message_id)
        (do room ← Manager.get_room m room_id; reactions_in message_id room)

  send_or_redact : String → String → String → Option String → Option String → Exec S Unit
  send_or_redact room_id event_id reaction sender none =
      api.send_reaction room_id event_id reaction sender
  send_or_redact room_id event_id reaction sender (some id) =
      if id == ""
      then api.send_reaction room_id event_id reaction sender
      else api.redact_event room_id id

  toggle_in : String → String → String → Option SdkRoom → Exec S Unit
  unfolding send_or_redact is_own id_of
  toggle_in room_id event_id reaction none = raise (thrown room_not_found none)
  toggle_in room_id event_id reaction (some room) = do
    user ← Manager.get_user_id m
    send_or_redact room_id event_id reaction (api.sender_of room event_id)
        (id_of (find (is_own user event_id reaction) (api.timeline room)))

  unfoldable pub toggle_reaction : String → String → String → Exec S Unit
  unfolding toggle_in
  toggle_reaction room_id event_id reaction =
      or_fail "Failed to toggle reaction"
        (do room ← Manager.get_room m room_id; toggle_in room_id event_id reaction room)
