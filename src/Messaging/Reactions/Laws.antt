-- ===== src/Messaging/Reactions/Laws.antt =====
-- Whom a reaction counts.
use sudo_secure_communicatio.Prelude.{
  String, Bool, false, not, ◌&&◌, none, some, List, [], ◌∷◌, ◌≡◌, refl, ◌∙◌, ◌==◌, map, any,
  contains, contains-distinct, distinct-IsDistinct, IsDistinct, length, arith,
}
use sudo_secure_communicatio.Messaging.Reactions.{ReactionEvent, truthy, live, to_reaction}

-- The event is the user's and has not been redacted.
abbrev pub is_by : String → ReactionEvent → Bool
is_by user event =
    not event.is_redacted
    && elim event.sender [ none ↦ false | some sender ↦ not (sender == "") && sender == user ]

contains-senders :
    (user : String) (events : List ReactionEvent)
    → contains user (truthy (map (λ event. event.sender) (live events))) ≡ any (is_by user) events
unfolding truthy
contains-senders user [] = refl
contains-senders user (event ∷ events) = ground (arith, contains-senders user events)

-- A user is among the senders of a reaction exactly when one of the reaction's events is the user's
-- and has not been redacted; each is there once, however many events it has sent; and the count is
-- the number of the senders.
pub to_reaction-senders :
    (key user : String) (events : List ReactionEvent)
    → (contains user (to_reaction (key, events)).sender_handle_ids ≡ any (is_by user) events)
      × IsDistinct (to_reaction (key, events)).sender_handle_ids
      × ((to_reaction (key, events)).count ≡ length (to_reaction (key, events)).sender_handle_ids)
unfolding to_reaction
to_reaction-senders key user events =
    let senders = truthy (map (λ (event : ReactionEvent). event.sender) (live events)) in
    (
      contains-distinct user senders ∙ contains-senders user events,
      distinct-IsDistinct senders,
      refl,
    )
