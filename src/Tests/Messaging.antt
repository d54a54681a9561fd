-- ===== src/Tests/Messaging.antt =====
-- The theorems on pins and polls at concrete inputs.
use sudo_secure_communicatio.Errors.{matrix_error}
use sudo_secure_communicatio.Prelude.{
  Option, inl, inr, ℕ, String, ◌≡◌, refl, not, none, some, List, [], ◌∷◌, ◌==◌, contains, distinct,
  IsDistinct, lookup, if◌then◌else◌, arith,
}
use sudo_secure_communicatio.Exec.{Result, err, ok, pure}
use sudo_secure_communicatio.Messaging.Pins.{PinApi, pin_unpin_message}
use sudo_secure_communicatio.Messaging.Pins.Laws.{
  Answers, StoresPinned, pin_unpin_message-toggles, pin_unpin_message-repeated,
}
use sudo_secure_communicatio.Messaging.Polls.{
  PollEvent, Page, PollApi, add_responses, to_poll_responses, get_poll_responses,
}
use sudo_secure_communicatio.Messaging.Polls.Latest.{votes_of, IsLatest, add_responses-IsLatest}
use sudo_secure_communicatio.Messaging.Polls.Pages.{events_of, get_poll_responses-Serves}

-- The state is the list of the pinned messages; while it is empty, the room has no event for it.
abbrev pinned_event : List String → Result (Option (List String)) × List String
pinned_event [] = (err (matrix_error "M_NOT_FOUND"), [])
pinned_event (id ∷ ids) = (ok (some (id ∷ ids)), id ∷ ids)

abbrev pin_api : PinApi (List String)
pin_api = record {
  get_pinned_event = λ room_id. pinned_event;
  send_pinned_event = λ room_id ids pinned. (ok tt, ids);
}

pinned_event-Answers : (pinned : List String) → Answers pinned (pinned_event pinned) pinned
pinned_event-Answers [] = inr (refl, inr refl)
pinned_event-Answers (id ∷ ids) = inl refl

pin_api-StoresPinned : StoresPinned pin_api (λ pinned room_id. pinned)
pin_api-StoresPinned = record {
  reads = λ room_id. pinned_event-Answers;
  sends = λ room_id ids s t h. ground arith;
}

-- The first message of a room is pinned.
pin_unpin_message-toggles_example :
    (contains "b" ("b" ∷ []) ≡ (if "b" == "b" then not (contains "b" []) else contains "b" []))
    × IsDistinct ("b" ∷ [])
unfolding pin_unpin_message
pin_unpin_message-toggles_example =
    pin_unpin_message-toggles pin_api (λ pinned room_id. pinned) pin_api-StoresPinned "room" "b" []
      ("b" ∷ []) "b" tt refl

pin_unpin_message-repeated_example :
    pin_unpin_message pin_api "room" "c" ("a" ∷ "b" ∷ "a" ∷ []) ≡ (ok tt, "a" ∷ "b" ∷ "a" ∷ [])
unfolding distinct
pin_unpin_message-repeated_example =
    pin_unpin_message-repeated pin_api (λ pinned room_id. pinned) pin_api-StoresPinned "room" "c"
      ("a" ∷ "b" ∷ "a" ∷ []) refl refl

abbrev event : ℕ → String → String → PollEvent
event timestamp user answer = record {
  timestamp = timestamp;
  sender = some user;
  answers = some (answer ∷ []);
}

-- The poll ends at 10; Ann changes her answer, and Bob's second response is late.
abbrev first_page : Page
first_page = record {
  events = event 3 "ann" "yes" ∷ event 5 "bob" "yes" ∷ [];
  next_batch = some "next";
}

abbrev last_page : Page
last_page = record { events = event 8 "ann" "no" ∷ event 12 "bob" "no" ∷ []; next_batch = none }

abbrev pages : List Page
pages = first_page ∷ last_page ∷ []

abbrev poll_api : PollApi ℕ
poll_api = record {
  poll_ends = λ room_id poll_id. pure (record {
    events = record { timestamp = 10; sender = some "ann"; answers = none } ∷ [];
    next_batch = none;
  });
  poll_responses =
      λ room_id poll_id batch. pure (elim batch [ none ↦ first_page | some token ↦ last_page ]);
}

add_responses-IsLatest_example :
    IsLatest
      (votes_of (some 10) "ann" (events_of pages))
      (lookup "ann" (add_responses (some 10) (events_of pages) []))
add_responses-IsLatest_example = add_responses-IsLatest (some 10) (events_of pages) "ann"

get_poll_responses-Serves_example :
    get_poll_responses poll_api 2 "room" "poll" 0
    ≡ (ok (some (to_poll_responses (some 10) (add_responses (some 10) (events_of pages) []))), 0)
get_poll_responses-Serves_example =
    get_poll_responses-Serves poll_api "room" "poll" 0 2
      (record {
        events = record { timestamp = 10; sender = some "ann"; answers = none } ∷ [];
        next_batch = none;
      })
      pages refl (refl, ("next", refl, (refl, refl))) (ground arith)

-- Ann's last answer and Bob's answer in time are counted.
poll_test :
    ((to_poll_responses (some 10) (add_responses (some 10) (events_of pages) [])).tallied_answers
      ≡ ("no", 1) ∷ ("yes", 1) ∷ [])
unfolding to_poll_responses add_responses
poll_test = refl
