-- ===== src/Messaging/Polls.antt =====
-- `getPollResponses` of MatrixClientManager (src/private/data/common/matrixClientManager.ts).
pub mod Latest
pub mod Tally
pub mod Pages
use Prim.Native.String.{◌++◌}
use sudo_secure_communicatio.Prelude.{
  ℕ, suc, zero, ◌+◌, String, Bool, true, false, not, ◌&&◌, Option, none, some, List, [], ◌∷◌, ◌==◌,
  nat_eq, ltb, map, or_else, Dict, lookup, insert, if◌then◌else◌,
}
use sudo_secure_communicatio.Exec.{Exec, pure, or_fail, ◌>>=◌}

-- What is read of an event that refers to a poll: `answers` is there if the content has an array.
pub record PollEvent : Type 0 where
  pub timestamp : ℕ
  pub sender : Option String
  pub answers : Option (List String)

-- The result of the SDK's `relations`
pub record Page : Type 0 where
  pub events : List PollEvent
  pub next_batch : Option String

-- The SDK's `relations`: the events that end the poll, and the responses from a batch on.
pub record PollApi (S : Type 0) : Type 0 where
  pub poll_ends : String → String → Exec S Page
  pub poll_responses : String → String → Option String → Exec S Page

-- A value of `latestResponseByUser`
pub record Response : Type 0 where
  pub timestamp : ℕ
  pub answers : List String

-- PollResponsesEntity
pub record PollResponses : Type 0 where
  pub tallied_answers : Dict ℕ
  pub total_votes : ℕ
  pub ended_at : Option ℕ

-- `pollEndTimestamp && responseTimestamp > pollEndTimestamp`
unfoldable pub is_late : Option ℕ → ℕ → Bool
is_late none timestamp = false
is_late (some ended) timestamp = not (nat_eq ended 0) && ltb ended timestamp

from_sender : ℕ → Option String → List String → Option (String × Response)
from_sender timestamp none answers = none
from_sender timestamp (some user) answers =
    if user == "" then none else some (user, record { timestamp = timestamp; answers = answers })

with_answers : ℕ → Option String → Option (List String) → Option (String × Response)
unfolding from_sender
with_answers timestamp sender none = none
with_answers timestamp sender (some []) = none
with_answers timestamp sender (some (answer ∷ answers)) =
    from_sender timestamp sender (answer ∷ answers)

-- The response of an event that the `forEach` does not leave early, with its user.
unfoldable pub response_of : Option ℕ → PollEvent → Option (String × Response)
unfolding is_late with_answers
response_of ended event =
    if is_late ended event.timestamp
    then none
    else with_answers event.timestamp event.sender event.answers

-- `!prevResponse || prevResponse.timestamp < responseTimestamp`
abbrev pub is_newer : Option Response → Response → Bool
is_newer none response = true
is_newer (some previous) response = ltb previous.timestamp response.timestamp

unfoldable pub add_response : Option (String × Response) → Dict Response → Dict Response
unfolding lookup insert
add_response none latest = latest
add_response (some (user, response)) latest =
    if is_newer (lookup user latest) response then insert user response latest else latest

-- the `forEach` over the events of a page
unfoldable pub add_responses : Option ℕ → List PollEvent → Dict Response → Dict Response
unfolding add_response response_of
add_responses ended [] latest = latest
add_responses ended (event ∷ events) latest =
    add_responses ended events (add_response (response_of ended event) latest)

-- `talliedAnswers[answer] = (talliedAnswers[answer] ?? 0) + 1`
unfoldable pub add_answers : List String → Dict ℕ → Dict ℕ
unfolding lookup insert
add_answers [] tallied = tallied
add_answers (answer ∷ answers) tallied =
    add_answers answers (insert answer (or_else (lookup answer tallied) 0 + 1) tallied)

unfoldable pub tally : Dict Response → Dict ℕ → Dict ℕ
unfolding add_answers
tally [] tallied = tallied
tally ((user, response) ∷ latest) tallied = tally latest (add_answers response.answers tallied)

-- `Object.values(talliedAnswers).reduce((sum, count) => sum + count, 0)`
unfoldable pub sum_counts : Dict ℕ → ℕ
sum_counts [] = 0
sum_counts ((answer, count) ∷ tallied) = count + sum_counts tallied

unfoldable pub to_poll_responses : Option ℕ → Dict Response → PollResponses
unfolding tally sum_counts
to_poll_responses ended latest = record {
  tallied_answers = tally latest [];
  total_votes = sum_counts (tally latest []);
  ended_at = ended;
}

-- `pollEnd.events[0]?.getTs()`
abbrev pub end_of : List PollEvent → Option ℕ
end_of [] = none
end_of (event ∷ events) = some event.timestamp

-- A batch that `while (nextBatch)` goes on with: the empty text ends the loop too.
abbrev pub more : Option String → Option String
more none = none
more (some batch) = if batch == "" then none else some batch

abbrev pub go_on :
    {S A : Type 0} → (Option String → Exec S (Option A)) → A → Option String → Exec S (Option A)
go_on next latest none = pure (some latest)
go_on next latest (some batch) = next (some batch)

module _ {S : Type 0} (api : PollApi S) (room_id poll_id : String) (ended : Option ℕ) where
  -- The `do … while` loop; there is no result if the fuel, the number of pages that are read, is
  -- used up.
  unfoldable pub collect : ℕ → Dict Response → Option String → Exec S (Option (Dict Response))
  unfolding add_responses
  collect zero latest batch = pure none
  collect (suc fuel) latest batch = do
    page ← api.poll_responses room_id poll_id batch
    let added = add_responses ended page.events latest
    go_on (collect fuel added) added (more page.next_batch)

to_result : Option ℕ → Option (Dict Response) → Option PollResponses
unfolding to_poll_responses
to_result ended none = none
to_result ended (some latest) = some (to_poll_responses ended latest)

unfoldable pub get_poll_responses :
    {S : Type 0} → PollApi S → ℕ → String → String → Exec S (Option PollResponses)
unfolding collect to_result
get_poll_responses api fuel room_id poll_id =
    or_fail ("Failed to get responses for poll " ++ poll_id) (do
      poll_end ← api.poll_ends room_id poll_id
      let ended = end_of poll_end.events
      latest ← collect api room_id poll_id ended fuel [] none
      pure (to_result ended latest))
