-- ===== src/Messaging/PollEvents/Laws.antt =====
-- Polls and responses are read as they were sent, and what is left when editing a poll fails.
use sudo_secure_communicatio.Prelude.{
  ℕ, String, ◌≡◌, ◌≢◌, refl, false, none, some, List, [], ◌∷◌, eq_iff, map, All, nat_eq, arith,
}
use sudo_secure_communicatio.Exec.{ok}
use sudo_secure_communicatio.Messaging.Content.{
  plain_text, fields, EventContent, poll_start, poll_response, Event, Detail, poll, poll_answer,
  MessageContent, truthy,
}
use sudo_secure_communicatio.Messaging.Transformer.{poll_text, mapped_content}
use sudo_secure_communicatio.Messaging.PollEvents.{start_content, reference}

-- The content of a message that is an event of a poll.
abbrev pub of_poll : String → Detail → MessageContent
of_poll name detail = record {
  type = some name;
  is_edited = false;
  thread_id = none;
  replied_to_message_id = none;
  detail = detail;
}

truthy-named : (s : String) → s ≢ "" → truthy (some s) ≡ some s
unfolding truthy
truthy-named s named = ground (arith, named, eq_iff s "")

map-poll_text :
    (answers : List String)
    → All (λ answer. answer ≢ "") answers
    → map poll_text (map (λ answer. fields (some answer) none) answers) ≡ map plain_text answers
unfolding poll_text
map-poll_text [] h = refl
map-poll_text (answer ∷ answers) (named, h) =
    rw (truthy-named answer named, map-poll_text answers h) refl

map-plain_text :
    (answers : List String) → map poll_text (map plain_text answers) ≡ map plain_text answers
unfolding poll_text
map-plain_text [] = refl
map-plain_text (answer ∷ answers) = rw (map-plain_text answers) refl

question-read :
    (question : String)
    → question ≢ ""
    → poll_text (fields none (some question)) ≡ plain_text question
unfolding poll_text
question-read question named = rw (truthy-named question named) refl

-- A poll that createPoll has sent is read with its kind, its question, its answers and its number
-- of selections, if neither the question nor an answer is empty and the number is not 0.
pub create_poll-read :
    (event : Event) (content : EventContent) (kind question : String) (answers : List String)
    (max_selections : ℕ)
    → event.type ≡ poll_start
    → content.poll_start ≡ some (start_content kind question answers max_selections)
    → content.body.relates_to ≡ none
    → question ≢ ""
    → All (λ answer. answer ≢ "") answers
    → max_selections ≢ 0
    → mapped_content event (some content)
      ≡ ok (
          of_poll "org.matrix.msc3381.poll.start"
            (poll kind (plain_text question) (map plain_text answers) max_selections))
unfolding mapped_content start_content
create_poll-read event content kind question answers max type start alone named all_named some_max =
    let number : nat_eq max 0 ≡ false = ground arith in
    rw (type, start, alone, question-read question named, map-poll_text answers all_named, number)
      refl

-- A response that sendPollResponse has sent is read with its poll and its answers.
pub send_poll_response-read :
    (event : Event) (content : EventContent) (poll_id : String) (answers : List String)
    → event.type ≡ poll_response
    → content.poll_answers ≡ some (map plain_text answers)
    → content.body.relates_to ≡ some (reference poll_id)
    → mapped_content event (some content)
      ≡ ok (
          of_poll "org.matrix.msc3381.poll.response"
            (poll_answer (some poll_id) (map plain_text answers)))
unfolding mapped_content
send_poll_response-read event content poll_id answers type response related =
    rw (type, response, related, map-plain_text answers) refl
