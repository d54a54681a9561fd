-- ===== src/Messaging/PollEvents.antt =====
-- The events of polls: `createPoll`, `sendPollResponse` and `endPoll` of MatrixClientManager
-- (src/private/data/common/matrixClientManager.ts), and how MatrixMessagingService calls them
-- (src/private/data/messaging/matrixMessagingService.ts).
pub mod Laws
use Prim.Native.String.{◌++◌}
use sudo_secure_communicatio.Prelude.{ℕ, String, Option, none, some, List, map}
use sudo_secure_communicatio.Exec.{Exec, or_fail, ◌>>=◌, ◌>>◌}
use sudo_secure_communicatio.Messaging.Content.{
  Relation, PollText, plain_text, fields, PollStartContent,
}

-- The content of an event of a poll: its start, with the question once more as `m.text`; a
-- response; or its end.
pub data PollContent : Type 0 where
  poll_starts : PollStartContent → String → PollContent
  poll_responds : List String → Relation → PollContent
  poll_ends : Relation → PollContent

-- The SDK's `http.authedRequest` with the method PUT, `encodeURIComponent`, the text of
-- `Date.now()`, and the kinds `M_POLL_KIND_DISCLOSED.name` and `M_POLL_KIND_UNDISCLOSED.name`.
pub record PollRequests (S : Type 0) : Type 0 where
  pub put : String → PollContent → Exec S Unit
  pub encode_uri_component : String → String
  pub date_now : Exec S String
  pub disclosed_kind : String
  pub undisclosed_kind : String

-- PollTypeEntity
pub data PollType : Type 0 where
  disclosed undisclosed : PollType

-- The `M_POLL_START.name` of createPoll's content: an answer is its own id.
unfoldable pub start_content : String → String → List String → ℕ → PollStartContent
start_content kind question answers max_selections = record {
  kind = kind;
  question = fields none (some question);
  answers = map (λ answer. fields (some answer) none) answers;
  max_selections = some max_selections;
}

-- `m.relates_to`
abbrev pub reference : String → Relation
reference poll_id = record {
  rel_type = some "m.reference";
  event_id = some poll_id;
  in_reply_to = none;
}

-- CreatePollInput without the recipient
pub record PollInput : Type 0 where
  pub type : PollType
  pub question : String
  pub answers : List String
  pub max_selections : ℕ

module _ {S : Type 0} (requests : PollRequests S) where
  -- `path`
  poll_path : String → String → String → String
  poll_path room_id event_type now =
      "/rooms/" ++ requests.encode_uri_component room_id ++ "/send/" ++ event_type ++ "/" ++ now

  send_poll_event : String → String → String → PollContent → Exec S Unit
  unfolding poll_path
  send_poll_event message room_id event_type content = do
    now ← requests.date_now
    or_fail message (requests.put (poll_path room_id event_type now) content)

  unfoldable pub create_poll : String → String → String → List String → ℕ → Exec S Unit
  unfolding start_content send_poll_event
  create_poll room_id kind question answers max_selections =
      send_poll_event "Failed to create poll" room_id "org.matrix.msc3381.poll.start"
        (poll_starts (start_content kind question answers max_selections) question)

  unfoldable pub send_poll_response : String → String → List String → Exec S Unit
  unfolding send_poll_event
  send_poll_response room_id poll_id answers =
      send_poll_event ("Failed to send poll response " ++ poll_id) room_id
        "org.matrix.msc3381.poll.response" (poll_responds answers (reference poll_id))

  unfoldable pub end_poll : String → String → Exec S Unit
  unfolding send_poll_event
  end_poll room_id poll_id =
      send_poll_event ("Failed to end poll " ++ poll_id) room_id "org.matrix.msc3381.poll.end"
        (poll_ends (reference poll_id))

  -- PollTypeTransformer.fromEntityToMatrix
  kind_of : PollType → String
  kind_of disclosed = requests.disclosed_kind
  kind_of undisclosed = requests.undisclosed_kind

  -- createPoll of MatrixMessagingService
  unfoldable pub create_poll_of : String → PollInput → Exec S Unit
  unfolding create_poll kind_of
  create_poll_of room_id input =
      create_poll room_id (kind_of input.type) input.question input.answers input.max_selections

  -- editPoll: a poll cannot be changed, so that it is ended and another is created.
  unfoldable pub edit_poll : String → String → PollInput → Exec S Unit
  unfolding end_poll create_poll_of
  edit_poll room_id poll_id input = do end_poll room_id poll_id; create_poll_of room_id input
