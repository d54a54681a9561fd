-- ===== src/Messaging/Content.antt =====
-- What an event says and what a message says: the parts of an event's content that
-- MessageTransformer (src/private/data/messaging/transformer/messageTransformer.ts) reads, and
-- MessageContent (src/public/typings/messageContent.ts) and MessageEntity
-- (src/private/domain/entities/messaging/messageEntity.ts).
use sudo_secure_communicatio.Prelude.{
  ℕ, String, Bool, Option, none, some, List, ◌==◌, if◌then◌else◌,
}
use sudo_secure_communicatio.Rooms.Entities.{Handle, MembershipState}
use sudo_secure_communicatio.Messaging.Reactions.{MessageReaction}

-- `m.relates_to`; `in_reply_to` is the `event_id` of its `m.in_reply_to`, if that is there.
pub record Relation : Type 0 where
  pub rel_type : Option String
  pub event_id : Option String
  pub in_reply_to : Option (Option String)

-- `content.file`
pub record EncryptedFile : Type 0 where
  pub url : Option String
  pub key : Option String
  pub iv : Option String
  pub hashes : Option String
  pub v : Option String

-- `content.info.thumbnail_info`
pub record ThumbnailInfo : Type 0 where
  pub width : Option ℕ
  pub height : Option ℕ
  pub blur_hash : Option String
  pub mime_type : Option String
  pub size : Option ℕ

-- `content.info`
pub record Info : Type 0 where
  pub mimetype : Option String
  pub size : Option ℕ
  pub w : Option ℕ
  pub h : Option ℕ
  pub duration : Option ℕ
  pub thumbnail_url : Option String
  pub thumbnail_info : Option ThumbnailInfo

-- The content of a message, and of the `m.new_content` of one.
pub record Body : Type 0 where
  pub msgtype : Option String
  pub body : Option String
  pub caption : Option String
  pub url : Option String
  pub info : Option Info
  pub filename : Option String
  pub file_name : Option String
  pub file : Option EncryptedFile
  pub geo_uri : Option String
  pub from_device : Option String
  pub methods : Option (List String)
  pub timestamp : Option ℕ
  pub relates_to : Option Relation

-- An answer or the question of a poll: a text, or an object with these fields.
pub data PollText : Type 0 where
  plain_text : String → PollText
  fields : Option String → Option String → PollText

pub record PollStartContent : Type 0 where
  pub kind : String
  pub question : PollText
  pub answers : List PollText
  pub max_selections : Option ℕ

-- The content of an event: the fields that `Body` has too, and the others.
pub record EventContent : Type 0 where
  pub body : Body
  pub new_content : Option Body
  pub membership : Option String
  pub poll_start : Option PollStartContent
  pub poll_answers : Option (List PollText)
  pub mentions : Option (List String)
  pub mentions_room : Bool

-- The types of the SDK's `EventType` that the code names. `M_POLL_START.name` is
-- `EventType.PollStart`.
pub data EventType : Type 0 where
  room_message room_message_encrypted room_member poll_start poll_response reaction : EventType
  other_type : String → EventType

pub data EventStatus : Type 0 where
  encrypting queued sending sent not_sent cancelled : EventStatus

-- What is read of the SDK's `MatrixEvent`; no content stands for the empty object. `raw_id` is
-- `event.event?.event_id`.
pub record Event : Type 0 where
  pub event_id : Option String
  pub raw_id : Option String
  pub type : EventType
  pub content : Option EventContent
  pub state_key : Option String
  pub sender : Option String
  pub timestamp : ℕ
  pub status : Option EventStatus
  pub is_redacted : Bool
  pub is_encrypted : Bool

-- The fields that Image, Video, Audio and File share; `info` has the fields of all their infos.
pub record Media : Type 0 where
  pub caption : Option String
  pub uri : Option String
  pub mime_type : Option String
  pub size : Option ℕ
  pub width : Option ℕ
  pub height : Option ℕ
  pub duration : Option ℕ
  pub filename : String
  pub thumbnail_uri : Option String
  pub thumbnail_info : Option ThumbnailInfo
  pub encrypted_file : Option EncryptedFile

-- What the interfaces of MessageContent add to BaseMessageContent.
pub data Detail : Type 0 where
  base redacted : Detail
  text emote notice : Option String → Detail
  image file audio video : Media → Detail
  location : Option String → Option String → Detail
  key_verification : Option String → Option String → Option (List String) → Option ℕ → Detail
  membership_change : MembershipState → Handle → Detail
  poll : String → PollText → List PollText → ℕ → Detail
  poll_answer : Option String → List PollText → Detail

-- MessageContent; `type` is undefined where the transformer starts from `{}`, and `is_edited` is
-- whether `isEdited` is true.
pub record MessageContent : Type 0 where
  pub type : Option String
  pub is_edited : Bool
  pub thread_id : Option String
  pub replied_to_message_id : Option String
  pub detail : Detail

-- MessageStateEntity
pub data MessageState : Type 0 where
  pending committed failed : MessageState

-- MessageReceiptEntity
pub record MessageReceipt : Type 0 where
  pub timestamp : ℕ
  pub handle_id : String

-- MessageEntity
pub record Message : Type 0 where
  pub message_id : String
  pub state : MessageState
  pub timestamp : ℕ
  pub sender_handle : Handle
  pub is_own : Bool
  pub content : MessageContent
  pub reactions : List MessageReaction
  pub receipts : List MessageReceipt

-- A text that a condition takes for true: one that is there and not empty.
unfoldable pub truthy : Option String → Option String
truthy none = none
truthy (some s) = if s == "" then none else some s
