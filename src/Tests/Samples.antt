-- ===== src/Tests/Samples.antt =====
-- Concrete parameters for the tests: an SDK client whose homeserver keeps one room and a list of
-- ignored users, push rules as the homeserver stores them, and the platform of a session manager.
use sudo_secure_communicatio.Prelude.{
  leb, ℕ, String, Option, insert, true, false, refl, none, some, List, [], ◌∷◌, ◌==◌, contains,
  arith, if◌then◌else◌,
}
use sudo_secure_communicatio.Prelude.Int.{pos}
use sudo_secure_communicatio.Exec.{Exec, ok, pure, pass}
use sudo_secure_communicatio.Rooms.Entities.{RoomPowerLevels}
use sudo_secure_communicatio.Rooms.Sdk.{Sdk, SdkRoom, MemberEvent, MatrixClientManager}
use sudo_secure_communicatio.Notifications.Rules.{notify, PushRules, PushApi}
use sudo_secure_communicatio.Notifications.Settings.Server.{
  change, without_rule, on_kind, StoresRules,
}
use sudo_secure_communicatio.DirectChats.Lists.{DirectRooms}
use sudo_secure_communicatio.DirectChats.Client.{DirectApi}
use sudo_secure_communicatio.Messaging.Content.{Relation, Body, Event, room_message}
use sudo_secure_communicatio.Messaging.Pins.{PinApi}
use sudo_secure_communicatio.Messaging.Reactions.{ReactionApi}
use sudo_secure_communicatio.Messaging.Timeline.{EventPage, MessagesApi}
use sudo_secure_communicatio.Messaging.Reading.{EventApi}
use sudo_secure_communicatio.Sessions.State.{Platform, Manager, Session}

-- The homeserver's state: whom the user ignores, what has been sent, and the direct chats.
pub record World : Type 0 where
  pub ignored : List String
  pub sent : List String
  pub direct : DirectRooms

abbrev pub world : World
world = record {
  ignored = "@eve:hs" ∷ [];
  sent = [];
  direct = ("@bob:hs", "old" ∷ "new" ∷ []) ∷ [];
}

abbrev send : String → Exec World Unit
send what w = (ok tt, record w { sent = what ∷ w.sent })

-- Ann has level 60, Bob 30 and Cid 90; everyone else has 25.
abbrev pub levels : RoomPowerLevels
levels = record {
  ban = some (pos 50);
  events = none;
  events_default = some (pos 25);
  invite = none;
  kick = some (pos 50);
  notifications = none;
  redact = none;
  state_default = none;
  users = some (("@ann:hs", pos 60) ∷ ("@bob:hs", pos 30) ∷ ("@cid:hs", pos 90) ∷ []);
  users_default = some (pos 25);
}

abbrev pub room : SdkRoom
room = record {
  room_id = "room";
  name = "friends";
  joined_member_count = 2;
  my_membership = "join";
  members =
      record { user_id = "@ann:hs"; name = "Ann"; membership = some "join"; is_direct = false }
      ∷ record { user_id = "@bob:hs"; name = "Bob"; membership = some "leave"; is_direct = true }
      ∷ [];
  power_levels = some levels;
}

abbrev pub member_events : List MemberEvent
member_events =
    record { state_key = "@ann:hs"; displayname = some "Ann"; membership = some "join" }
    ∷ record { state_key = "@bob:hs"; displayname = none; membership = some "leave" }
    ∷ []

abbrev pub sdk : Sdk World
sdk = record {
  get_user_id = pure (some "@ann:hs");
  get_room = λ id. pure (if id == "room" then some room else none);
  room_events = λ timeout. pure [];
  subscribe = λ id. send "subscribe";
  get_rooms = pure (room ∷ []);
  get_joined_rooms = pure ("room" ∷ []);
  get_power_levels_event = λ id. pure levels;
  send_power_levels_event = λ id levels. send "power_levels";
  set_power_level = λ id user level. send "power_level";
  request_members = λ id. pure member_events;
  get_topic_event = λ id. pure (some "topic");
  get_avatar_event = λ id. pure none;
  send_avatar_event = λ id url. send "avatar";
  request_room_type = λ id. pure none;
  request_room_tags = λ id. pure none;
  set_room_name = λ id name. send "name";
  set_room_topic = λ id topic. send "topic";
  join_room = λ id. send "join";
  knock_room = λ id reason. send "knock";
  get_membership_event = λ id user. pure (some "join");
  leave = λ id. send "leave";
  invite = λ id user. send "invite";
  kick = λ id user reason. send "kick";
  ban = λ id user reason. send "ban";
  unban = λ id user. send "unban";
  get_profile_info = λ user. pass;
  create_room = λ opts w. (ok "new", record w { sent = "create" ∷ w.sent });
  set_ignored_users = λ users w. (ok tt, record w { ignored = users });
  get_ignored_users = λ w. (ok w.ignored, w);
  is_user_ignored = λ user w. (ok (contains user w.ignored), w);
}

abbrev pub manager : MatrixClientManager World
manager = record { client = sdk; home_server = "hs"; sliding_sync = false }

abbrev pub direct_api : DirectApi World
direct_api = record {
  get_direct = λ w. (ok (some w.direct), w);
  set_direct = λ rooms w. (ok tt, record w { direct = rooms });
  amend = λ user rooms w. record w { direct = insert user rooms w.direct };
}

abbrev pub no_relation_body : String → Body
no_relation_body message = record {
  msgtype = some "m.text";
  body = some message;
  caption = none;
  url = none;
  info = none;
  filename = none;
  file_name = none;
  file = none;
  geo_uri = none;
  from_device = none;
  methods = none;
  timestamp = none;
  relates_to = none;
}

-- A message of Bob's, which mentions whom the second argument names.
abbrev pub text_event : String → List String → Option Relation → String → ℕ → Event
text_event id mentions relates_to message timestamp = record {
  event_id = some id;
  raw_id = some id;
  type = room_message;
  content = some (record {
    body = record (no_relation_body message) { relates_to = relates_to };
    new_content = none;
    membership = none;
    poll_start = none;
    poll_answers = none;
    mentions = some mentions;
    mentions_room = false;
  });
  state_key = none;
  sender = some "@bob:hs";
  timestamp = timestamp;
  status = none;
  is_redacted = false;
  is_encrypted = false;
}

abbrev pub in_thread : Option Relation
in_thread = some (record { rel_type = some "m.thread"; event_id = some "t"; in_reply_to = none })

abbrev pub names : String → Option String
names user = if user == "@bob:hs" then some "Bob" else none

-- Two pages of messages, the second with the older one.
abbrev pub page_from : Option String → EventPage
page_from none = record { chunk = text_event "b" [] none "later" 20 ∷ []; end = some "older" }
page_from (some token) = record { chunk = text_event "a" [] in_thread "first" 10 ∷ []; end = none }

abbrev pub messages_api : MessagesApi World
messages_api = record {
  create_messages_request = λ room token limit w. (ok (page_from token), w);
  decrypt_event_if_needed = pure;
  member_name = λ room. names;
}

abbrev pub event_api : EventApi World
event_api = record {
  find_event = λ room id. none;
  replacements = λ room id. none;
  receipts = λ room id. none;
  fetch_room_event = λ room id. pure id;
}

abbrev pub reaction_api : ReactionApi World
reaction_api = record {
  annotations = λ room id. none;
  timeline = λ room. [];
  sender_of = λ room id. none;
  redact_event = λ room id. send "redact";
  send_reaction = λ room id key sender. send "reaction";
}

abbrev pub pin_api : PinApi World
pin_api = record {
  get_pinned_event = λ room. pure none;
  send_pinned_event = λ room ids. send "pins";
}

-- The homeserver's push rules are the state.
abbrev pub push_api : PushApi PushRules
push_api = record {
  get_push_rules = λ rules. (ok rules, rules);
  add_push_rule = λ kind id conditions actions rules. (
    ok tt,
    on_kind kind
        (λ rules.
          record { rule_id = id; enabled = true; actions = some actions } ∷ without_rule id rules)
        rules,
  );
  delete_push_rule = λ kind id rules. (ok tt, on_kind kind (without_rule id) rules);
  set_push_rule_enabled = λ kind id enabled rules.
      (ok tt, on_kind kind (change (λ rule. record rule { enabled = enabled }) id) rules);
  set_push_rule_actions = λ kind id actions rules.
      (ok tt, on_kind kind (change (λ rule. record rule { actions = some actions }) id) rules);
}

abbrev pub push_rules : PushRules
push_rules = record {
  override_rules =
      some (record { rule_id = ".m.rule.is_user_mention"; enabled = true; actions = some [] } ∷ []);
  underride_rules =
      some
        (record { rule_id = ".m.rule.message"; enabled = true; actions = some (notify ∷ []) } ∷ []);
}

pub push_api-StoresRules : StoresRules push_api (λ rules. rules)
push_api-StoresRules = record {
  reads = λ s. refl;
  sets_actions = λ kind id actions s t h. ground arith;
  sets_enabled = λ kind id enabled s t h. ground arith;
  adds = λ kind id conditions actions s t h. ground arith;
}

-- The state is the clock, in seconds. Every token but the empty one lasts until 10000.
abbrev pub platform : Platform ℕ
platform = record {
  now_seconds = λ now. now;
  v4 = λ now. ("uuid", now);
  timeout_delay = λ asked. if leb asked 2147483647 then asked else 1;
  decode =
      λ token. if token == "" then none else some (record { exp = 10000; device_id = "device" });
  get_session_token = λ handle_id device_id. pure "fresh";
  use_handle_storage = λ handle_id passphrase. pure none;
  close_handle_storage = λ handle_id. pass;
  delete_handle_storage = λ handle_id. pass;
  stop_client = λ client. pass;
  clear_rust_crypto = λ client prefix. pass;
  init_rust_crypto = λ client store. pass;
  delete_database = λ name now. now;
  login_request = λ client. pass;
  has_indexed_db = true;
  auto_refresh_token_minutes_before_expiration = 5;
  enable_crypto = true;
}

abbrev pub session : Session
session = record {
  access_token = "old";
  store_passphrase = none;
  matrix_client = record { id = 0; token = "old" };
  refresh_timeout = some 1;
}

-- Ann's session has a timer, and its token expires soon.
abbrev pub sessions : Manager ℕ
sessions = record {
  sessions = ("ann", session) ∷ [];
  timers = record { id = 1; handle_id = "ann"; store_passphrase = none; delay = 9700000 } ∷ [];
  next = 2;
  outside = 9900;
}
