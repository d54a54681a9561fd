-- ===== src/Notifications/Settings.antt =====
-- The notification settings of DefaultNotificationService.
pub mod Server
pub mod Laws
use Prim.Native.Char.{code}
use Prim.Native.String.{◌++◌}
use sudo_secure_communicatio.Prelude.{
  ℕ, String, Bool, true, false, not, ◌&&◌, Option, none, some, List, [], ◌∷◌, ◌==◌, nat_eq, any,
  find, or_else, Dict, insert, if◌then◌else◌,
}
use sudo_secure_communicatio.Exec.{Exec, pure, pass, catch, when, ◌>>=◌, ◌>>◌}
use sudo_secure_communicatio.Notifications.Rules.{
  Action, notify, other, Kind, override, underride, PushRule, PushRules, EventMatch, PushApi,
  get_push_rules, add_push_rule, delete_push_rule, set_push_rule_enabled, set_push_rule_actions,
}

-- MessageNotificationLevel
pub data MessageLevel : Type 0 where
  all_messages mentions mute : MessageLevel

abbrev pub is_notify : Action → Bool
is_notify notify = true
is_notify (other name) = false

-- `actions?.includes(PushRuleActionName.Notify)`
abbrev pub includes_notify : Option (List Action) → Bool
includes_notify none = false
includes_notify (some actions) = any is_notify actions

-- `actions?.length === 0`
abbrev pub is_silent : Option (List Action) → Bool
is_silent none = false
is_silent (some []) = true
is_silent (some (action ∷ actions)) = false

-- The rest of a text behind a prefix
unfoldable pub strip_prefix : String → String → Option String
strip_prefix String.[] s = some s
strip_prefix (String.◌∷◌ c p) String.[] = none
strip_prefix (String.◌∷◌ c p) (String.◌∷◌ d s) =
    if nat_eq (code c) (code d) then strip_prefix p s else none

abbrev pub recipient_prefix : String
recipient_prefix = "custom.rule.room."

full : Option String → Option String
full none = none
full (some id) = if id == "" then none else some id

-- `rule_id.match(/^custom\.(rule)\.room\.(.+)$/)`, for ids of one line
unfoldable pub match_room : String → Option String
unfolding strip_prefix full
match_room rule_id = full (strip_prefix recipient_prefix rule_id)

set_level : PushRule → Option String → Dict MessageLevel → Dict MessageLevel
unfolding insert
set_level rule none levels = levels
set_level rule (some room_id) levels =
    let muted = if is_silent rule.actions then insert room_id mute levels else levels in
    if includes_notify rule.actions then insert room_id all_messages muted else muted

-- the body of the `forEach` of getSettings
unfoldable pub add_rule : PushRule → Dict MessageLevel → Dict MessageLevel
unfolding set_level match_room
add_rule rule levels =
    if not rule.enabled then levels else set_level rule (match_room rule.rule_id) levels

unfoldable pub recipient_levels : List PushRule → Dict MessageLevel → Dict MessageLevel
unfolding add_rule
recipient_levels [] levels = levels
recipient_levels (rule ∷ rules) levels = recipient_levels rules (add_rule rule levels)

-- `rules.some((r) => r.rule_id === id && r.actions?.includes(Notify))`
unfoldable pub notifies : String → List PushRule → Bool
notifies id rules = any (λ rule. rule.rule_id == id && includes_notify rule.actions) rules

unfoldable pub default_level : PushRules → MessageLevel
unfolding notifies
default_level rules =
    if notifies ".m.rule.message" (or_else rules.underride_rules [])
    then all_messages
    else if notifies ".m.rule.is_user_mention" (or_else rules.override_rules [])
    then mentions
    else mute

abbrev pub invite_for_me_rule_id : String
invite_for_me_rule_id = ".m.rule.invite_for_me"

unfoldable pub is_on : Option PushRule → Bool
is_on none = false
is_on (some rule) = rule.enabled && includes_notify rule.actions

unfoldable pub find_rule : String → List PushRule → Option PushRule
find_rule id rules = find (λ rule. rule.rule_id == id) rules

-- isInviteForMeEnabled, on rules that have been read
unfoldable pub is_invite_for_me_enabled : PushRules → Bool
unfolding is_on find_rule
is_invite_for_me_enabled rules =
    is_on (find_rule invite_for_me_rule_id (or_else rules.override_rules []))

pub record Settings : Type 0 where
  pub default_chat_rules : MessageLevel
  pub invitations : Bool
  pub recipient_chat_rules : Dict MessageLevel

-- the settings that getSettings reads off the rules
unfoldable pub to_settings : PushRules → Settings
unfolding default_level is_invite_for_me_enabled recipient_levels
to_settings rules = record {
  default_chat_rules = default_level rules;
  invitations = is_invite_for_me_enabled rules;
  recipient_chat_rules = recipient_levels (or_else rules.override_rules []) [];
}

-- `actions` of a level that notifies of every message
abbrev pub notify_if : Bool → List Action
notify_if true = notify ∷ []
notify_if false = []

abbrev pub is_all : MessageLevel → Bool
is_all all_messages = true
is_all _ = false

abbrev pub is_mentions : MessageLevel → Bool
is_mentions mentions = true
is_mentions _ = false

-- `actions` after the second `push`
abbrev pub mention_actions : MessageLevel → List Action
mention_actions all_messages = notify ∷ []
mention_actions mentions = notify ∷ []
mention_actions mute = []

module _ {S : Type 0} (api : PushApi S) where
  unfoldable pub get_settings : Exec S Settings
  unfolding to_settings get_push_rules
  get_settings = do rules ← get_push_rules api; pure (to_settings rules)

  -- setPushRuleActions followed by setPushRuleEnabled
  unfoldable pub set_rule : Kind → String → List Action → Bool → Exec S Unit
  unfolding set_push_rule_actions set_push_rule_enabled
  set_rule kind id actions enabled = do
    set_push_rule_actions api kind id actions
    set_push_rule_enabled api kind id enabled

  unfoldable pub set_default_chat_rules : MessageLevel → Exec S Unit
  unfolding set_rule
  set_default_chat_rules level = do
    let actions = notify_if (is_all level)
    set_rule underride ".m.rule.message" actions (is_all level)
    set_rule underride ".m.rule.encrypted" actions (is_all level)
    set_rule override ".m.rule.contains_display_name" actions (is_all level)
    set_rule override ".m.rule.is_user_mention" (mention_actions level) (is_mentions level)
    set_rule override ".m.rule.roomnotif" (mention_actions level) (is_mentions level)
    set_rule override ".m.rule.is_room_mention" (mention_actions level) (is_mentions level)

  unfoldable pub invite_conditions : List EventMatch
  invite_conditions =
      record { key = "type"; pattern = "m.room.member" }
      ∷ record { key = "content.membership"; pattern = "invite" }
      ∷ record { key = "state_key"; pattern = "@*" }
      ∷ []

  unfoldable pub change_actions : Bool → PushRule → Exec S Unit
  unfolding set_push_rule_actions
  change_actions enabled rule =
      let should_notify = includes_notify rule.actions in
      if enabled && not should_notify
      then set_push_rule_actions api override invite_for_me_rule_id (notify ∷ [])
      else if not enabled && should_notify
      then set_push_rule_actions api override invite_for_me_rule_id []
      else pass

  unfoldable pub set_invite : Bool → Option PushRule → Exec S Unit
  unfolding change_actions add_push_rule set_push_rule_enabled invite_conditions
  set_invite enabled none =
      when enabled
        (add_push_rule api override invite_for_me_rule_id invite_conditions (notify ∷ []))
  set_invite enabled (some rule) = do
    change_actions enabled rule
    set_push_rule_enabled api override invite_for_me_rule_id enabled

  -- setInviteForMeEnabled, which setDefaultEventRules calls
  unfoldable pub set_invite_for_me_enabled : Bool → Exec S Unit
  unfolding set_invite find_rule get_push_rules
  set_invite_for_me_enabled enabled = do
    rules ← get_push_rules api
    set_invite enabled (find_rule invite_for_me_rule_id (or_else rules.override_rules []))

  unfoldable pub clear_recipient_chat_rules : String → Exec S Unit
  unfolding delete_push_rule
  clear_recipient_chat_rules recipient =
      delete_push_rule api override (recipient_prefix ++ recipient)

  unfoldable pub set_recipient_chat_rules : String → MessageLevel → Exec S Unit
  unfolding clear_recipient_chat_rules add_push_rule
  set_recipient_chat_rules recipient level = do
    catch (clear_recipient_chat_rules recipient) (λ e. pass)
    add_push_rule api override (recipient_prefix ++ recipient)
        (record { key = "room_id"; pattern = recipient } ∷ []) (notify_if (is_all level))
