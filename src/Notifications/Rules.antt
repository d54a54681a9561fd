-- ===== src/Notifications/Rules.antt =====
-- Push rules, the SDK's methods on them, and their wrappers in MatrixClientManager.
use sudo_secure_communicatio.Prelude.{String, Bool, Option, some, List}
use sudo_secure_communicatio.Errors.{thrown, secure_comms}
use sudo_secure_communicatio.Exec.{Exec, raise, catch}

-- PushRuleAction: `notify`, or any other
pub data Action : Type 0 where
  notify : Action
  other : String → Action

-- PushRuleKind, the two that are used
pub data Kind : Type 0 where
  override underride : Kind

pub record PushRule : Type 0 where
  pub rule_id : String
  pub enabled : Bool
  pub actions : Option (List Action)

-- `rules.global`
pub record PushRules : Type 0 where
  pub override_rules : Option (List PushRule)
  pub underride_rules : Option (List PushRule)

-- A condition `{ kind: event_match, key, pattern }`
pub record EventMatch : Type 0 where
  pub key : String
  pub pattern : String

-- The methods of matrix-js-sdk's client, on the state of the homeserver.
pub record PushApi (S : Type 0) : Type 0 where
  pub get_push_rules : Exec S PushRules
  pub add_push_rule : Kind → String → List EventMatch → List Action → Exec S Unit
  pub delete_push_rule : Kind → String → Exec S Unit
  pub set_push_rule_enabled : Kind → String → Bool → Exec S Unit
  pub set_push_rule_actions : Kind → String → List Action → Exec S Unit

-- `try { m } catch (err) { throw new SecureCommsError(msg) }`
abbrev or_fail : {S A : Type 0} → String → Exec S A → Exec S A
or_fail msg m = catch m (λ e. raise (thrown secure_comms (some msg)))

module _ {S : Type 0} (api : PushApi S) where
  -- The promise is returned without being awaited, so the `catch` sees none of its errors.
  unfoldable pub get_push_rules : Exec S PushRules
  get_push_rules = api.get_push_rules

  unfoldable pub add_push_rule : Kind → String → List EventMatch → List Action → Exec S Unit
  add_push_rule kind id conditions actions =
      or_fail "Failed to add push rule" (api.add_push_rule kind id conditions actions)

  unfoldable pub delete_push_rule : Kind → String → Exec S Unit
  delete_push_rule kind id = or_fail "Failed to delete push rule" (api.delete_push_rule kind id)

  unfoldable pub set_push_rule_enabled : Kind → String → Bool → Exec S Unit
  set_push_rule_enabled kind id enabled =
      or_fail "Failed to enable push rule" (api.set_push_rule_enabled kind id enabled)

  unfoldable pub set_push_rule_actions : Kind → String → List Action → Exec S Unit
  set_push_rule_actions kind id actions =
      or_fail "Failed to set push rule actions" (api.set_push_rule_actions kind id actions)
