-- ===== src/Notifications/Settings/Server.antt =====
-- How the homeserver keeps push rules, as the Matrix specification documents it: setting the
-- actions or the flag of a rule changes that rule alone, and a rule that is added replaces one of
-- its id and stands first, enabled.
use sudo_secure_communicatio.Prelude.{
  String, Bool, true, not, ◌≡◌, some, List, [], ◌∷◌, ◌==◌, map, keep, or_else, if◌then◌else◌,
}
use sudo_secure_communicatio.Exec.{ok}
use sudo_secure_communicatio.Notifications.Rules.{
  Action, Kind, override, underride, PushRule, PushRules, EventMatch, PushApi,
}

abbrev pub change : (PushRule → PushRule) → String → List PushRule → List PushRule
change f id rules = map (λ rule. if rule.rule_id == id then f rule else rule) rules

abbrev pub without_rule : String → List PushRule → List PushRule
without_rule id rules = keep (λ rule. not (rule.rule_id == id)) rules

-- Rules of one kind, replaced
abbrev pub on_kind : Kind → (List PushRule → List PushRule) → PushRules → PushRules
on_kind override f rules = record rules {
  override_rules = some (f (or_else rules.override_rules []));
}
on_kind underride f rules = record rules {
  underride_rules = some (f (or_else rules.underride_rules []));
}

pub record StoresRules {S : Type 0} (api : PushApi S) (rules_of : S → PushRules) : Type 0 where
  pub reads : (s : S) → api.get_push_rules s ≡ (ok (rules_of s), s)
  pub sets_actions :
      (kind : Kind) (id : String) (actions : List Action) (s t : S)
      → api.set_push_rule_actions kind id actions s ≡ (ok tt, t)
      → rules_of t
        ≡ on_kind kind (change (λ rule. record rule { actions = some actions }) id) (rules_of s)
  pub sets_enabled :
      (kind : Kind) (id : String) (enabled : Bool) (s t : S)
      → api.set_push_rule_enabled kind id enabled s ≡ (ok tt, t)
      → rules_of t
        ≡ on_kind kind (change (λ rule. record rule { enabled = enabled }) id) (rules_of s)
  pub adds :
      (kind : Kind) (id : String) (conditions : List EventMatch) (actions : List Action) (s t : S)
      → api.add_push_rule kind id conditions actions s ≡ (ok tt, t)
      → rules_of t
        ≡ on_kind kind
            (λ rules.
              record { rule_id = id; enabled = true; actions = some actions }
              ∷ without_rule id rules)
            (rules_of s)
