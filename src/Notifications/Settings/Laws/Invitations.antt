-- ===== src/Notifications/Settings/Laws/Invitations.antt =====
-- The invitations setting that getSettings reads after setDefaultEventRules has set it.
use sudo_secure_communicatio.Prelude.{
  String, Bool, true, false, Option, none, some, List, [], ◌∷◌, ◌≡◌, refl, ◌∙◌, ap, inl, inr, ◌==◌,
  or_else, arith, Bool-cases,
}
use sudo_secure_communicatio.Exec.{ok}
use sudo_secure_communicatio.Exec.Laws.{bind-eq-ok}
use sudo_secure_communicatio.Notifications.Rules.{
  Action, notify, override, PushRule, PushRules, PushApi, add_push_rule, set_push_rule_actions,
  set_push_rule_enabled, get_push_rules,
}
use sudo_secure_communicatio.Notifications.Settings.{
  invite_for_me_rule_id, find_rule, is_on, is_invite_for_me_enabled, to_settings, set_invite,
  change_actions, invite_conditions, set_invite_for_me_enabled, includes_notify,
}
use sudo_secure_communicatio.Notifications.Settings.Server.{change, StoresRules}
use sudo_secure_communicatio.Notifications.Settings.Laws.{actions_are_stored, flag_is_stored}

abbrev with_actions : List Action → PushRule → PushRule
with_actions actions rule = record rule { actions = some actions }

abbrev with_flag : Bool → PushRule → PushRule
with_flag enabled rule = record rule { enabled = enabled }

abbrev updated : (PushRule → PushRule) → Option PushRule → Option PushRule
updated f none = none
updated f (some rule) = some (f rule)

find_rule-actions :
    (id : String) (actions : List Action) (rules : List PushRule)
    → find_rule id (change (with_actions actions) id rules)
      ≡ updated (with_actions actions) (find_rule id rules)
unfolding find_rule
find_rule-actions id actions [] = refl
find_rule-actions id actions (rule ∷ rules) = elim (Bool-cases (rule.rule_id == id)) [
  | inl same ↦ rw same (rw same refl)
  | inr differs ↦ rw differs (rw differs (find_rule-actions id actions rules))
]

find_rule-enabled :
    (id : String) (enabled : Bool) (rules : List PushRule)
    → find_rule id (change (with_flag enabled) id rules)
      ≡ updated (with_flag enabled) (find_rule id rules)
unfolding find_rule
find_rule-enabled id enabled [] = refl
find_rule-enabled id enabled (rule ∷ rules) = elim (Bool-cases (rule.rule_id == id)) [
  | inl same ↦ rw same (rw same refl)
  | inr differs ↦ rw differs (rw differs (find_rule-enabled id enabled rules))
]

abbrev invite_rule : PushRules → Option PushRule
invite_rule rules = find_rule invite_for_me_rule_id (or_else rules.override_rules [])

module _ {S : Type 0} (api : PushApi S) (rules_of : S → PushRules)
    (stores : StoresRules api rules_of) where
  invite_rule-actions :
      (actions : List Action) (s t : S)
      → set_push_rule_actions api override invite_for_me_rule_id actions s ≡ (ok tt, t)
      → invite_rule (rules_of t) ≡ updated (with_actions actions) (invite_rule (rules_of s))
  invite_rule-actions actions s t h =
      rw (actions_are_stored api rules_of stores override invite_for_me_rule_id actions s t h)
        (find_rule-actions invite_for_me_rule_id actions (or_else (rules_of s).override_rules []))

  invite_rule-enabled :
      (enabled : Bool) (s t : S)
      → set_push_rule_enabled api override invite_for_me_rule_id enabled s ≡ (ok tt, t)
      → invite_rule (rules_of t) ≡ updated (with_flag enabled) (invite_rule (rules_of s))
  invite_rule-enabled enabled s t h =
      rw (flag_is_stored api rules_of stores override invite_for_me_rule_id enabled s t h)
        (find_rule-enabled invite_for_me_rule_id enabled (or_else (rules_of s).override_rules []))

  -- The rule as it is after setPushRuleActions, if that is called.
  changed_actions :
      (enabled : Bool) (rule : PushRule) (s t : S)
      → invite_rule (rules_of s) ≡ some rule
      → change_actions api enabled rule s ≡ (ok tt, t)
      → (found : PushRule) × (invite_rule (rules_of t) ≡ some found)
        × (includes_notify found.actions ≡ enabled)
  unfolding change_actions
  changed_actions true rule s t found h = elim (Bool-cases (includes_notify rule.actions)) [
    | inl notifies ↦ (rule, ground (arith, h), notifies)
    | inr silent ↦ (
      with_actions (notify ∷ []) rule,
      invite_rule-actions (notify ∷ []) s t (rw silent at h)
          ∙ ap (updated (with_actions (notify ∷ []))) found,
      refl,
    )
  ]
  changed_actions false rule s t found h = elim (Bool-cases (includes_notify rule.actions)) [
    | inl notifies ↦ (
      with_actions [] rule,
      invite_rule-actions [] s t (rw notifies at h) ∙ ap (updated (with_actions [])) found,
      refl,
    )
    | inr silent ↦ (rule, ground (arith, h), silent)
  ]

  added_rule :
      (s t : S)
      → add_push_rule api override invite_for_me_rule_id (invite_conditions api) (notify ∷ []) s
        ≡ (ok tt, t)
      → is_on (invite_rule (rules_of t)) ≡ true
  unfolding add_push_rule is_on find_rule
  added_rule s t h =
      rw
        (stores.adds override invite_for_me_rule_id (invite_conditions api) (notify ∷ []) s t
          (ground arith))
        refl

  set_invite-enabled :
      (enabled : Bool) (rule : Option PushRule) (s t : S)
      → invite_rule (rules_of s) ≡ rule
      → set_invite api enabled rule s ≡ (ok tt, t)
      → is_on (invite_rule (rules_of t)) ≡ enabled
  unfolding set_invite is_on
  set_invite-enabled true none s t absent h = added_rule s t h
  set_invite-enabled false none s t absent h = ground (arith, h, absent)
  set_invite-enabled enabled (some rule) s t found h =
      let (_, u, first, second) =
        bind-eq-ok (change_actions api enabled rule)
          (λ _. set_push_rule_enabled api override invite_for_me_rule_id enabled) s t tt h in
      let (changed, known, notifies) = changed_actions enabled rule s u found first in
      let after = invite_rule-enabled enabled u t second in ground (arith, after, known, notifies)

  -- If the homeserver stores push rules as documented, then after setDefaultEventRules has returned
  -- getSettings reads the invitations setting that was set, whether the rule was there or not.
  pub set_invite_for_me_enabled-invitations :
      (enabled : Bool) (s t : S)
      → set_invite_for_me_enabled api enabled s ≡ (ok tt, t)
      → (to_settings (rules_of t)).invitations ≡ enabled
  unfolding set_invite_for_me_enabled to_settings is_invite_for_me_enabled get_push_rules
  set_invite_for_me_enabled-invitations enabled s t h =
      set_invite-enabled enabled (invite_rule (rules_of s)) s t refl (rw (stores.reads s) at h)
