-- ===== src/Notifications/Settings/Laws.antt =====
-- The settings that are read after they have been set.
pub mod Invitations
pub mod Default
use sudo_secure_communicatio.Prelude.{
  String, Bool, true, false, not, ◌&&◌, ◌||◌, ◌≡◌, refl, ◌∙◌, ap, sym, inl, inr, Option, none, some,
  List, [], ◌∷◌, ◌==◌, eq_iff, eq_refl, any, find, map, or_else, Bool-cases, Option-cases, arith,
  if◌then◌else◌,
}
use sudo_secure_communicatio.Exec.{ok, err, Result-cases, ◌>>=◌}
use sudo_secure_communicatio.Exec.Laws.{bind-eq-ok}
use sudo_secure_communicatio.Notifications.Rules.{
  Action, notify, Kind, override, underride, PushRule, PushRules, PushApi, set_push_rule_actions,
  set_push_rule_enabled, add_push_rule, get_push_rules,
}
use sudo_secure_communicatio.Notifications.Settings.{
  MessageLevel, all_messages, mentions, mute, is_notify, includes_notify, notifies, default_level,
  notify_if, is_all, is_mentions, mention_actions, set_rule, set_default_chat_rules, find_rule,
  is_invite_for_me_enabled, set_invite_for_me_enabled,
}
use sudo_secure_communicatio.Notifications.Settings.Server.{change, on_kind, StoresRules}

-- A rule of the id is in the list.
abbrev pub has_rule : String → List PushRule → Bool
has_rule id rules = any (λ rule. rule.rule_id == id) rules

notifies-actions :
    (id j : String) (actions : List Action) (rules : List PushRule)
    → notifies id (change (λ rule. record rule { actions = some actions }) j rules)
      ≡ (if id == j then has_rule id rules && any is_notify actions else notifies id rules)
unfolding notifies
notifies-actions id j actions [] = ground arith
notifies-actions id j actions (rule ∷ rules) = ground (
  arith,
  notifies-actions id j actions rules,
  eq_iff rule.rule_id id,
  eq_iff rule.rule_id j,
  eq_iff id j,
)

notifies-enabled :
    (id j : String) (enabled : Bool) (rules : List PushRule)
    → notifies id (change (λ rule. record rule { enabled = enabled }) j rules) ≡ notifies id rules
unfolding notifies
notifies-enabled id j enabled [] = refl
notifies-enabled id j enabled (rule ∷ rules) = ground (arith, notifies-enabled id j enabled rules)

has_rule-actions :
    (id j : String) (actions : List Action) (rules : List PushRule)
    → has_rule id (change (λ rule. record rule { actions = some actions }) j rules)
      ≡ has_rule id rules
has_rule-actions id j actions [] = refl
has_rule-actions id j actions (rule ∷ rules) = ground (arith, has_rule-actions id j actions rules)

has_rule-enabled :
    (id j : String) (enabled : Bool) (rules : List PushRule)
    → has_rule id (change (λ rule. record rule { enabled = enabled }) j rules) ≡ has_rule id rules
has_rule-enabled id j enabled [] = refl
has_rule-enabled id j enabled (rule ∷ rules) = ground (arith, has_rule-enabled id j enabled rules)

-- The lists of rules that `set_rule` leaves.
abbrev after_rule : Kind → String → List Action → Bool → PushRules → PushRules
after_rule kind id actions enabled rules =
    on_kind kind (change (λ rule. record rule { enabled = enabled }) id)
      (on_kind kind (change (λ rule. record rule { actions = some actions }) id) rules)

abbrev of_kind : Kind → PushRules → List PushRule
of_kind override rules = or_else rules.override_rules []
of_kind underride rules = or_else rules.underride_rules []

-- Does the rule notify, and is it there?
abbrev pub notifies_in : Kind → String → PushRules → Bool
notifies_in kind id rules = notifies id (of_kind kind rules)

abbrev pub has_in : Kind → String → PushRules → Bool
has_in kind id rules = has_rule id (of_kind kind rules)

abbrev pub same_kind : Kind → Kind → Bool
same_kind override override = true
same_kind underride underride = true
same_kind _ _ = false

notifies-after_rule :
    (k kind : Kind) (id j : String) (actions : List Action) (enabled : Bool) (rules : PushRules)
    → notifies_in k id (after_rule kind j actions enabled rules) ≡ (
        if same_kind k kind && id == j
        then has_in k id rules && any is_notify actions
        else notifies_in k id rules)
notifies-after_rule override override id j actions enabled rules =
    simp (notifies-enabled, notifies-actions)
notifies-after_rule underride underride id j actions enabled rules =
    simp (notifies-enabled, notifies-actions)
notifies-after_rule override underride id j actions enabled rules = refl
notifies-after_rule underride override id j actions enabled rules = refl

has-after_rule :
    (k kind : Kind) (id j : String) (actions : List Action) (enabled : Bool) (rules : PushRules)
    → has_in k id (after_rule kind j actions enabled rules) ≡ has_in k id rules
has-after_rule override override id j actions enabled rules =
    simp (has_rule-enabled, has_rule-actions)
has-after_rule underride underride id j actions enabled rules =
    simp (has_rule-enabled, has_rule-actions)
has-after_rule override underride id j actions enabled rules = refl
has-after_rule underride override id j actions enabled rules = refl

module _ {S : Type 0} (api : PushApi S) (rules_of : S → PushRules)
    (stores : StoresRules api rules_of) where
  pub actions_are_stored :
      (kind : Kind) (id : String) (actions : List Action) (s t : S)
      → set_push_rule_actions api kind id actions s ≡ (ok tt, t)
      → rules_of t
        ≡ on_kind kind (change (λ rule. record rule { actions = some actions }) id) (rules_of s)
  unfolding set_push_rule_actions
  actions_are_stored kind id actions s t h = stores.sets_actions kind id actions s t (ground arith)

  pub flag_is_stored :
      (kind : Kind) (id : String) (enabled : Bool) (s t : S)
      → set_push_rule_enabled api kind id enabled s ≡ (ok tt, t)
      → rules_of t
        ≡ on_kind kind (change (λ rule. record rule { enabled = enabled }) id) (rules_of s)
  unfolding set_push_rule_enabled
  flag_is_stored kind id enabled s t h = stores.sets_enabled kind id enabled s t (ground arith)

  set_rule-after_rule :
      (kind : Kind) (id : String) (actions : List Action) (enabled : Bool) (s t : S)
      → set_rule api kind id actions enabled s ≡ (ok tt, t)
      → rules_of t ≡ after_rule kind id actions enabled (rules_of s)
  unfolding set_rule
  set_rule-after_rule kind id actions enabled s t h =
      let (_, u, first, second) =
        bind-eq-ok (set_push_rule_actions api kind id actions)
          (λ _. set_push_rule_enabled api kind id enabled) s t tt h in
      flag_is_stored kind id enabled u t second
      ∙ ap (on_kind kind (change (λ rule. record rule { enabled = enabled }) id))
          (actions_are_stored kind id actions s u first)

  -- What is left of two facts on the rules after a `set_rule`.
  pub notifies-set_rule :
      (k kind : Kind) (id j : String) (actions : List Action) (enabled : Bool) (s t : S)
      → set_rule api kind j actions enabled s ≡ (ok tt, t)
      → notifies_in k id (rules_of t) ≡ (
          if same_kind k kind && id == j
          then has_in k id (rules_of s) && any is_notify actions
          else notifies_in k id (rules_of s))
  notifies-set_rule k kind id j actions enabled s t h =
      rw (set_rule-after_rule kind j actions enabled s t h)
        (notifies-after_rule k kind id j actions enabled (rules_of s))

  pub has-set_rule :
      (k kind : Kind) (id j : String) (actions : List Action) (enabled : Bool) (s t : S)
      → set_rule api kind j actions enabled s ≡ (ok tt, t)
      → has_in k id (rules_of t) ≡ has_in k id (rules_of s)
  has-set_rule k kind id j actions enabled s t h =
      rw (set_rule-after_rule kind j actions enabled s t h)
        (has-after_rule k kind id j actions enabled (rules_of s))
