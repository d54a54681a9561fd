-- ===== src/Notifications/Settings/Laws/Default.antt =====
-- The default chat rules that getSettings reads after setDefaultChatRules has set them.
use sudo_secure_communicatio.Prelude.{true, ◌≡◌, ◌∙◌, ap, ◌&&◌, any, arith, String}
use sudo_secure_communicatio.Exec.{ok}
use sudo_secure_communicatio.Exec.Laws.{bind-eq-ok}
use sudo_secure_communicatio.Notifications.Rules.{override, underride, PushRules, PushApi}
use sudo_secure_communicatio.Notifications.Settings.{
  MessageLevel, all_messages, mentions, mute, default_level, notify_if, is_all, is_notify,
  is_mentions, mention_actions, set_rule, set_default_chat_rules, to_settings,
}
use sudo_secure_communicatio.Notifications.Settings.Server.{StoresRules}
use sudo_secure_communicatio.Notifications.Settings.Laws.{
  has_in, notifies_in, notifies-set_rule, has-set_rule,
}

default_level_of :
    (level : MessageLevel) (rules : PushRules)
    → notifies_in underride ".m.rule.message" rules ≡ any is_notify (notify_if (is_all level))
    → notifies_in override ".m.rule.is_user_mention" rules ≡ any is_notify (mention_actions level)
    → default_level rules ≡ level
unfolding default_level
default_level_of all_messages rules message mention = ground arith
default_level_of mentions rules message mention = ground arith
default_level_of mute rules message mention = ground arith

module _ {S : Type 0} (api : PushApi S) (rules_of : S → PushRules)
    (stores : StoresRules api rules_of) where
  -- The message rule is set first, and no later step touches it; the mention rule is the fourth.
  pub set_default_chat_rules-default_level :
      (level : MessageLevel) (s t : S)
      → has_in underride ".m.rule.message" (rules_of s) ≡ true
      → has_in override ".m.rule.is_user_mention" (rules_of s) ≡ true
      → set_default_chat_rules api level s ≡ (ok tt, t)
      → (to_settings (rules_of t)).default_chat_rules ≡ level
  unfolding set_default_chat_rules to_settings
  set_default_chat_rules-default_level level s t message mention h =
      let all = is_all level in
      let actions = notify_if all in
      let also = mention_actions level in
      let at = is_mentions level in
      let (_, s1, h1, r1) =
        bind-eq-ok (set_rule api underride ".m.rule.message" actions all) _ s t tt h in
      let (_, s2, h2, r2) =
        bind-eq-ok (set_rule api underride ".m.rule.encrypted" actions all) _ s1 t tt r1 in
      let (_, s3, h3, r3) =
        bind-eq-ok (set_rule api override ".m.rule.contains_display_name" actions all) _ s2 t tt
          r2 in
      let (_, s4, h4, r4) =
        bind-eq-ok (set_rule api override ".m.rule.is_user_mention" also at) _ s3 t tt r3 in
      let (_, s5, h5, h6) =
        bind-eq-ok (set_rule api override ".m.rule.roomnotif" also at) _ s4 t tt r4 in
      let stays = notifies-set_rule api rules_of stores underride in
      let moves = notifies-set_rule api rules_of stores override in
      let kept = has-set_rule api rules_of stores override in
      let user_mention : String = ".m.rule.is_user_mention" in
      let known =
        kept override user_mention ".m.rule.contains_display_name" actions all s2 s3 h3
        ∙ kept underride user_mention ".m.rule.encrypted" actions all s1 s2 h2
        ∙ kept underride user_mention ".m.rule.message" actions all s s1 h1
        ∙ mention in
      default_level_of level (rules_of t)
        (stays override ".m.rule.message" ".m.rule.is_room_mention" also at s5 t h6
          ∙ stays override ".m.rule.message" ".m.rule.roomnotif" also at s4 s5 h5
          ∙ stays override ".m.rule.message" user_mention also at s3 s4 h4
          ∙ stays override ".m.rule.message" ".m.rule.contains_display_name" actions all s2 s3 h3
          ∙ stays underride ".m.rule.message" ".m.rule.encrypted" actions all s1 s2 h2
          ∙ stays underride ".m.rule.message" ".m.rule.message" actions all s s1 h1
          ∙ ap (λ b. b && any is_notify actions) message)
        (moves override user_mention ".m.rule.is_room_mention" also at s5 t h6
          ∙ moves override user_mention ".m.rule.roomnotif" also at s4 s5 h5
          ∙ moves override user_mention user_mention also at s3 s4 h4
          ∙ ap (λ b. b && any is_notify also) known)
