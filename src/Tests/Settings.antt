-- ===== src/Tests/Settings.antt =====
-- The theorem on the default rules of notifications at a concrete input.
use sudo_secure_communicatio.Prelude.{◌≡◌, refl}
use sudo_secure_communicatio.Notifications.Settings.{mentions, set_default_chat_rules, to_settings}
use sudo_secure_communicatio.Notifications.Settings.Laws.Default.{
  set_default_chat_rules-default_level,
}
use sudo_secure_communicatio.Tests.Samples.{push_api, push_rules, push_api-StoresRules}

set_default_chat_rules-default_level_example :
    (to_settings (set_default_chat_rules push_api mentions push_rules).1).default_chat_rules
    ≡ mentions
unfolding set_default_chat_rules
set_default_chat_rules-default_level_example =
    set_default_chat_rules-default_level push_api (λ rules. rules) push_api-StoresRules mentions
      push_rules (set_default_chat_rules push_api mentions push_rules).1 refl refl refl
