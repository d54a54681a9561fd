-- ===== src/Sessions/Tokens/Laws.antt =====
-- When a token's refresh is due.
use sudo_secure_communicatio.Prelude.{
  ℕ, ◌+◌, ◌*◌, ◌<◌, ◌≤◌, String, ◌≡◌, false, Option, some, List, ◌∷◌, Option-cases, leb, arith, inl,
  inr,
}
use sudo_secure_communicatio.Sessions.State.{Platform, Manager, Timer}
use sudo_secure_communicatio.Sessions.Tokens.{
  is_token_expired, is_token_expiring_soon, refresh_delay, waits_for, set_timer,
  schedule_token_refresh,
}

-- `setTimeout` keeps to delays of up to 2^31 - 1 milliseconds.
abbrev pub KeepsDelays : {S : Type 0} → Platform S → Type 0
KeepsDelays platform = (asked : ℕ) → asked ≤ 2147483647 → platform.timeout_delay asked ≡ asked

refresh_delay-first_due :
    (minutes now expiry delay later : ℕ)
    → refresh_delay minutes now expiry ≡ some delay
    → now ≤ later
    → later < expiry
    → (is_token_expired later expiry ≡ false)
      × (is_token_expiring_soon minutes later expiry ≡ leb (now * 1000 + delay) (later * 1000))
unfolding refresh_delay is_token_expired is_token_expiring_soon
refresh_delay-first_due minutes now expiry delay later h p q = ground arith

refresh_delay_le :
    (minutes now expiry delay : ℕ)
    → refresh_delay minutes now expiry ≡ some delay
    → expiry ≤ now + minutes * 60 + 2147483
    → delay ≤ 2147483647
unfolding refresh_delay
refresh_delay_le minutes now expiry delay h short = ground arith

-- If `setTimeout` keeps to delays of up to 2^31 - 1 milliseconds, and the token starts to expire
-- soon within 2147483 seconds (24.8 days), then the timer that scheduleTokenRefresh sets is the one
-- that it returns, for the handle, and falls due at the first second at which the token counts as
-- expiring soon: before it the token neither has expired nor expires soon, and from it on, until
-- the token has expired, it expires soon.
pub schedule_token_refresh-first_due :
    {S : Type 0} (platform : Platform S) (handle_id : String) (expiry id later : ℕ)
    (store_passphrase : Option String) (state t : Manager S) (timer : Timer) (rest : List Timer)
    → KeepsDelays platform
    → schedule_token_refresh platform handle_id expiry store_passphrase state ≡ (some id, t)
    → t.timers ≡ timer ∷ rest
    → expiry
      ≤ platform.now_seconds state.outside
        + platform.auto_refresh_token_minutes_before_expiration * 60
        + 2147483
    → platform.now_seconds state.outside ≤ later
    → later < expiry
    → (timer.id ≡ id)
      × (timer.handle_id ≡ handle_id)
      × (is_token_expired later expiry ≡ false)
      × (is_token_expiring_soon platform.auto_refresh_token_minutes_before_expiration later expiry
          ≡ leb (platform.now_seconds state.outside * 1000 + timer.delay) (later * 1000))
unfolding schedule_token_refresh waits_for set_timer
schedule_token_refresh-first_due platform handle_id expiry id later passphrase state t timer rest
      keeps scheduled newest short p q =
    let minutes = platform.auto_refresh_token_minutes_before_expiration in
    let now = platform.now_seconds state.outside in
    elim (Option-cases (refresh_delay minutes now expiry)) [
      | inl missing ↦ absurd (ground (arith, scheduled, missing))
      | inr (asked, found) ↦
          let (fresh, soon) = refresh_delay-first_due minutes now expiry asked later found p q in
          let kept = keeps asked (refresh_delay_le minutes now expiry asked found short) in
          let delay : timer.delay ≡ asked = ground (arith, scheduled, newest, found, kept) in
          (
            ground (arith, scheduled, newest, found),
            ground (arith, scheduled, newest, found),
            fresh,
            rw delay soon,
          )
    ]
