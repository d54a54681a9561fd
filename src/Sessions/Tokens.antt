-- ===== src/Sessions/Tokens.antt =====
-- Tokens: their claims, whether they have expired or soon will, and the timer that refreshes them.
pub mod Laws
use sudo_secure_communicatio.Prelude.{
  ℕ, ◌+◌, ◌-◌, ◌*◌, String, Bool, ◌&&◌, ◌||◌, Option, none, some, List, [], ◌∷◌, ◌++◌, ◌==◌, nat_eq,
  ltb, leb, if◌then◌else◌,
}
use sudo_secure_communicatio.Errors.{Error, thrown, plain}
use sudo_secure_communicatio.Exec.{Exec, Result, ok, err}
use sudo_secure_communicatio.Sessions.State.{Claims, Platform, Manager, Timer}

pub invalid_token : Error
invalid_token = thrown plain (some "Invalid token")

unfoldable pub checked_claims : Option Claims → Result Claims
unfolding invalid_token
checked_claims none = err invalid_token
checked_claims (some claims) =
    if nat_eq claims.exp 0 || claims.device_id == "" then err invalid_token else ok claims

-- isTokenExpired: `expiry - now <= 0`
unfoldable pub is_token_expired : ℕ → ℕ → Bool
is_token_expired now expiry = leb expiry now

-- isTokenExpiringSoon: `timeUntilExpiry > 0 && timeUntilExpiry <= refreshThresholdSeconds`
unfoldable pub is_token_expiring_soon : ℕ → ℕ → ℕ → Bool
is_token_expiring_soon minutes now expiry = ltb now expiry && leb expiry (now + minutes * 60)

-- The delay that scheduleTokenRefresh asks `setTimeout` for, in milliseconds, if it sets a timer.
unfoldable pub refresh_delay : ℕ → ℕ → ℕ → Option ℕ
refresh_delay minutes now expiry =
    if ltb 0 minutes && ltb (now + minutes * 60) expiry
    then some ((expiry - now - minutes * 60) * 1000)
    else none

-- the call of `setTimeout`, with the delay after which it fires
unfoldable pub set_timer :
    {S : Type 0} → String → Option String → Option ℕ → Manager S → Option ℕ × Manager S
set_timer handle_id store_passphrase none state = (none, state)
set_timer handle_id store_passphrase (some delay) state = (
  some state.next,
  record state {
    timers =
        record {
          id = state.next;
          handle_id = handle_id;
          store_passphrase = store_passphrase;
          delay = delay;
        }
        ∷ state.timers;
    next = state.next + 1;
  },
)

module _ {S : Type 0} (platform : Platform S) where
  -- decodeToken
  unfoldable pub decode_token : String → Result Claims
  unfolding checked_claims
  decode_token token = checked_claims (platform.decode token)

  -- isTokenExpiredOrExpiringSoon and its parts, at the present time
  unfoldable pub is_expired : ℕ → S → Bool
  unfolding is_token_expired
  is_expired expiry s = is_token_expired (platform.now_seconds s) expiry

  unfoldable pub is_expired_or_expiring_soon : ℕ → S → Bool
  unfolding is_expired is_token_expiring_soon
  is_expired_or_expiring_soon expiry s =
      is_expired expiry s
      || is_token_expiring_soon platform.auto_refresh_token_minutes_before_expiration
          (platform.now_seconds s) expiry

  waits_for : Option ℕ → Option ℕ
  waits_for none = none
  waits_for (some asked) = some (platform.timeout_delay asked)

  -- scheduleTokenRefresh
  unfoldable pub schedule_token_refresh :
      String → ℕ → Option String → Manager S → Option ℕ × Manager S
  unfolding set_timer refresh_delay waits_for
  schedule_token_refresh handle_id expiry store_passphrase state =
      set_timer handle_id store_passphrase
        (waits_for (
          refresh_delay platform.auto_refresh_token_minutes_before_expiration
            (platform.now_seconds state.outside) expiry))
        state
