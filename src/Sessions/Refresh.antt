-- ===== src/Sessions/Refresh.antt =====
-- The use of a cached session: `tryUseCachedSession`, `handleExpiredToken` and
-- `refreshCachedSessionToken` of SessionManager.
pub mod Laws
use sudo_secure_communicatio.Prelude.{
  String, Bool, true, false, not, ◌&&◌, Option, none, some, or_else, ◌==◌, if◌then◌else◌,
}
use sudo_secure_communicatio.Exec.{Exec, Result, ok, err, pure, pass, catch, ◌>>=◌, ◌>>◌}
use sudo_secure_communicatio.Sessions.State.{
  Claims, Client, Platform, Manager, Session, HandleStorage, reach, clear_timeout, put_session,
}
use sudo_secure_communicatio.Sessions.Tokens.{
  decode_token, is_expired, is_expired_or_expiring_soon, schedule_token_refresh,
}
use sudo_secure_communicatio.Sessions.Delete.{delete_session}

-- a synchronous call that may throw
abbrev pub lift : {S A : Type 0} → Result A → Exec S A
lift r s = (r, s)

pub record ServiceToken : Type 0 where
  pub token : String
  pub device_id : String

module _ {S : Type 0} (platform : Platform S) where
  device_or_new : Option String → Exec S String
  device_or_new none s = let (id, t) = platform.v4 s in (ok id, t)
  device_or_new (some device_id) s = (ok device_id, s)

  -- getAccessTokenFromService
  unfoldable pub get_access_token_from_service : String → Option String → Exec S ServiceToken
  unfolding device_or_new decode_token
  get_access_token_from_service handle_id device_id = do
    device ← device_or_new device_id
    token ← platform.get_session_token handle_id device
    claims ← lift (decode_token platform token)
    pure (record { token = token; device_id = or_else device_id claims.device_id })

  save_token : Option (HandleStorage S) → String → Exec S Unit
  save_token none token = pass
  save_token (some storage) token = storage.save_access_token token

  -- `useHandleStorage` and `saveAccessToken`
  unfoldable pub store_token : String → Option String → String → Exec S Unit
  unfolding save_token
  store_token handle_id store_passphrase token = do
    handle_storage ← platform.use_handle_storage handle_id store_passphrase
    save_token handle_storage token

  -- The part of refreshCachedSessionToken between its calls of the service and of the storage,
  -- which throws nothing: the timers, the client's token and the session.
  unfoldable pub renew : String → Session → Option String → String → Claims → Manager S → Manager S
  unfolding clear_timeout schedule_token_refresh put_session
  renew handle_id cached store_passphrase new_token claims state =
      let (refresh_timeout, scheduled) =
        schedule_token_refresh platform handle_id claims.exp store_passphrase
          (clear_timeout cached.refresh_timeout state) in
      put_session handle_id
        (record {
          access_token = new_token;
          store_passphrase = store_passphrase;
          matrix_client = record cached.matrix_client { token = new_token };
          refresh_timeout = refresh_timeout;
        })
        scheduled

  unfoldable pub refresh :
      String → Session → String → Option String → Exec (Manager S) (Option String)
  unfolding get_access_token_from_service renew
  refresh handle_id cached device_id store_passphrase = do
    new_session ← reach (get_access_token_from_service handle_id (some device_id))
    claims ← lift (decode_token platform new_session.token)
    (λ state. pass (renew handle_id cached store_passphrase new_session.token claims state))
    reach (store_token handle_id store_passphrase new_session.token)
    pure (some new_session.token)

  -- refreshCachedSessionToken
  unfoldable pub refresh_cached_session_token :
      String → Session → String → Option String → Exec (Manager S) (Option String)
  unfolding refresh
  refresh_cached_session_token handle_id cached device_id store_passphrase =
      catch (refresh handle_id cached device_id store_passphrase)
        (λ e. do delete_session platform handle_id false; pure none)

  -- handleExpiredToken
  unfoldable pub handle_expired_token : String → Exec (Manager S) (Option String)
  handle_expired_token handle_id = do delete_session platform handle_id false; pure none

  -- MatrixClientManager.isUsingToken
  abbrev pub is_using_token : Client → String → Bool
  is_using_token client token = token == client.token

  unfoldable pub try_with :
      String → Session → Option String → Claims → Exec (Manager S) (Option String)
  unfolding is_expired_or_expiring_soon is_expired handle_expired_token refresh_cached_session_token
  try_with handle_id cached store_passphrase claims state =
      if not (is_expired_or_expiring_soon platform claims.exp state.outside)
        && is_using_token cached.matrix_client cached.access_token
      then (ok (some cached.access_token), state)
      else if is_expired platform claims.exp state.outside
      then handle_expired_token handle_id state
      else refresh_cached_session_token handle_id cached claims.device_id store_passphrase state

  -- tryUseCachedSession
  unfoldable pub try_use_cached_session :
      String → Session → Option String → Exec (Manager S) (Option String)
  unfolding try_with decode_token
  try_use_cached_session handle_id cached store_passphrase = do
    claims ← lift (decode_token platform cached.access_token)
    try_with handle_id cached store_passphrase claims
