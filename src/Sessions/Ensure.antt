-- ===== src/Sessions/Ensure.antt =====
-- `ensureValidSession`, `getMatrixClient` and `createNewSession` of SessionManager.
pub mod Laws
use Prim.Native.String.{◌++◌}
use sudo_secure_communicatio.Prelude.{
  ℕ, ◌+◌, String, Bool, true, false, not, ◌&&◌, ◌||◌, Option, none, some, or_else, or_option,
  lookup, ◌==◌, if◌then◌else◌,
}
use sudo_secure_communicatio.Exec.{Exec, Result, ok, err, pure, pass, catch, ◌>>=◌, ◌>>◌}
use sudo_secure_communicatio.Sessions.State.{
  Claims, Client, Platform, Manager, Session, HandleStorage, in_memory, indexed_db, reach,
  put_session,
}
use sudo_secure_communicatio.Sessions.Tokens.{
  decode_token, is_expired_or_expiring_soon, schedule_token_refresh,
}
use sudo_secure_communicatio.Sessions.Refresh.{
  lift, get_access_token_from_service, ServiceToken, try_use_cached_session,
}

-- The result of getAccessTokenFromStorage
pub record StoredToken : Type 0 where
  pub token : String
  pub device_id : String
  pub is_valid : Bool

unfoldable pub client_of : Option Session → Option Client
client_of none = none
client_of (some session) = some session.matrix_client

module _ {S : Type 0} (platform : Platform S) where
  check_stored : Option String → Exec S (Option StoredToken)
  unfolding decode_token is_expired_or_expiring_soon
  check_stored none = pure none
  check_stored (some token) = if token == "" then pure none else (do
    claims ← lift (decode_token platform token)
    (λ s. (
      ok (
          some (record {
            token = token;
            device_id = claims.device_id;
            is_valid = not (is_expired_or_expiring_soon platform claims.exp s);
          })),
      s,
    )))

  -- getAccessTokenFromStorage
  get_access_token_from_storage : Option (HandleStorage S) → Exec S (Option StoredToken)
  unfolding check_stored
  get_access_token_from_storage none = pure none
  get_access_token_from_storage (some storage) = do
    stored ← storage.get_access_token
    check_stored stored

  stored_or_service : String → Option String → Option StoredToken → Exec S ServiceToken
  unfolding get_access_token_from_service
  stored_or_service handle_id device_id none =
      get_access_token_from_service platform handle_id device_id
  stored_or_service handle_id device_id (some stored) =
      if stored.is_valid
      then pure (record { token = stored.token; device_id = stored.device_id })
      else get_access_token_from_service platform handle_id (some stored.device_id)

  -- getAccessTokenFromStorageOrService
  get_access_token_from_storage_or_service :
      String → Option (HandleStorage S) → Option String → Exec S ServiceToken
  unfolding get_access_token_from_storage stored_or_service
  get_access_token_from_storage_or_service handle_id handle_storage device_id = do
    stored ← get_access_token_from_storage handle_storage
    stored_or_service handle_id device_id stored

  startup_store : Option (HandleStorage S) → Exec S Unit
  startup_store none = pass
  startup_store (some storage) = storage.startup

  init_crypto : String → Client → Option String → Option (HandleStorage S) → Exec S Unit
  unfolding startup_store
  init_crypto handle_id client store_passphrase handle_storage =
      if not platform.enable_crypto
      then pass
      else if not platform.has_indexed_db
      then platform.init_rust_crypto client in_memory
      else (do
        let prefix = "matrix-js-sdk:" ++ handle_id
        catch (platform.init_rust_crypto client (indexed_db prefix store_passphrase)) (λ e. do
          (λ s. pass (platform.delete_database (prefix ++ "::matrix-sdk-crypto") s))
          platform.init_rust_crypto client (indexed_db prefix store_passphrase))
        startup_store handle_storage)

  -- createMatrixClient; MatrixClientManager.signIn logs what the SDK throws
  unfoldable pub create_matrix_client :
      String → Client → Option String → Option (HandleStorage S) → Exec S Unit
  unfolding init_crypto
  create_matrix_client handle_id client store_passphrase handle_storage = do
    init_crypto handle_id client store_passphrase handle_storage
    catch (platform.login_request client) (λ e. pass)

  -- `new MatrixClientManager(token, …)`
  unfoldable pub new_client : String → Exec (Manager S) Client
  new_client token state =
      (ok (record { id = state.next; token = token }), record state { next = state.next + 1 })

  -- The part of createNewSession that sets the timer and stores the session, which throws nothing.
  unfoldable pub install : String → Client → Option String → Claims → Manager S → Manager S
  unfolding schedule_token_refresh put_session
  install handle_id client store_passphrase claims state =
      let (refresh_timeout, scheduled) =
        schedule_token_refresh platform handle_id claims.exp store_passphrase state in
      put_session handle_id
        (record {
          access_token = client.token;
          store_passphrase = store_passphrase;
          matrix_client = client;
          refresh_timeout = refresh_timeout;
        })
        scheduled

  unfoldable pub save_token : Option (HandleStorage S) → String → Exec S Unit
  save_token none token = pass
  save_token (some storage) token = storage.save_access_token token

  -- createNewSession
  unfoldable pub create_new_session :
      String → Option String → Option String → Exec (Manager S) String
  unfolding get_access_token_from_storage_or_service create_matrix_client new_client install
      save_token
  create_new_session handle_id store_passphrase device_id = do
    handle_storage ← reach (platform.use_handle_storage handle_id store_passphrase)
    service_token ←
        reach (get_access_token_from_storage_or_service handle_id handle_storage device_id)
    claims ← lift (decode_token platform service_token.token)
    client ← new_client service_token.token
    reach (create_matrix_client handle_id client store_passphrase handle_storage)
    (λ state. pass (install handle_id client store_passphrase claims state))
    reach (save_token handle_storage service_token.token)
    pure service_token.token

  -- `if (validAccessToken) return validAccessToken`
  token_or_new : String → Option String → Option String → Option String → Exec (Manager S) String
  unfolding create_new_session
  token_or_new handle_id store_passphrase device_id none =
      create_new_session handle_id store_passphrase device_id
  token_or_new handle_id store_passphrase device_id (some token) =
      if token == "" then create_new_session handle_id store_passphrase device_id else pure token

  cached_or_new : String → Option String → Option String → Option Session → Exec (Manager S) String
  unfolding token_or_new try_use_cached_session
  cached_or_new handle_id store_passphrase device_id none =
      create_new_session handle_id store_passphrase device_id
  cached_or_new handle_id store_passphrase device_id (some cached) = do
    let new_store_passphrase = or_option cached.store_passphrase store_passphrase
    valid ← try_use_cached_session platform handle_id cached new_store_passphrase
    token_or_new handle_id new_store_passphrase device_id valid

  -- ensureValidSessionBody
  unfoldable pub ensure_valid_session :
      String → Option String → Option String → Exec (Manager S) String
  unfolding cached_or_new
  ensure_valid_session handle_id store_passphrase device_id state =
      cached_or_new handle_id store_passphrase device_id (lookup handle_id state.sessions) state

  -- getMatrixClient; `none` is the `undefined` that its `!` rules out
  unfoldable pub get_matrix_client : String → Option String → Exec (Manager S) (Option Client)
  unfolding client_of
  get_matrix_client handle_id device_id = do
    ensure_valid_session handle_id none device_id
    (λ state. (ok (client_of (lookup handle_id state.sessions)), state))
