-- ===== src/Sessions/State.antt =====
-- What SessionManager keeps, and what it is given. Work for one handle is serialized by
-- `runSessionWorkSerialized`, so a call of `ensureValidSession` is one action.
use sudo_secure_communicatio.Prelude.{
  ℕ, String, Bool, Option, none, some, List, not, nat_eq, keep, Dict, insert, remove,
}
use sudo_secure_communicatio.Exec.{Exec}

-- The claims that `JWT.decode` finds: `exp` in seconds, and the device.
pub record Claims : Type 0 where
  pub exp : ℕ
  pub device_id : String

-- A MatrixClientManager: the object's number and the access token that it uses.
pub record Client : Type 0 where
  pub id : ℕ
  pub token : String

-- An entry of `sessions`
pub record Session : Type 0 where
  pub access_token : String
  pub store_passphrase : Option String
  pub matrix_client : Client
  pub refresh_timeout : Option ℕ

-- A timer that has been set and neither cleared nor fired; the delay is the one after which it
-- fires, in milliseconds.
pub record Timer : Type 0 where
  pub id : ℕ
  pub handle_id : String
  pub store_passphrase : Option String
  pub delay : ℕ

-- `secureCommsStore.sessionAPIs` and `matrixStore` of an open HandleStorage
pub record HandleStorage (S : Type 0) : Type 0 where
  pub get_access_token : Exec S (Option String)
  pub save_access_token : String → Exec S Unit
  pub delete_access_token : Exec S Unit
  pub startup : Exec S Unit

-- The options of `initRustCrypto`: none for the memory store, or the prefix of the database and
-- its password.
pub data CryptoStore : Type 0 where
  in_memory : CryptoStore
  indexed_db : String → Option String → CryptoStore

-- What the manager calls: the clock, `uuid`, after how many milliseconds `setTimeout` fires if it is
-- asked for some (JavaScript's engines document it to take no more than 2^31 - 1), `jsonwebtoken`,
-- SessionService, StorageModule, the methods of MatrixClientManager that reach the SDK, and
-- IndexedDB. `S` is their state.
pub record Platform (S : Type 0) : Type 0 where
  pub now_seconds : S → ℕ
  pub v4 : S → String × S
  pub timeout_delay : ℕ → ℕ
  pub decode : String → Option Claims
  pub get_session_token : String → String → Exec S String
  pub use_handle_storage : String → Option String → Exec S (Option (HandleStorage S))
  pub close_handle_storage : String → Exec S Unit
  pub delete_handle_storage : String → Exec S Unit
  pub stop_client : Client → Exec S Unit
  pub clear_rust_crypto : Client → String → Exec S Unit
  pub init_rust_crypto : Client → CryptoStore → Exec S Unit
  pub delete_database : String → S → S
  pub login_request : Client → Exec S Unit
  pub has_indexed_db : Bool
  pub auto_refresh_token_minutes_before_expiration : ℕ
  pub enable_crypto : Bool

pub record Manager (S : Type 0) : Type 0 where
  pub sessions : Dict Session
  pub timers : List Timer
  pub next : ℕ
  pub outside : S

module _ {S : Type 0} where
  -- An action on the outside alone.
  abbrev pub reach : {A : Type 0} → Exec S A → Exec (Manager S) A
  reach m state = let (r, s) = m state.outside in (r, record state { outside = s })

  -- `clearTimeout`
  unfoldable pub clear_timeout : Option ℕ → Manager S → Manager S
  clear_timeout none state = state
  clear_timeout (some id) state = record state {
    timers = keep (λ timer. not (nat_eq timer.id id)) state.timers;
  }

  -- `this.sessions[handleId] = session`
  unfoldable pub put_session : String → Session → Manager S → Manager S
  unfolding insert
  put_session handle_id session state = record state {
    sessions = insert handle_id session state.sessions;
  }

  -- `delete this.sessions[handleId]`
  unfoldable pub drop_session : String → Manager S → Manager S
  unfolding remove
  drop_session handle_id state = record state { sessions = remove handle_id state.sessions }
