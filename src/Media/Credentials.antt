-- ===== src/Media/Credentials.antt =====
-- `getRoomMediaCredential` of MediaCredentialManager and its cache
-- (src/private/data/media/mediaCredentialManager.ts). The cache is a JavaScript `Map` whose keys are
-- objects, which a `Map` compares by identity: an object is its address, and each object literal
-- has a new one.
pub mod Laws
use sudo_secure_communicatio.Prelude.{
  ℕ, ◌+◌, String, Bool, Option, none, some, List, [], ◌∷◌, nat_eq, ltb, if◌then◌else◌,
}
use sudo_secure_communicatio.Exec.{Exec, Result, ok, err}
use sudo_secure_communicatio.Media.Entities.{MediaCredential, RoomMediaCredential}

-- MediaCredentialCacheKey, an object at an address
pub record CacheKey : Type 0 where
  pub address : ℕ
  pub handle_id : String
  pub for_write : Bool
  pub room_id : String

abbrev pub Cache : Type 0
Cache = List (CacheKey × RoomMediaCredential)

-- `Map.get` and `Map.set` on keys that are objects
unfoldable pub find_key : CacheKey → Cache → Option RoomMediaCredential
find_key key [] = none
find_key key ((other, credential) ∷ cache) =
    if nat_eq other.address key.address then some credential else find_key key cache

unfoldable pub set_key : CacheKey → RoomMediaCredential → Cache → Cache
set_key key credential [] = (key, credential) ∷ []
set_key key credential ((other, old) ∷ cache) =
    if nat_eq other.address key.address
    then (other, credential) ∷ cache
    else (other, old) ∷ set_key key credential cache

-- The manager's state: `next` is the address of the next object, `service` the state of
-- MediaCredentialService's side.
pub record Manager (S : Type 0) : Type 0 where
  pub cache : Cache
  pub next : ℕ
  pub service : S

-- The configuration that is read, and MediaCredentialService's `get`.
pub record Config (S : Type 0) : Type 0 where
  pub room_media_bucket : String
  pub region : String
  pub get_credential : String → Bool → String → Exec S RoomMediaCredential

module _ {S : Type 0} (config : Config S) where
  to_media_credential : Bool → RoomMediaCredential → MediaCredential
  to_media_credential for_write credential = record {
    credential = credential.credential;
    bucket = config.room_media_bucket;
    region = config.region;
    key_prefix = some credential.key_prefix;
    for_write = for_write;
  }

  store_fetched : CacheKey → Result RoomMediaCredential × S → Exec (Manager S) MediaCredential
  unfolding set_key to_media_credential
  store_fetched key (ok credential, service) state = (
    ok (to_media_credential key.for_write credential),
    record state { cache = set_key key credential state.cache; service = service },
  )
  store_fetched key (err e, service) state = (err e, record state { service = service })

  fetch : CacheKey → Exec (Manager S) MediaCredential
  unfolding store_fetched
  fetch key state =
      store_fetched key
        (config.get_credential key.handle_id key.for_write key.room_id state.service) state

  -- `cached && cached.expiry > Date.now() + 120_000`
  use_or_fetch : CacheKey → ℕ → Option RoomMediaCredential → Exec (Manager S) MediaCredential
  unfolding fetch to_media_credential
  use_or_fetch key now none = fetch key
  use_or_fetch key now (some cached) =
      if ltb (now + 120000) cached.expiry
      then (λ state. (ok (to_media_credential key.for_write cached), state))
      else fetch key

  -- `now` is `Date.now()`
  unfoldable pub get_room_media_credential :
      ℕ → String → Bool → String → Exec (Manager S) MediaCredential
  unfolding use_or_fetch find_key
  get_room_media_credential now handle_id for_write room_id state =
      let key : CacheKey = record {
        address = state.next;
        handle_id = handle_id;
        for_write = for_write;
        room_id = room_id;
      } in
      use_or_fetch key now (find_key key state.cache) (record state { next = state.next + 1 })
