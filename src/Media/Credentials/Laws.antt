-- ===== src/Media/Credentials/Laws.antt =====
-- Sequences of calls of get_room_media_credential and their cache.
use sudo_secure_communicatio.Prelude.{
  ℕ, ◌+◌, ◌<◌, ◌≡◌, refl, ◌∙◌, ap, String, Bool, none, List, [], ◌∷◌, All, arith,
}
use sudo_secure_communicatio.Exec.{Result, ok, err}
use sudo_secure_communicatio.Media.Entities.{MediaCredential, RoomMediaCredential}
use sudo_secure_communicatio.Media.Credentials.{
  CacheKey, Cache, find_key, set_key, Manager, Config, store_fetched, use_or_fetch,
  get_room_media_credential,
}

-- Every key of the cache is an object that has been allocated.
abbrev pub IsAllocated : {S : Type 0} → Manager S → Type 0
IsAllocated state = All (λ entry. entry.0.address < state.next) state.cache

find_key-fresh :
    (key : CacheKey) (cache : Cache)
    → All (λ entry. entry.0.address < key.address) cache
    → find_key key cache ≡ none
unfolding find_key
find_key-fresh key [] h = refl
find_key-fresh key ((other, credential) ∷ cache) (lower, h) =
    ground (arith, find_key-fresh key cache h)

set_key-allocated :
    (key : CacheKey) (credential : RoomMediaCredential) (n : ℕ) (cache : Cache)
    → key.address < n
    → All (λ entry. entry.0.address < key.address) cache
    → All (λ entry. entry.0.address < n) (set_key key credential cache)
unfolding set_key
set_key-allocated key credential n [] below h = (below, tt)
set_key-allocated key credential n ((other, old) ∷ cache) below (lower, h) =
    ground (arith, set_key-allocated key credential n cache below h)

weaken :
    (n : ℕ) (cache : Cache)
    → All (λ entry. entry.0.address < n) cache
    → All (λ entry. entry.0.address < n + 1) cache
weaken n [] h = tt
weaken n (entry ∷ cache) (lower, h) = (omega arith, weaken n cache h)

-- A call of `getRoomMediaCredential`, at the time `now`.
pub record Call : Type 0 where
  pub now : ℕ
  pub handle_id : String
  pub for_write : Bool
  pub room_id : String

module _ {S : Type 0} (config : Config S) where
  abbrev pub call : Call → Manager S → Result MediaCredential × Manager S
  call c = get_room_media_credential config c.now c.handle_id c.for_write c.room_id

  -- the manager after the calls
  pub run : List Call → Manager S → Manager S
  run [] state = state
  run (c ∷ calls) state = run calls (call c state).1

  -- the service after it has been asked for each call's credential
  pub ask_all : List Call → S → S
  ask_all [] service = service
  ask_all (c ∷ calls) service =
      ask_all calls (config.get_credential c.handle_id c.for_write c.room_id service).1

  abbrev key_of : Call → Manager S → CacheKey
  key_of c state = record {
    address = state.next;
    handle_id = c.handle_id;
    for_write = c.for_write;
    room_id = c.room_id;
  }

  call-fetches :
      (c : Call) (state : Manager S)
      → IsAllocated state
      → call c state
        ≡ store_fetched config
            (key_of c state)
            (config.get_credential c.handle_id c.for_write c.room_id state.service)
            (record state { next = state.next + 1 })
  unfolding get_room_media_credential
  call-fetches c state allocated =
      rw (find_key-fresh (key_of c state) state.cache allocated, find_key, use_or_fetch)

  store_fetched-IsAllocated :
      (key : CacheKey) (answer : Result RoomMediaCredential) (service : S) (state : Manager S)
      → key.address < state.next
      → All (λ entry. entry.0.address < key.address) state.cache
      → All (λ entry. entry.0.address < state.next) state.cache
      → IsAllocated (store_fetched config key (answer, service) state).1
  unfolding store_fetched
  store_fetched-IsAllocated key (ok credential) service state below h wide =
      set_key-allocated key credential state.next state.cache below h
  store_fetched-IsAllocated key (err e) service state below h wide = wide

  call-IsAllocated :
      (c : Call) (state : Manager S) → IsAllocated state → IsAllocated (call c state).1
  call-IsAllocated c state allocated =
      let (answer, service) =
        config.get_credential c.handle_id c.for_write c.room_id state.service in
      rw (call-fetches c state allocated) (
        store_fetched-IsAllocated (key_of c state) answer service
          (record state { next = state.next + 1 }) (omega arith) allocated
          (weaken state.next state.cache allocated))

  call-asks :
      (c : Call) (state : Manager S)
      → IsAllocated state
      → (call c state).1.service
        ≡ (config.get_credential c.handle_id c.for_write c.room_id state.service).1
  unfolding store_fetched
  call-asks c state allocated = rw (call-fetches c state allocated) (ground arith)

  run-asks :
      (calls : List Call) (state : Manager S)
      → IsAllocated state
      → (run calls state).service ≡ ask_all calls state.service
  unfolding run ask_all
  run-asks [] state allocated = refl
  run-asks (c ∷ calls) state allocated =
      run-asks calls (call c state).1 (call-IsAllocated c state allocated)
      ∙ ap (ask_all calls) (call-asks c state allocated)

  -- From an empty cache, whatever calls are made and however soon they follow one another, each
  -- call asks the service for a credential: the cache answers none of them.
  pub cache_never_hits :
      (calls : List Call) (next : ℕ) (service : S)
      → (run calls (record { cache = []; next = next; service = service })).service
        ≡ ask_all calls service
  cache_never_hits calls next service =
      run-asks calls (record { cache = []; next = next; service = service }) tt
