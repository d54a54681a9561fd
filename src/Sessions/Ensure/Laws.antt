-- ===== src/Sessions/Ensure/Laws.antt =====
-- What ensureValidSession and getMatrixClient leave and return.
use mathlib.Core.Path.{subst}
use sudo_secure_communicatio.Prelude.{
  String, ◌≡◌, refl, inl, inr, Option, none, some, false, ◌+◌, lookup, lookup-insert, eq_iff,
  eq_refl, or_option, Option-cases, ◌==◌, arith,
}
use sudo_secure_communicatio.Exec.{Exec, Result, Result-cases, ok, err, pure, ◌>>=◌}
use sudo_secure_communicatio.Exec.Laws.{post-bind, bind-eq-ok}
use sudo_secure_communicatio.Sessions.State.{
  Claims, Client, Platform, Manager, Session, HandleStorage, reach,
}
use sudo_secure_communicatio.Sessions.Invariant.{
  TimersOwned, absent-NoTimerOf, schedule-TimersOwned,
}
use sudo_secure_communicatio.Sessions.Tokens.{decode_token, schedule_token_refresh}
use sudo_secure_communicatio.Sessions.Delete.Laws.{after-reach}
use sudo_secure_communicatio.Sessions.Refresh.{try_use_cached_session}
use sudo_secure_communicatio.Sessions.Refresh.Laws.{Holds, Tried, try_use_cached_session-Tried}
use sudo_secure_communicatio.Sessions.Ensure.{
  install, save_token, create_matrix_client, new_client, get_access_token_from_storage_or_service,
  create_new_session, token_or_new, cached_or_new, ensure_valid_session, client_of,
  get_matrix_client,
}

-- The timers are owned, and a token that is returned is held.
abbrev pub Ensured : {S : Type 0} → String → Result String × Manager S → Type 0
Ensured handle_id (err e, t) = TimersOwned t
Ensured handle_id (ok token, t) = TimersOwned t × Holds handle_id token t

-- The state that createNewSession begins with.
abbrev Ready : {S : Type 0} → String → Manager S → Type 0
Ready handle_id state = TimersOwned state × (lookup handle_id state.sessions ≡ none)

module _ {S : Type 0} (platform : Platform S) (handle_id : String) where
  install-Holds :
      (client : Client) (passphrase : Option String) (claims : Claims) (state : Manager S)
      → Ready handle_id state
      → TimersOwned (install platform handle_id client passphrase claims state)
        × Holds handle_id client.token (install platform handle_id client passphrase claims state)
  unfolding install
  install-Holds client passphrase claims state (h, absent) =
      let scheduled = schedule_token_refresh platform handle_id claims.exp passphrase state in
      let session : Session = record {
        access_token = client.token;
        store_passphrase = passphrase;
        matrix_client = client;
        refresh_timeout = scheduled.0;
      } in
      (
        schedule-TimersOwned handle_id state platform claims.exp passphrase session
            (absent-NoTimerOf handle_id state h absent) refl,
        (
          session,
          rw (lookup-insert handle_id handle_id session scheduled.1.sessions, eq_refl handle_id),
          refl,
          refl,
        ),
      )

  -- createNewSession from `install` on
  finish : Option (HandleStorage S) → String → Exec (Manager S) String
  finish handle_storage token = reach (save_token platform handle_storage token) >>= λ _. pure token

  finish-Ensured :
      (handle_storage : Option (HandleStorage S)) (token : String) (t : Manager S)
      → TimersOwned t
      → Holds handle_id token t
      → Ensured handle_id (finish handle_storage token t)
  unfolding finish
  finish-Ensured handle_storage token t h held =
      let action = save_token platform handle_storage token in
      post-bind (Ensured handle_id) (reach action) _ t
        (λ e u done. after-reach TimersOwned action t u h done)
        (λ a u done. (
          after-reach TimersOwned action t u h done,
          after-reach (Holds handle_id token) action t u held done,
        ))

  -- createNewSession from `createMatrixClient` on
  start : Option (HandleStorage S) → Option String → Claims → Client → Exec (Manager S) String
  start handle_storage passphrase claims client =
      reach (create_matrix_client platform handle_id client passphrase handle_storage) >>= λ _ t.
      finish handle_storage client.token (install platform handle_id client passphrase claims t)

  start-Ensured :
      (handle_storage : Option (HandleStorage S)) (passphrase : Option String) (claims : Claims)
      (client : Client) (state : Manager S)
      → Ready handle_id state
      → Ensured handle_id (start handle_storage passphrase claims client state)
  unfolding start
  start-Ensured handle_storage passphrase claims client state ready =
      let action = create_matrix_client platform handle_id client passphrase handle_storage in
      post-bind (Ensured handle_id) (reach action) _ state
        (λ e t done. (after-reach (Ready handle_id) action state t ready done).0)
        (λ a t done.
          let (h, held) =
            install-Holds client passphrase claims t
              (after-reach (Ready handle_id) action state t ready done) in
          finish-Ensured handle_storage client.token
            (install platform handle_id client passphrase claims t) h held)

  create_new_session-Ensured :
      (passphrase device_id : Option String) (state : Manager S)
      → Ready handle_id state
      → Ensured handle_id (create_new_session platform handle_id passphrase device_id state)
  unfolding create_new_session new_client start finish
  create_new_session-Ensured passphrase device_id state ready =
      let use_storage = platform.use_handle_storage handle_id passphrase in
      post-bind (Ensured handle_id) (reach use_storage) _ state
        (λ e t done. (after-reach (Ready handle_id) use_storage state t ready done).0)
        (λ handle_storage t done.
          let ready_t = after-reach (Ready handle_id) use_storage state t ready done in
          let get_token =
            get_access_token_from_storage_or_service platform handle_id handle_storage device_id in
          post-bind (Ensured handle_id) (reach get_token) _ t
            (λ e u got. (after-reach (Ready handle_id) get_token t u ready_t got).0)
            (λ service_token u got.
              let ready_u = after-reach (Ready handle_id) get_token t u ready_t got in
              elim (Result-cases (decode_token platform service_token.token)) [
                | inr (e, failed) ↦ rw failed ready_u.0
                | inl (claims, decoded) ↦ rw decoded (
                    start-Ensured handle_storage passphrase claims
                      (record { id = u.next; token = service_token.token })
                      (record u { next = u.next + 1 }) ready_u)
              ]))

  token_or_new-Ensured :
      (passphrase device_id valid : Option String) (t : Manager S)
      → Tried handle_id (ok valid, t)
      → Ensured handle_id (token_or_new platform handle_id passphrase device_id valid t)
  unfolding token_or_new
  token_or_new-Ensured passphrase device_id none t tried =
      create_new_session-Ensured passphrase device_id t tried
  token_or_new-Ensured passphrase device_id (some token) t (h, held, full) =
      let e : (token == "") ≡ false = ground (arith, eq_iff token "") in rw e (h, held)

module _ {S : Type 0} (platform : Platform S) (no_claims : platform.decode "" ≡ none)
    (handle_id : String) (passphrase device_id : Option String) (state : Manager S)
    (owned : TimersOwned state) where
  cached-Ensured :
      (cached : Session)
      → lookup handle_id state.sessions ≡ some cached
      → Ensured handle_id
          (cached_or_new platform handle_id passphrase device_id (some cached) state)
  unfolding cached_or_new
  cached-Ensured cached found =
      let new_passphrase = or_option cached.store_passphrase passphrase in
      let tried =
        try_use_cached_session-Tried platform no_claims handle_id cached new_passphrase state owned
          found in
      post-bind (Ensured handle_id)
        (try_use_cached_session platform handle_id cached new_passphrase) _ state
        (λ e t done. subst (Tried handle_id) done tried)
        (λ valid t done.
          token_or_new-Ensured platform handle_id new_passphrase device_id valid t
            (subst (Tried handle_id) done tried))

  -- If every timer that is set is owned by a session, so it is after ensureValidSession, whether
  -- that returns or throws. A token that it returns is the one of the handle's session, and the
  -- session's client uses it. (`JWT.decode` is taken to find no claims in the empty
  -- text.)
  pub ensure_valid_session-Ensured :
      Ensured handle_id (ensure_valid_session platform handle_id passphrase device_id state)
  unfolding ensure_valid_session
  ensure_valid_session-Ensured = elim (Option-cases (lookup handle_id state.sessions)) [
    | inl absent ↦
        rw (absent, cached_or_new)
          (create_new_session-Ensured platform handle_id passphrase device_id state (owned, absent))
    | inr (cached, found) ↦ rw found (cached-Ensured cached found)
  ]

-- If every timer that is set is owned by a session, then where getMatrixClient returns, there is a
-- client: that of the handle's session, and it uses the session's token. The `!` on what it reads is
-- safe. (`JWT.decode` is taken to find no claims in the empty text.)
pub get_matrix_client-some :
    {S : Type 0} (platform : Platform S) (handle_id : String) (device_id : Option String)
    (state t : Manager S) (found : Option Client)
    → platform.decode "" ≡ none
    → TimersOwned state
    → get_matrix_client platform handle_id device_id state ≡ (ok found, t)
    → (session : Session) × (lookup handle_id t.sessions ≡ some session)
      × (found ≡ some session.matrix_client)
      × (session.matrix_client.token ≡ session.access_token)
unfolding get_matrix_client
get_matrix_client-some platform handle_id device_id state t found no_claims owned h =
    let ensured =
      ensure_valid_session-Ensured platform no_claims handle_id none device_id state owned in
    let (token, u, done, read) =
      bind-eq-ok (ensure_valid_session platform handle_id none device_id)
        (λ _ v. (ok (client_of (lookup handle_id v.sessions)), v)) state t found h in
    let (kept, held) = subst (Ensured handle_id) done ensured in
    (held.0, ground (arith, held.1), ground (arith, held.1), ground (arith, held.2, held.3))
