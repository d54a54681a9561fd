-- ===== src/Sessions/Refresh/Laws.antt =====
-- What the use of a cached session leaves.
use mathlib.Core.Path.{subst}
use sudo_secure_communicatio.Prelude.{
  String, ◌≡◌, refl, ◌≢◌, inl, inr, false, Option, none, some, lookup, lookup-insert, eq_iff,
  eq_refl, Bool-cases, not, ◌&&◌, ◌==◌, arith,
}
use sudo_secure_communicatio.Exec.{Exec, Result, Result-cases, ok, err, pure, ◌>>=◌}
use sudo_secure_communicatio.Exec.Laws.{post-bind, post-catch}
use sudo_secure_communicatio.Sessions.State.{
  Claims, Platform, Manager, Session, reach, clear_timeout,
}
use sudo_secure_communicatio.Sessions.Invariant.{
  TimersOwned, clear_timeout-NoTimerOf, schedule-TimersOwned,
}
use sudo_secure_communicatio.Sessions.Tokens.{
  decode_token, is_expired, is_expired_or_expiring_soon, schedule_token_refresh,
}
use sudo_secure_communicatio.Sessions.Delete.{delete_session}
use sudo_secure_communicatio.Sessions.Delete.Laws.{after-reach, Deleted, delete_session-Deleted}
use sudo_secure_communicatio.Sessions.Refresh.{
  get_access_token_from_service, store_token, renew, refresh, refresh_cached_session_token,
  handle_expired_token, try_with, try_use_cached_session,
}

-- The handle has a session with the token, and the session's client uses that token.
abbrev pub Holds : {S : Type 0} → String → String → Manager S → Type 0
Holds handle_id token state =
    (session : Session) × (lookup handle_id state.sessions ≡ some session)
    × (session.access_token ≡ token)
    × (session.matrix_client.token ≡ token)

-- The timers are owned; a token that is returned is held, and if none is, the handle has no
-- session.
abbrev pub Tried : {S : Type 0} → String → Result (Option String) × Manager S → Type 0
Tried handle_id (err e, t) = TimersOwned t
Tried handle_id (ok none, t) = TimersOwned t × (lookup handle_id t.sessions ≡ none)
Tried handle_id (ok (some token), t) = TimersOwned t × Holds handle_id token t × (token ≢ "")

module _ {S : Type 0} (platform : Platform S) (no_claims : platform.decode "" ≡ none)
    (handle_id : String) where
  decode_token-nonempty :
      (token : String) (claims : Claims) → decode_token platform token ≡ ok claims → token ≢ ""
  unfolding decode_token
  decode_token-nonempty token claims h empty = ground arith

  renew-Holds :
      (cached : Session) (passphrase : Option String) (token : String) (claims : Claims)
      (state : Manager S)
      → TimersOwned state
      → lookup handle_id state.sessions ≡ some cached
      → TimersOwned (renew platform handle_id cached passphrase token claims state)
        × Holds handle_id token (renew platform handle_id cached passphrase token claims state)
  unfolding renew
  renew-Holds cached passphrase token claims state h found =
      let cleared = clear_timeout cached.refresh_timeout state in
      let scheduled = schedule_token_refresh platform handle_id claims.exp passphrase cleared in
      let session : Session = record {
        access_token = token;
        store_passphrase = passphrase;
        matrix_client = record cached.matrix_client { token = token };
        refresh_timeout = scheduled.0;
      } in
      (
        schedule-TimersOwned handle_id cleared platform claims.exp passphrase session
            (clear_timeout-NoTimerOf handle_id state cached h found) refl,
        (
          session,
          rw (lookup-insert handle_id handle_id session scheduled.1.sessions, eq_refl handle_id),
          refl,
          refl,
        ),
      )

  delete_and_return :
      (t : Manager S)
      → TimersOwned t
      → Tried handle_id ((delete_session platform handle_id false >>= λ _. pure none) t)
  delete_and_return t h =
      let deleted = delete_session-Deleted platform handle_id false t h in
      post-bind (Tried handle_id) (delete_session platform handle_id false) (λ _. pure none) t
        (λ e u done. subst (Deleted handle_id) done deleted)
        (λ a u done. subst (Deleted handle_id) done deleted)

  -- after the session has been renewed: the storage, and the token that is returned
  store_renewed : Option String → String → Exec (Manager S) (Option String)
  store_renewed passphrase token =
      reach (store_token platform handle_id passphrase token) >>= λ _. pure (some token)

  store_renewed-Tried :
      (passphrase : Option String) (token : String) (t : Manager S)
      → TimersOwned t
      → Holds handle_id token t
      → token ≢ ""
      → Tried handle_id (store_renewed passphrase token t)
  unfolding store_renewed
  store_renewed-Tried passphrase token t h held full =
      let action = store_token platform handle_id passphrase token in
      post-bind (Tried handle_id) (reach action) _ t
        (λ e u done. after-reach TimersOwned action t u h done)
        (λ a u done. (
          after-reach TimersOwned action t u h done,
          after-reach (Holds handle_id token) action t u held done,
          full,
        ))

  refresh-Tried :
      (cached : Session) (device_id : String) (passphrase : Option String) (state : Manager S)
      → TimersOwned state
      → lookup handle_id state.sessions ≡ some cached
      → Tried handle_id (refresh platform handle_id cached device_id passphrase state)
  unfolding refresh store_renewed
  refresh-Tried cached device_id passphrase state h found =
      let action = get_access_token_from_service platform handle_id (some device_id) in
      post-bind (Tried handle_id) (reach action) _ state
        (λ e t done. after-reach TimersOwned action state t h done)
        (λ new_session t done.
          let owned = after-reach TimersOwned action state t h done in
          let still =
            after-reach (λ u. lookup handle_id u.sessions ≡ some cached) action state t found
              done in
          elim (Result-cases (decode_token platform new_session.token)) [
            | inr (e, failed) ↦ rw failed owned
            | inl (claims, decoded) ↦
                let (kept, held) =
                  renew-Holds cached passphrase new_session.token claims t owned still in
                rw decoded (
                  store_renewed-Tried passphrase new_session.token
                    (renew platform handle_id cached passphrase new_session.token claims t) kept
                    held (decode_token-nonempty new_session.token claims decoded))
          ])

  refresh_cached-Tried :
      (cached : Session) (device_id : String) (passphrase : Option String) (state : Manager S)
      → TimersOwned state
      → lookup handle_id state.sessions ≡ some cached
      → Tried handle_id
          (refresh_cached_session_token platform handle_id cached device_id passphrase state)
  unfolding refresh_cached_session_token
  refresh_cached-Tried cached device_id passphrase state h found =
      let tried = refresh-Tried cached device_id passphrase state h found in
      post-catch (Tried handle_id) (refresh platform handle_id cached device_id passphrase) _ state
        (λ a t done. subst (Tried handle_id) done tried)
        (λ e t done. delete_and_return t (subst (Tried handle_id) done tried))

  try_with-Tried :
      (cached : Session) (passphrase : Option String) (claims : Claims) (state : Manager S)
      → TimersOwned state
      → lookup handle_id state.sessions ≡ some cached
      → decode_token platform cached.access_token ≡ ok claims
      → Tried handle_id (try_with platform handle_id cached passphrase claims state)
  unfolding try_with handle_expired_token
  try_with-Tried cached passphrase claims state h found decoded =
      let fresh =
        not (is_expired_or_expiring_soon platform claims.exp state.outside)
        && cached.access_token == cached.matrix_client.token in
      elim (Bool-cases fresh) [
        | inl unexpired ↦ rw unexpired (
          h,
          (
            cached,
            found,
            refl,
            ground (arith, eq_iff cached.access_token cached.matrix_client.token),
          ),
          decode_token-nonempty cached.access_token claims decoded,
        )
        | inr renewing ↦
            rw renewing (elim (Bool-cases (is_expired platform claims.exp state.outside)) [
              | inl expired ↦ rw expired (delete_and_return state h)
              | inr alive ↦
                  rw alive (refresh_cached-Tried cached claims.device_id passphrase state h found)
            ])
      ]

  pub try_use_cached_session-Tried :
      (cached : Session) (passphrase : Option String) (state : Manager S)
      → TimersOwned state
      → lookup handle_id state.sessions ≡ some cached
      → Tried handle_id (try_use_cached_session platform handle_id cached passphrase state)
  unfolding try_use_cached_session
  try_use_cached_session-Tried cached passphrase state h found =
      elim (Result-cases (decode_token platform cached.access_token)) [
        | inr (e, failed) ↦ rw failed h
        | inl (claims, decoded) ↦
            rw decoded (try_with-Tried cached passphrase claims state h found decoded)
      ]
