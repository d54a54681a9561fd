-- ===== src/Sessions/Invariant.antt =====
-- The timers and the sessions of SessionManager: an invariant, and what each change does to it.
use sudo_secure_communicatio.Prelude.{
  ℕ, String, ◌≡◌, refl, inl, inr, Bool, true, false, not, Option, none, some, List, [], ◌∷◌, ◌==◌,
  eq_iff, eq_refl, All, keep, nat_eq, Dict, lookup, lookup-insert, lookup-remove, insert, arith,
  Bool-cases,
}
use sudo_secure_communicatio.Sessions.State.{
  Platform, Manager, Session, Timer, clear_timeout, put_session, drop_session,
}
use sudo_secure_communicatio.Sessions.Tokens.{schedule_token_refresh, set_timer}

-- The timer is the one that its handle's session will clear.
abbrev pub Owned : Dict Session → Timer → Type 0
Owned sessions timer =
    (session : Session) × (lookup timer.handle_id sessions ≡ some session)
    × (session.refresh_timeout ≡ some timer.id)

-- Every timer that is set is owned by a session.
abbrev pub TimersOwned : {S : Type 0} → Manager S → Type 0
TimersOwned state = All (Owned state.sessions) state.timers

-- The same, and none is the handle's.
abbrev pub NoTimerOf : {S : Type 0} → String → Manager S → Type 0
NoTimerOf handle_id state =
    All (λ timer. Owned state.sessions timer × ((handle_id == timer.handle_id) ≡ false))
      state.timers

All-map :
    {A : Type 0} {P Q : A → Type 0} (f : (a : A) → P a → Q a) (xs : List A) → All P xs → All Q xs
All-map f [] h = tt
All-map f (x ∷ xs) (p, h) = (f x p, All-map f xs h)

All-keep :
    {A : Type 0} {P Q : A → Type 0} (test : A → Bool) (f : (a : A) → test a ≡ true → P a → Q a)
    (xs : List A)
    → All P xs
    → All Q (keep test xs)
All-keep test f [] h = tt
All-keep test f (x ∷ xs) (p, h) = elim (Bool-cases (test x)) [
  | inl kept ↦ rw kept (f x kept p, All-keep test f xs h)
  | inr dropped ↦ rw dropped (All-keep test f xs h)
]

module _ {S : Type 0} (handle_id : String) (state : Manager S) where
  pub timers_of : NoTimerOf handle_id state → TimersOwned state
  timers_of h = All-map (λ timer p. p.0) state.timers h

  pub absent-NoTimerOf :
      TimersOwned state → lookup handle_id state.sessions ≡ none → NoTimerOf handle_id state
  absent-NoTimerOf h absent =
      All-map (λ timer p. (p, ground (arith, eq_iff handle_id timer.handle_id, p.1))) state.timers h

  clear-NoTimerOf :
      (timeout : Option ℕ) (session : Session)
      → session.refresh_timeout ≡ timeout
      → TimersOwned state
      → lookup handle_id state.sessions ≡ some session
      → NoTimerOf handle_id (clear_timeout timeout state)
  unfolding clear_timeout
  clear-NoTimerOf none session e h found =
      All-map (λ timer p. (p, ground (arith, eq_iff handle_id timer.handle_id, p.1, p.2)))
        state.timers h
  clear-NoTimerOf (some id) session e h found =
      All-keep (λ timer. not (nat_eq timer.id id))
        (λ timer other p. (p, ground (arith, eq_iff handle_id timer.handle_id, p.1, p.2)))
        state.timers h

  pub clear_timeout-NoTimerOf :
      (session : Session)
      → TimersOwned state
      → lookup handle_id state.sessions ≡ some session
      → NoTimerOf handle_id (clear_timeout session.refresh_timeout state)
  clear_timeout-NoTimerOf session h found =
      clear-NoTimerOf session.refresh_timeout session refl h found

  -- Taking a timer away leaves the others owned.
  pub clear_timeout-TimersOwned :
      (timeout : Option ℕ) → TimersOwned state → TimersOwned (clear_timeout timeout state)
  unfolding clear_timeout
  clear_timeout-TimersOwned none h = h
  clear_timeout-TimersOwned (some id) h =
      All-keep (λ timer. not (nat_eq timer.id id)) (λ timer other owned. owned) state.timers h

  pub drop_session-TimersOwned :
      NoTimerOf handle_id state → TimersOwned (drop_session handle_id state)
  unfolding drop_session
  drop_session-TimersOwned h =
      All-map
        (λ timer p.
          (p.0.0, rw (lookup-remove handle_id timer.handle_id state.sessions, p.1) p.0.1, p.0.2))
        state.timers h

  put_session-Owned :
      (session : Session) (timers : List Timer)
      → All (λ timer. Owned state.sessions timer × ((handle_id == timer.handle_id) ≡ false)) timers
      → All (Owned (insert handle_id session state.sessions)) timers
  put_session-Owned session timers h =
      All-map
        (λ timer p. (
          p.0.0,
          rw (lookup-insert handle_id timer.handle_id session state.sessions, p.1) p.0.1,
          p.0.2,
        ))
        timers h

  -- A session that is put in with the timer that has just been set owns that timer.
  set_timer-TimersOwned :
      (passphrase : Option String) (delay : Option ℕ) (session : Session)
      → NoTimerOf handle_id state
      → session.refresh_timeout ≡ (set_timer handle_id passphrase delay state).0
      → TimersOwned (put_session handle_id session (set_timer handle_id passphrase delay state).1)
  unfolding put_session set_timer
  set_timer-TimersOwned passphrase none session h e = put_session-Owned session state.timers h
  set_timer-TimersOwned passphrase (some delay) session h e = (
    (session, rw (lookup-insert handle_id handle_id session state.sessions, eq_refl handle_id), e),
    put_session-Owned session state.timers h,
  )

  pub schedule-TimersOwned :
      (platform : Platform S) (expiry : ℕ) (passphrase : Option String) (session : Session)
      → NoTimerOf handle_id state
      → session.refresh_timeout
        ≡ (schedule_token_refresh platform handle_id expiry passphrase state).0
      → TimersOwned (
          put_session handle_id session
            (schedule_token_refresh platform handle_id expiry passphrase state).1)
  unfolding schedule_token_refresh
  schedule-TimersOwned platform expiry passphrase session h e =
      set_timer-TimersOwned passphrase _ session h e
