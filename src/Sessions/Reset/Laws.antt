-- ===== src/Sessions/Reset/Laws.antt =====
-- What reset leaves.
use mathlib.Core.Path.{subst}
use sudo_secure_communicatio.Prelude.{
  ℕ, String, Bool, false, Option, none, some, List, [], ◌∷◌, ◌≡◌, refl, inl, inr, ◌==◌, eq_iff,
  eq_refl, contains, map, All, Dict, lookup, lookup-remove, Option-cases, Bool-cases, arith,
}
use sudo_secure_communicatio.Exec.{Result, ok}
use sudo_secure_communicatio.Exec.Laws.{bind-eq-ok, post-bind}
use sudo_secure_communicatio.Sessions.State.{
  Platform, Manager, Session, Timer, reach, clear_timeout, drop_session,
}
use sudo_secure_communicatio.Sessions.Invariant.{TimersOwned, Owned}
use sudo_secure_communicatio.Sessions.Delete.{release, delete_existing, if_existing, delete_session}
use sudo_secure_communicatio.Sessions.Delete.Laws.{Deleted, delete_session-Deleted, after-reach}
use sudo_secure_communicatio.Sessions.Reset.{delete_sessions, reset}

-- The handle has no session.
abbrev Missing : {S : Type 0} → String → Manager S → Type 0
Missing k state = lookup k state.sessions ≡ none

abbrev MissingAfter : {S : Type 0} → String → Result (Unit {0}) × Manager S → Type 0
MissingAfter k outcome = Missing k outcome.1

module _ {S : Type 0} (platform : Platform S) where
  drop_session-Missing :
      (k handle_id : String) (t : Manager S) → Missing k t → Missing k (drop_session handle_id t)
  unfolding drop_session
  drop_session-Missing k handle_id t h = ground (arith, lookup-remove handle_id k t.sessions)

  clear_timeout-Missing :
      (k : String) (timeout : Option ℕ) (t : Manager S)
      → Missing k t
      → Missing k (clear_timeout timeout t)
  unfolding clear_timeout
  clear_timeout-Missing k none t h = h
  clear_timeout-Missing k (some id) t h = h

  delete_existing-Missing :
      (k handle_id : String) (delete_storage : Bool) (session : Session) (state : Manager S)
      → Missing k state
      → MissingAfter k (delete_existing platform handle_id delete_storage session state)
  unfolding delete_existing
  delete_existing-Missing k handle_id delete_storage session state h =
      let action = release platform handle_id delete_storage session in
      let cleared = clear_timeout session.refresh_timeout state in
      let absent = clear_timeout-Missing k session.refresh_timeout state h in
      post-bind (MissingAfter k) (reach action) (λ _ t. (ok tt, drop_session handle_id t)) cleared
        (λ e t done. after-reach (Missing k) action cleared t absent done)
        (λ a t done.
          drop_session-Missing k handle_id t (after-reach (Missing k) action cleared t absent done))

  delete_session-Missing :
      (k handle_id : String) (delete_storage : Bool) (state : Manager S)
      → Missing k state
      → MissingAfter k (delete_session platform handle_id delete_storage state)
  unfolding delete_session
  delete_session-Missing k handle_id delete_storage state h =
      elim (Option-cases (lookup handle_id state.sessions)) [
        | inl absent ↦ rw (absent, if_existing) h
        | inr (session, found) ↦
            rw (found, if_existing)
              (delete_existing-Missing k handle_id delete_storage session state h)
      ]

  delete_sessions-Missing :
      (handle_ids : List String) (s t : Manager S)
      → TimersOwned s
      → ((k : String) → contains k handle_ids ≡ false → Missing k s)
      → delete_sessions platform handle_ids s ≡ (ok tt, t)
      → TimersOwned t × ((k : String) → Missing k t)
  unfolding delete_sessions
  delete_sessions-Missing [] s t owned rest h =
      let e : s ≡ t = ground arith in
      (subst TimersOwned e owned, λ k. subst (Missing k) e (rest k refl))
  delete_sessions-Missing (handle_id ∷ handle_ids) s t owned rest h =
      let (_, u, first, later) =
        bind-eq-ok (delete_session platform handle_id false)
          (λ _. delete_sessions platform handle_ids) s t tt h in
      let (owned_u, gone) =
        subst (Deleted handle_id) first (delete_session-Deleted platform handle_id false s owned) in
      delete_sessions-Missing handle_ids u t owned_u
        (λ k fresh. elim (Bool-cases (handle_id == k)) [
          | inl same ↦ subst (λ j. Missing j u) ((eq_iff handle_id k).0 same) gone
          | inr differs ↦
              subst (MissingAfter k) first
                (delete_session-Missing k handle_id false s (rest k (ground arith)))
        ])
        later

absent_of_keys :
    (sessions : Dict Session) (k : String)
    → contains k (map (λ entry. entry.0) sessions) ≡ false
    → lookup k sessions ≡ none
unfolding lookup
absent_of_keys [] k h = refl
absent_of_keys ((j, session) ∷ sessions) k h = ground (arith, absent_of_keys sessions k)

empty_of_Missing :
    (sessions : Dict Session) → ((k : String) → lookup k sessions ≡ none) → sessions ≡ []
unfolding lookup
empty_of_Missing [] h = refl
empty_of_Missing ((j, session) ∷ sessions) h = absurd (ground (arith, h j, eq_refl j))

no_timers :
    (sessions : Dict Session) (timers : List Timer)
    → ((k : String) → lookup k sessions ≡ none)
    → All (Owned sessions) timers
    → timers ≡ []
no_timers sessions [] missing h = refl
no_timers sessions (timer ∷ timers) missing ((session, found, own), h) =
    absurd (ground (arith, missing timer.handle_id))

-- If every timer that is set is owned by a session, then after reset has returned there is neither a
-- session nor a timer.
pub reset-empty :
    {S : Type 0} (platform : Platform S) (s t : Manager S)
    → TimersOwned s
    → reset platform s ≡ (ok tt, t)
    → (t.sessions ≡ []) × (t.timers ≡ [])
unfolding reset
reset-empty platform s t owned h =
    let (owned_t, missing) =
      delete_sessions-Missing platform (map (λ entry. entry.0) s.sessions) s t owned
        (absent_of_keys s.sessions) h in
    (empty_of_Missing t.sessions missing, no_timers t.sessions t.timers missing owned_t)
