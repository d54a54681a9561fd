-- ===== src/Sessions/Delete/Laws.antt =====
-- What deleteSession leaves.
use mathlib.Core.Path.{subst}
use sudo_secure_communicatio.Prelude.{
  String, ◌≡◌, ap, inl, inr, Bool, none, some, lookup, lookup-remove, eq_refl, Option-cases,
}
use sudo_secure_communicatio.Exec.{Exec, Result, ok, err, ◌>>=◌}
use sudo_secure_communicatio.Exec.Laws.{post-bind}
use sudo_secure_communicatio.Sessions.State.{
  Platform, Manager, Session, reach, clear_timeout, drop_session,
}
use sudo_secure_communicatio.Sessions.Invariant.{
  TimersOwned, NoTimerOf, timers_of, clear_timeout-NoTimerOf, drop_session-TimersOwned,
}
use sudo_secure_communicatio.Sessions.Delete.{release, delete_existing, if_existing, delete_session}

-- What an action on the outside leaves, if `P` does not read the outside.
pub after-reach :
    {S A : Type 0} (P : Manager S → Type 0) (m : Exec S A) (state t : Manager S) {r : Result A}
    → P (reach m state).1
    → reach m state ≡ (r, t)
    → P t
after-reach P m state t h e = subst P (ap (λ p. p.1) e) h

-- The timers are owned, and if nothing was thrown the handle has no session.
abbrev pub Deleted : {S : Type 0} → String → Result (Unit {0}) × Manager S → Type 0
Deleted handle_id (err e, t) = TimersOwned t
Deleted handle_id (ok u, t) = TimersOwned t × (lookup handle_id t.sessions ≡ none)

module _ {S : Type 0} (platform : Platform S) (handle_id : String) where
  release_and_drop : Bool → Session → Exec (Manager S) Unit
  release_and_drop delete_storage session =
      reach (release platform handle_id delete_storage session) >>= λ _ t.
      (ok tt, drop_session handle_id t)

  drop_session-Deleted :
      (t : Manager S) → NoTimerOf handle_id t → Deleted handle_id (ok tt, drop_session handle_id t)
  unfolding drop_session
  drop_session-Deleted t h = (
    drop_session-TimersOwned handle_id t h,
    rw (lookup-remove handle_id handle_id t.sessions, eq_refl handle_id),
  )

  release_and_drop-Deleted :
      (delete_storage : Bool) (session : Session) (state : Manager S)
      → NoTimerOf handle_id state
      → Deleted handle_id (release_and_drop delete_storage session state)
  unfolding release_and_drop
  release_and_drop-Deleted delete_storage session state h =
      let action = release platform handle_id delete_storage session in
      post-bind (Deleted handle_id) (reach action) _ state
        (λ e t done.
          timers_of handle_id t (after-reach (NoTimerOf handle_id) action state t h done))
        (λ a t done.
          drop_session-Deleted t (after-reach (NoTimerOf handle_id) action state t h done))

  delete_existing-Deleted :
      (delete_storage : Bool) (session : Session) (state : Manager S)
      → TimersOwned state
      → lookup handle_id state.sessions ≡ some session
      → Deleted handle_id (delete_existing platform handle_id delete_storage session state)
  unfolding delete_existing release_and_drop
  delete_existing-Deleted delete_storage session state h found =
      release_and_drop-Deleted delete_storage session (clear_timeout session.refresh_timeout state)
        (clear_timeout-NoTimerOf handle_id state session h found)

  -- If every timer that is set is owned by a session, so it is after deleteSession, whether that
  -- returns or throws; and if it returns, the handle has no session.
  pub delete_session-Deleted :
      (delete_storage : Bool) (state : Manager S)
      → TimersOwned state
      → Deleted handle_id (delete_session platform handle_id delete_storage state)
  unfolding delete_session
  delete_session-Deleted delete_storage state h =
      elim (Option-cases (lookup handle_id state.sessions)) [
        | inl absent ↦ rw (absent, if_existing) (h, absent)
        | inr (session, found) ↦
            rw (found, if_existing) (delete_existing-Deleted delete_storage session state h found)
      ]
