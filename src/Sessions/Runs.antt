-- ===== src/Sessions/Runs.antt =====
-- Sequences of whole calls of SessionManager's methods, the calls that its timers make among them:
-- each call ends before the next begins.
use sudo_secure_communicatio.Prelude.{
  ℕ, String, ◌≡◌, Bool, Option, none, some, List, [], ◌∷◌, find, nat_eq,
}
use sudo_secure_communicatio.Exec.{Result, ok, err}
use sudo_secure_communicatio.Sessions.State.{Platform, Manager, Timer, clear_timeout}
use sudo_secure_communicatio.Sessions.Invariant.{TimersOwned, clear_timeout-TimersOwned}
use sudo_secure_communicatio.Sessions.Delete.{delete_session}
use sudo_secure_communicatio.Sessions.Delete.Laws.{Deleted, delete_session-Deleted}
use sudo_secure_communicatio.Sessions.Ensure.{ensure_valid_session}
use sudo_secure_communicatio.Sessions.Ensure.Laws.{Ensured, ensure_valid_session-Ensured}

pub data Call : Type 0 where
  ensure : String → Option String → Option String → Call
  delete : String → Bool → Call
  fire : ℕ → Call

-- The callback of `setTimeout`, if the timer is still set: it logs what is thrown.
unfoldable pub fire_timer : {S : Type 0} → Platform S → Option Timer → Manager S → Manager S
unfolding ensure_valid_session clear_timeout
fire_timer platform none state = state
fire_timer platform (some timer) state =
    (ensure_valid_session platform timer.handle_id timer.store_passphrase none
      (clear_timeout (some timer.id) state)).1

-- What a call throws goes to its caller, and the manager's state stays.
unfoldable pub run : {S : Type 0} → Platform S → List Call → Manager S → Manager S
unfolding fire_timer ensure_valid_session delete_session
run platform [] state = state
run platform (ensure handle_id passphrase device_id ∷ calls) state =
    run platform calls (ensure_valid_session platform handle_id passphrase device_id state).1
run platform (delete handle_id delete_storage ∷ calls) state =
    run platform calls (delete_session platform handle_id delete_storage state).1
run platform (fire id ∷ calls) state =
    run platform calls (fire_timer platform (find (λ timer. nat_eq timer.id id) state.timers) state)

timers_after_delete :
    {S : Type 0} (handle_id : String) (outcome : Result (Unit {0}) × Manager S)
    → Deleted handle_id outcome
    → TimersOwned outcome.1
timers_after_delete handle_id (ok u, t) h = h.0
timers_after_delete handle_id (err e, t) h = h

timers_after_ensure :
    {S : Type 0} (handle_id : String) (outcome : Result String × Manager S)
    → Ensured handle_id outcome
    → TimersOwned outcome.1
timers_after_ensure handle_id (ok token, t) h = h.0
timers_after_ensure handle_id (err e, t) h = h

timers_after_fire :
    {S : Type 0} (platform : Platform S) (timer : Option Timer) (state : Manager S)
    → platform.decode "" ≡ none
    → TimersOwned state
    → TimersOwned (fire_timer platform timer state)
unfolding fire_timer
timers_after_fire platform none state no_claims h = h
timers_after_fire platform (some timer) state no_claims h = timers_after_ensure timer.handle_id _ (
    ensure_valid_session-Ensured platform no_claims timer.handle_id timer.store_passphrase none
      (clear_timeout (some timer.id) state)
      (clear_timeout-TimersOwned timer.handle_id state (some timer.id) h))

-- In every sequence of whole calls of ensureValidSession and deleteSession and of timers that fire,
-- one after the other, whichever calls throw, every timer that is set is at the end the one that
-- its handle's session will clear, if it was so at the start. (`JWT.decode` is taken to find no
-- claims in the empty text.) Calls that overlap are not among the sequences.
pub run-TimersOwned :
    {S : Type 0} (platform : Platform S) (calls : List Call) (state : Manager S)
    → platform.decode "" ≡ none
    → TimersOwned state
    → TimersOwned (run platform calls state)
unfolding run
run-TimersOwned platform [] state no_claims h = h
run-TimersOwned platform (ensure handle_id passphrase device_id ∷ calls) state no_claims h =
    run-TimersOwned platform calls
      (ensure_valid_session platform handle_id passphrase device_id state).1 no_claims
      (timers_after_ensure handle_id _
        (ensure_valid_session-Ensured platform no_claims handle_id passphrase device_id state h))
run-TimersOwned platform (delete handle_id delete_storage ∷ calls) state no_claims h =
    run-TimersOwned platform calls (delete_session platform handle_id delete_storage state).1
      no_claims
      (timers_after_delete handle_id _
        (delete_session-Deleted platform handle_id delete_storage state h))
run-TimersOwned platform (fire id ∷ calls) state no_claims h =
    let timer = find (λ timer. nat_eq timer.id id) state.timers in
    run-TimersOwned platform calls (fire_timer platform timer state) no_claims
      (timers_after_fire platform timer state no_claims h)
