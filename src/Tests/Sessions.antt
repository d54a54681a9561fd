-- ===== src/Tests/Sessions.antt =====
-- The session manager's theorems on a session whose token expires soon.
use sudo_secure_communicatio.Prelude.{
  ◌≡◌, refl, true, false, none, some, [], ◌∷◌, lookup, insert, leb, arith, ◌*◌, ◌+◌, ℕ, ◌⊎◌, map,
  remove, ◌==◌, if◌then◌else◌,
}
use sudo_secure_communicatio.Sessions.Queue.{
  Phase, Queue, Step, Reachable, fresh, next, call, start, settle, phase_of, handle_of, previous_of,
  set_phase, fulfilled, run_session_work_serialized,
}
use sudo_secure_communicatio.Sessions.Queue.Line.{OneMoves}
use sudo_secure_communicatio.Sessions.Queue.Turns.{line_of}
use sudo_secure_communicatio.Sessions.Queue.Laws.{one_at_a_time, Step-OneMoves}
use sudo_secure_communicatio.Sessions.Queue.Drain.{rest, more, work, CanWork, drain-work}
use sudo_secure_communicatio.Sessions.State.{
  Manager, Platform, Session, Timer, clear_timeout, drop_session,
}
use sudo_secure_communicatio.Sessions.Invariant.{TimersOwned}
use sudo_secure_communicatio.Sessions.Tokens.{
  is_token_expired, is_token_expiring_soon, schedule_token_refresh,
}
use sudo_secure_communicatio.Sessions.Tokens.Laws.{KeepsDelays, schedule_token_refresh-first_due}
use sudo_secure_communicatio.Sessions.Delete.{delete_session, release}
use sudo_secure_communicatio.Sessions.Ensure.{ensure_valid_session, get_matrix_client}
use sudo_secure_communicatio.Sessions.Ensure.Laws.{
  Ensured, ensure_valid_session-Ensured, get_matrix_client-some,
}
use sudo_secure_communicatio.Sessions.Refresh.{store_token}
use sudo_secure_communicatio.Sessions.Reset.{reset}
use sudo_secure_communicatio.Sessions.Reset.Laws.{reset-empty}
use sudo_secure_communicatio.Sessions.Runs.{ensure, delete, fire, run, run-TimersOwned}
use sudo_secure_communicatio.Tests.Samples.{platform, session, sessions}

sessions-TimersOwned : TimersOwned sessions
unfolding lookup
sessions-TimersOwned = ((session, refl, refl), tt)

ensure_valid_session-Ensured_example :
    Ensured "ann" (ensure_valid_session platform "ann" none none sessions)
ensure_valid_session-Ensured_example =
    ensure_valid_session-Ensured platform refl "ann" none none sessions sessions-TimersOwned

get_matrix_client-some_example :
    (session : Session) × (lookup "ann" (get_matrix_client platform "ann" none sessions).1.sessions
      ≡ some session)
    × (some (record { id = 0; token = "fresh" }) ≡ some session.matrix_client)
    × (session.matrix_client.token ≡ session.access_token)
unfolding get_matrix_client ensure_valid_session lookup store_token
get_matrix_client-some_example =
    get_matrix_client-some platform "ann" none sessions
      (get_matrix_client platform "ann" none sessions).1 (some (record { id = 0; token = "fresh" }))
      refl sessions-TimersOwned refl

run-TimersOwned_example :
    TimersOwned (run platform (fire 1 ∷ ensure "bob" none none ∷ delete "ann" true ∷ []) sessions)
run-TimersOwned_example =
    run-TimersOwned platform (fire 1 ∷ ensure "bob" none none ∷ delete "ann" true ∷ []) sessions
      refl sessions-TimersOwned

abbrev newest : Timer
newest = record { id = 2; handle_id = "bob"; store_passphrase = none; delay = 800000 }

abbrev scheduled : Manager ℕ
scheduled = record sessions { timers = newest ∷ sessions.timers; next = 3 }

platform-KeepsDelays : KeepsDelays platform
platform-KeepsDelays asked short = ground arith

schedule_token_refresh-first_due_example :
    (newest.id ≡ 2)
    × (newest.handle_id ≡ "bob")
    × (is_token_expired 10800 11000 ≡ false)
    × (is_token_expiring_soon 5 10800 11000 ≡ leb (9900 * 1000 + 800000) (10800 * 1000))
unfolding schedule_token_refresh
schedule_token_refresh-first_due_example =
    schedule_token_refresh-first_due platform "bob" 11000 2 10800 none sessions scheduled newest
      sessions.timers platform-KeepsDelays refl refl (ground arith) (ground arith) (ground arith)

-- The refresh of a token that is valid for 30 days falls due at once.
long_token :
    (schedule_token_refresh platform "bob" 2601900 none sessions).1.timers
    ≡ record { id = 2; handle_id = "bob"; store_passphrase = none; delay = 1 } ∷ sessions.timers
unfolding schedule_token_refresh
long_token = refl

-- A new token is valid for longer.
abbrev renewing : Platform ℕ
renewing = record platform {
  decode = λ token.
      some (record { exp = if token == "fresh" then 20000 else 10000; device_id = "device" });
}

-- While deleteSession waits, ensureValidSession renews the session that is being deleted: the timer
-- that it sets stays when the session is gone.
overlap :
    let ensured = ensure_valid_session renewing "ann" none none (clear_timeout (some 1) sessions) in
    ((drop_session "ann" ensured.1).sessions ≡ [])
    × (map (λ timer. timer.handle_id) (drop_session "ann" ensured.1).timers ≡ "ann" ∷ [])
unfolding ensure_valid_session clear_timeout drop_session lookup store_token remove
overlap = (refl, refl)

reset-empty_example :
    ((reset platform sessions).1.sessions ≡ []) × ((reset platform sessions).1.timers ≡ [])
unfolding reset delete_session release lookup
reset-empty_example =
    reset-empty platform sessions (reset platform sessions).1 sessions-TimersOwned refl

-- Two calls for one handle, the first of which is under way, and one for another handle.
abbrev queued : Queue
queued = record {
  chain = ("h", 1) ∷ ("k", 2) ∷ [];
  runs =
      record { id = 2; handle_id = "k"; previous = none; phase = Phase.waiting }
      ∷ record { id = 1; handle_id = "h"; previous = some 0; phase = Phase.waiting }
      ∷ record { id = 0; handle_id = "h"; previous = none; phase = Phase.running }
      ∷ [];
}

queued-Reachable : Reachable queued
unfolding run_session_work_serialized lookup insert phase_of fulfilled previous_of set_phase
queued-Reachable =
    next (next (next (next fresh (call "h")) (start 0 refl refl)) (call "h")) (call "k")

one_at_a_time_example : ◌≡◌ {A = ℕ} 0 0
unfolding phase_of handle_of
one_at_a_time_example = one_at_a_time 0 0 queued-Reachable refl refl refl

Step-OneMoves_example :
    OneMoves
      (line_of queued)
      (line_of (record queued { runs = set_phase 0 Phase.settled queued.runs }))
unfolding phase_of
Step-OneMoves_example = Step-OneMoves queued-Reachable (settle 0 refl)

abbrev settled_one : Queue
settled_one = record queued {
  runs =
      record { id = 2; handle_id = "k"; previous = none; phase = Phase.waiting }
      ∷ record { id = 1; handle_id = "h"; previous = some 0; phase = Phase.waiting }
      ∷ record { id = 0; handle_id = "h"; previous = none; phase = Phase.settled }
      ∷ [];
}

settles_first : Step queued settled_one
unfolding set_phase phase_of
settles_first = settle 0 refl

drain-work_example :
    (1 + work settled_one.runs ≡ work queued.runs)
    × ((work settled_one.runs ≡ 0) ⊎ CanWork settled_one)
unfolding settles_first
drain-work_example = drain-work queued-Reachable (more settles_first tt rest)
