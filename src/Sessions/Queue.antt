-- ===== src/Sessions/Queue.antt =====
-- `runSessionWorkSerialized` of SessionManager: the chain of promises of each handle, and when the
-- work that is queued on it starts and settles.
pub mod Line
pub mod Turns
pub mod Moves
pub mod Laws
pub mod Drain
use sudo_secure_communicatio.Prelude.{
  ℕ, String, ◌≡◌, Bool, true, false, Option, none, some, List, [], ◌∷◌, length, nat_eq, Dict,
  lookup, insert, if◌then◌else◌,
}

-- Where the promise `run` of a call stands: `previous` has not been seen to settle, `work()` has
-- been called, or the promise of `work()` has been fulfilled or rejected.
pub data Phase : Type 0 where
  waiting : Phase
  running : Phase
  settled : Phase

-- A call of `runSessionWorkSerialized`: its number, its handle, the number of the call whose
-- promise was `perHandleSessionChain[handleId]` (none for `Promise.resolve()`), and its phase.
pub record Run : Type 0 where
  pub id : ℕ
  pub handle_id : String
  pub previous : Option ℕ
  pub phase : Phase

-- `perHandleSessionChain`, by the number of the call that the promise belongs to, and the calls that
-- have been made, the newest first.
pub record Queue : Type 0 where
  pub chain : Dict ℕ
  pub runs : List Run

abbrev pub is_settled : Phase → Bool
is_settled waiting = false
is_settled running = false
is_settled settled = true

unfoldable pub phase_of : ℕ → List Run → Option Phase
phase_of id [] = none
phase_of id (r ∷ runs) = if nat_eq r.id id then some r.phase else phase_of id runs

unfoldable pub handle_of : ℕ → List Run → Option String
handle_of id [] = none
handle_of id (r ∷ runs) = if nat_eq r.id id then some r.handle_id else handle_of id runs

unfoldable pub set_phase : ℕ → Phase → List Run → List Run
set_phase id phase [] = []
set_phase id phase (r ∷ runs) =
    (if nat_eq r.id id then record r { phase = phase } else r) ∷ set_phase id phase runs

abbrev pub settled_phase : Option Phase → Bool
settled_phase none = false
settled_phase (some phase) = is_settled phase

-- Whether the promise that a call waits on is fulfilled: the entry of the chain is
-- `run.then(() => {}, () => {})`, which is fulfilled however `run` settles.
unfoldable pub fulfilled : Option ℕ → List Run → Bool
unfolding phase_of
fulfilled none runs = true
fulfilled (some id) runs = settled_phase (phase_of id runs)

unfoldable pub previous_of : ℕ → List Run → Option ℕ
previous_of id [] = none
previous_of id (r ∷ runs) = if nat_eq r.id id then r.previous else previous_of id runs

-- runSessionWorkSerialized
unfoldable pub run_session_work_serialized : String → Queue → Queue
unfolding lookup insert
run_session_work_serialized handle_id q = record {
  chain = insert handle_id (length q.runs) q.chain;
  runs =
      record {
        id = length q.runs;
        handle_id = handle_id;
        previous = lookup handle_id q.chain;
        phase = waiting;
      }
      ∷ q.runs;
}

-- One step of the event loop: a caller queues work, the callback of `previous.then` calls `work()`
-- once `previous` is fulfilled, or the promise of `work()` settles.
pub data Step : Queue → Queue → Type 0 where
  call : {q : Queue} (handle_id : String) → Step q (run_session_work_serialized handle_id q)
  start :
      {q : Queue} (id : ℕ)
      → phase_of id q.runs ≡ some waiting
      → fulfilled (previous_of id q.runs) q.runs ≡ true
      → Step q (record q { runs = set_phase id running q.runs })
  settle :
      {q : Queue} (id : ℕ)
      → phase_of id q.runs ≡ some running
      → Step q (record q { runs = set_phase id settled q.runs })

-- The chains that a new SessionManager can come to.
pub data Reachable : Queue → Type 0 where
  fresh : Reachable (record { chain = []; runs = [] })
  next : {q q' : Queue} → Reachable q → Step q q' → Reachable q'
