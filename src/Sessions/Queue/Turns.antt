-- ===== src/Sessions/Queue/Turns.antt =====
-- The order that `runSessionWorkSerialized` keeps among the calls of one handle.
use sudo_secure_communicatio.Prelude.{
  ℕ, ◌<◌, ◌≤◌, String, ◌≡◌, ◌≢◌, refl, inl, inr, Bool, true, false, not, ◌&&◌, ◌||◌, Option, none,
  some, List, [], ◌∷◌, ◌++◌, length, Option-cases, if◌then◌else◌, ◌==◌, eq_iff, arith,
}
use sudo_secure_communicatio.Sessions.Queue.{
  Phase, waiting, running, settled, Run, Queue, is_settled, phase_of, handle_of, set_phase,
  fulfilled,
}
use sudo_secure_communicatio.Sessions.Queue.Line.{Line}

abbrev pub is_waiting : Phase → Bool
is_waiting waiting = true
is_waiting running = false
is_waiting settled = false

abbrev pub is_running : Phase → Bool
is_running waiting = false
is_running running = true
is_running settled = false

-- The calls of a handle that wait, the oldest first.
unfoldable pub waiting_ids : String → List Run → List ℕ
waiting_ids h [] = []
waiting_ids h (r ∷ runs) =
    let older = waiting_ids h runs in
    if (r.handle_id == h) && is_waiting r.phase then older ++ (r.id ∷ []) else older

-- The call of a handle whose work is under way, the newest if there were several.
unfoldable pub running_id : String → List Run → Option ℕ
running_id h [] = none
running_id h (r ∷ runs) =
    if (r.handle_id == h) && is_running r.phase then some r.id else running_id h runs

unfoldable pub line_of : Queue → String → Line
unfolding waiting_ids running_id
line_of q h = record { serving = running_id h q.runs; line = waiting_ids h q.runs }

-- The newest call of a handle
unfoldable pub latest : String → List Run → Option ℕ
latest h [] = none
latest h (r ∷ runs) = if r.handle_id == h then some r.id else latest h runs

-- Every call of the handle has settled.
unfoldable pub quiet : String → List Run → Bool
quiet h [] = true
quiet h (r ∷ runs) = (not (r.handle_id == h) || is_settled r.phase) && quiet h runs

-- Calls are numbered in their order, each waits on the one before it of the same handle, and one
-- that has started found all older ones of its handle settled.
unfoldable pub InTurn : List Run → Type 0
unfolding latest quiet
InTurn [] = Unit
InTurn (r ∷ runs) =
    (r.id ≡ length runs)
    × (r.previous ≡ latest r.handle_id runs)
    × ((is_waiting r.phase || quiet r.handle_id runs) ≡ true)
    × InTurn runs

pub phase_of-fresh :
    (id : ℕ) (runs : List Run) → InTurn runs → length runs ≤ id → phase_of id runs ≡ none
unfolding phase_of InTurn
phase_of-fresh id [] w le = refl
phase_of-fresh id (r ∷ runs) (n, p, o, w) le = ground (arith, phase_of-fresh id runs w)

pub set_phase-fresh :
    (id : ℕ) (phase : Phase) (runs : List Run)
    → InTurn runs
    → length runs ≤ id
    → set_phase id phase runs ≡ runs
unfolding set_phase InTurn
set_phase-fresh id phase [] w le = refl
set_phase-fresh id phase (r ∷ runs) (n, p, o, w) le =
    ground (arith, set_phase-fresh id phase runs w)

pub length-set_phase :
    (id : ℕ) (phase : Phase) (runs : List Run) → length (set_phase id phase runs) ≡ length runs
unfolding set_phase
length-set_phase id phase [] = refl
length-set_phase id phase (r ∷ runs) = ground (arith, length-set_phase id phase runs)

pub latest-set_phase :
    (h : String) (id : ℕ) (phase : Phase) (runs : List Run)
    → latest h (set_phase id phase runs) ≡ latest h runs
unfolding latest set_phase
latest-set_phase h id phase [] = refl
latest-set_phase h id phase (r ∷ runs) = ground (arith, latest-set_phase h id phase runs)

pub latest-bound :
    (h : String) (id : ℕ) (runs : List Run)
    → InTurn runs
    → latest h runs ≡ some id
    → id < length runs
unfolding latest InTurn
latest-bound h id [] w e = ground arith
latest-bound h id (r ∷ runs) (n, p, o, w) e = ground (arith, latest-bound h id runs w)

-- An older call's promise is fulfilled or not whatever calls follow.
pub fulfilled-older :
    (h : String) (r : Run) (runs : List Run)
    → r.id ≡ length runs
    → InTurn runs
    → fulfilled (latest h runs) (r ∷ runs) ≡ fulfilled (latest h runs) runs
unfolding fulfilled phase_of
fulfilled-older h r runs n w = elim (Option-cases (latest h runs)) [
  | inl e ↦ rw e refl
  | inr (id, e) ↦ rw e (ground (arith, latest-bound h id runs w e))
]

pub fulfilled-newest :
    (r : Run) (runs : List Run) → fulfilled (some r.id) (r ∷ runs) ≡ is_settled r.phase
unfolding fulfilled phase_of
fulfilled-newest r runs = ground arith

-- Once the newest call of a handle has settled, all have.
pub quiet_after_latest :
    (h : String) (runs : List Run)
    → InTurn runs
    → fulfilled (latest h runs) runs ≡ true
    → quiet h runs ≡ true
unfolding quiet latest InTurn
quiet_after_latest h [] w f = refl
quiet_after_latest h (r ∷ runs) (n, p, o, w) f = ground (
  arith,
  eq_iff r.handle_id h,
  fulfilled-older h r runs n w,
  fulfilled-newest r runs,
  quiet_after_latest h runs w,
)

pub quiet-waiting_ids :
    (h : String) (runs : List Run) → quiet h runs ≡ true → waiting_ids h runs ≡ []
unfolding quiet waiting_ids
quiet-waiting_ids h [] q = refl
quiet-waiting_ids h (r ∷ runs) q = ground (arith, quiet-waiting_ids h runs)

pub quiet-running_id :
    (h : String) (runs : List Run) → quiet h runs ≡ true → running_id h runs ≡ none
unfolding quiet running_id
quiet-running_id h [] q = refl
quiet-running_id h (r ∷ runs) q = ground (arith, quiet-running_id h runs)

-- Every call of the handle has settled, this one too.
pub quiet-phase_of :
    (h : String) (id : ℕ) (phase : Phase) (runs : List Run)
    → phase_of id runs ≡ some phase
    → handle_of id runs ≡ some h
    → quiet h runs ≡ true
    → is_settled phase ≡ true
unfolding quiet phase_of handle_of
quiet-phase_of h id phase [] e f q = ground arith
quiet-phase_of h id phase (r ∷ runs) e f q =
    ground (arith, eq_iff r.handle_id h, quiet-phase_of h id phase runs)

pub handle_of-bound :
    (h : String) (id : ℕ) (runs : List Run)
    → InTurn runs
    → handle_of id runs ≡ some h
    → id < length runs
unfolding handle_of InTurn
handle_of-bound h id [] w e = ground arith
handle_of-bound h id (r ∷ runs) (n, p, o, w) e = ground (arith, handle_of-bound h id runs w)

module _ (h k : String) (other : k ≢ h) (id : ℕ) (phase : Phase) where
  pub quiet-set_phase :
      (runs : List Run)
      → handle_of id runs ≡ some h
      → InTurn runs
      → quiet k (set_phase id phase runs) ≡ quiet k runs
  unfolding quiet set_phase handle_of InTurn
  quiet-set_phase [] e w = refl
  quiet-set_phase (r ∷ runs) e (n, p, o, w) = ground (
    arith,
    eq_iff r.handle_id k,
    eq_iff r.handle_id h,
    quiet-set_phase runs,
    set_phase-fresh id phase runs w,
  )

  pub waiting_ids-set_phase :
      (runs : List Run)
      → handle_of id runs ≡ some h
      → InTurn runs
      → waiting_ids k (set_phase id phase runs) ≡ waiting_ids k runs
  unfolding waiting_ids set_phase handle_of InTurn
  waiting_ids-set_phase [] e w = refl
  waiting_ids-set_phase (r ∷ runs) e (n, p, o, w) = ground (
    arith,
    eq_iff r.handle_id k,
    eq_iff r.handle_id h,
    waiting_ids-set_phase runs,
    set_phase-fresh id phase runs w,
  )

  pub running_id-set_phase :
      (runs : List Run)
      → handle_of id runs ≡ some h
      → InTurn runs
      → running_id k (set_phase id phase runs) ≡ running_id k runs
  unfolding running_id set_phase handle_of InTurn
  running_id-set_phase [] e w = refl
  running_id-set_phase (r ∷ runs) e (n, p, o, w) = ground (
    arith,
    eq_iff r.handle_id k,
    eq_iff r.handle_id h,
    running_id-set_phase runs,
    set_phase-fresh id phase runs w,
  )
