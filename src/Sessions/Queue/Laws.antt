-- ===== src/Sessions/Queue/Laws.antt =====
-- The work queued for one handle is done one call at a time, in the order of the calls.
use sudo_secure_communicatio.Prelude.{ℕ, ◌≡◌, sym, ◌∙◌, some, length, eq_iff, eq_refl, arith}
use sudo_secure_communicatio.Sessions.Queue.{
  waiting, running, settled, Queue, phase_of, handle_of, run_session_work_serialized, Step, call,
  start, settle, Reachable,
}
use sudo_secure_communicatio.Sessions.Queue.Line.{enter, serve, leave, OneMoves}
use sudo_secure_communicatio.Sessions.Queue.Turns.{
  waiting_ids, running_id, line_of, waiting_ids-set_phase, running_id-set_phase,
}
use sudo_secure_communicatio.Sessions.Queue.Moves.{
  start-Starts, settle-Settles, handle_of-known, Reachable-Chained,
}

-- In every state that the chains can come to, the work of at most one call of a handle is under way.
pub one_at_a_time :
    {q : Queue} (i j : ℕ)
    → Reachable q
    → phase_of i q.runs ≡ some running
    → phase_of j q.runs ≡ some running
    → handle_of i q.runs ≡ handle_of j q.runs
    → i ≡ j
one_at_a_time {q} i j reached e f same =
    let w = (Reachable-Chained reached).in_turn in
    let (h, known) = handle_of-known i running q.runs e in
    let first = (settle-Settles h i q.runs w known e).busy in
    let second = (settle-Settles h j q.runs w (sym same ∙ known) f).busy in
    ground (arith, first, second)

-- Each step of the event loop, in every state that the chains can come to, is one move of the line
-- of one handle: a caller enters at its end, the first of the line is served while nobody is, or
-- the one that is served leaves, and the lines of the other handles stay as they are.
pub Step-OneMoves : {q q' : Queue} → Reachable q → Step q q' → OneMoves (line_of q) (line_of q')
unfolding line_of run_session_work_serialized waiting_ids running_id
Step-OneMoves {q} reached (call handle_id) = (
  handle_id,
  enter (length q.runs) (ground arith) (ground (arith, eq_refl handle_id)),
  λ other differs. ground (arith, eq_iff handle_id other),
)
Step-OneMoves {q} reached (start id e f) =
    let w = (Reachable-Chained reached).in_turn in
    let (h, known) = handle_of-known id waiting q.runs e in
    let s = start-Starts h id q.runs w known e f in
    (
      h,
      serve id s.idle s.first s.begun,
      λ other differs. ground (
        arith,
        running_id-set_phase h other differs id running q.runs known w,
        waiting_ids-set_phase h other differs id running q.runs known w,
      ),
    )
Step-OneMoves {q} reached (settle id e) =
    let w = (Reachable-Chained reached).in_turn in
    let (h, known) = handle_of-known id running q.runs e in
    let s = settle-Settles h id q.runs w known e in
    (
      h,
      leave id s.busy s.done s.kept,
      λ other differs. ground (
        arith,
        running_id-set_phase h other differs id settled q.runs known w,
        waiting_ids-set_phase h other differs id settled q.runs known w,
      ),
    )
