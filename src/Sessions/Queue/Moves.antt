-- ===== src/Sessions/Queue/Moves.antt =====
-- What a step of the event loop does to the calls of its handle.
use mathlib.Core.Path.{subst}
use sudo_secure_communicatio.Prelude.{
  ℕ, ◌<◌, String, ◌≡◌, ◌≢◌, refl, inl, inr, true, false, not, ◌&&◌, none, some, List, [], ◌∷◌,
  length, nat_eq, lookup, lookup-insert, Bool-cases, Option-cases, ◌==◌, eq_iff, eq_refl, arith,
}
use sudo_secure_communicatio.Sessions.Queue.{
  Phase, waiting, running, settled, Run, Queue, phase_of, handle_of, set_phase, previous_of,
  fulfilled, run_session_work_serialized, Step, call, start, settle, Reachable, fresh, next,
}
use sudo_secure_communicatio.Sessions.Queue.Turns.{
  is_waiting, waiting_ids, running_id, latest, quiet, InTurn, set_phase-fresh, length-set_phase,
  latest-set_phase, latest-bound, fulfilled-older, quiet_after_latest, quiet-waiting_ids,
  quiet-running_id, quiet-phase_of, quiet-set_phase,
}

-- A call that starts takes its turn: no other call of its handle is under way, and it is the first
-- of those that wait.
pub record Starts (h : String) (id : ℕ) (runs : List Run) : Type 0 where
  pub idle : running_id h runs ≡ none
  pub first : waiting_ids h runs ≡ id ∷ waiting_ids h (set_phase id running runs)
  pub begun : running_id h (set_phase id running runs) ≡ some id
  pub in_turn : InTurn (set_phase id running runs)

pub previous_of-bound :
    (id j : ℕ) (runs : List Run) → InTurn runs → previous_of id runs ≡ some j → j < length runs
unfolding previous_of InTurn
previous_of-bound id j [] w e = ground arith
previous_of-bound id j (r ∷ runs) (n, p, o, w) e =
    ground (arith, previous_of-bound id j runs w, latest-bound r.handle_id j runs w)

pub fulfilled-previous :
    (id : ℕ) (r : Run) (runs : List Run)
    → r.id ≡ length runs
    → InTurn runs
    → fulfilled (previous_of id runs) (r ∷ runs) ≡ fulfilled (previous_of id runs) runs
unfolding fulfilled phase_of
fulfilled-previous id r runs n w = elim (Option-cases (previous_of id runs)) [
  | inl e ↦ rw e refl
  | inr (j, e) ↦ rw e (ground (arith, previous_of-bound id j runs w e))
]

-- The newest call starts.
newest-Starts :
    (r : Run) (runs : List Run)
    → r.id ≡ length runs
    → InTurn runs
    → r.previous ≡ latest r.handle_id runs
    → r.phase ≡ waiting
    → fulfilled r.previous (r ∷ runs) ≡ true
    → Starts r.handle_id r.id (r ∷ runs)
unfolding InTurn waiting_ids running_id set_phase
newest-Starts r runs n w p f g = record {
  idle = ground (arith, quiet-running_id h runs q);
  first =
      ground (arith, quiet-waiting_ids h runs q, set_phase-fresh r.id running runs w, eq_refl h);
  begun = ground (arith, eq_refl h);
  in_turn = rw (set_phase-fresh r.id running runs w (omega arith)) (ground (arith, q));
}
  where
    h : String
    h = r.handle_id

    q : quiet h runs ≡ true
    q = quiet_after_latest h runs w (ground (arith, fulfilled-older h r runs n w))

-- A call starts, and a newer one has been made.
older-Starts :
    (h : String) (id : ℕ) (r : Run) (runs : List Run)
    → r.id ≢ id
    → InTurn (r ∷ runs)
    → handle_of id runs ≡ some h
    → phase_of id runs ≡ some waiting
    → Starts h id runs
    → Starts h id (r ∷ runs)
unfolding InTurn waiting_ids running_id set_phase
older-Starts h id r runs differs (n, p, o, w) e f s = record {
  idle = ground (arith, s.idle, waits);
  first = ground (arith, s.first, waits);
  begun = ground (arith, s.begun, waits);
  in_turn = ground (
    arith,
    s.in_turn,
    waits,
    latest-set_phase r.handle_id id running runs,
    length-set_phase id running runs,
    later,
  );
}
  where
    waits : ((r.handle_id == h) && not (is_waiting r.phase)) ≡ false
    waits = ground (arith, eq_iff r.handle_id h, quiet-phase_of h id waiting runs f e)

    later :
        (r.handle_id == h) ≡ false
        → quiet r.handle_id (set_phase id running runs) ≡ quiet r.handle_id runs
    later = λ d.
        quiet-set_phase h r.handle_id (ground (arith, eq_iff r.handle_id h)) id running runs e w

pub start-Starts :
    (h : String) (id : ℕ) (runs : List Run)
    → InTurn runs
    → handle_of id runs ≡ some h
    → phase_of id runs ≡ some waiting
    → fulfilled (previous_of id runs) runs ≡ true
    → Starts h id runs
unfolding InTurn handle_of phase_of previous_of
start-Starts h id [] w e f g = absurd (ground arith)
start-Starts h id (r ∷ runs) (n, p, o, w) e f g = elim (Bool-cases (nat_eq r.id id)) [
  | inl same ↦
      subst (λ k. Starts k id (r ∷ runs)) (ground arith)
        (subst (λ i. Starts r.handle_id i (r ∷ runs)) (ground arith)
          (newest-Starts r runs n w p (ground arith) (ground arith)))
  | inr differs ↦
      older-Starts h id r runs (ground arith) (n, p, o, w) (ground arith) (ground arith)
        (start-Starts h id runs w (ground arith) (ground arith)
          (ground (arith, fulfilled-previous id r runs n w)))
]

-- The work that settles is the one of its handle that is under way, and those that wait stay.
pub record Settles (h : String) (id : ℕ) (runs : List Run) : Type 0 where
  pub busy : running_id h runs ≡ some id
  pub done : running_id h (set_phase id settled runs) ≡ none
  pub kept : waiting_ids h (set_phase id settled runs) ≡ waiting_ids h runs
  pub in_turn : InTurn (set_phase id settled runs)

newest-Settles :
    (r : Run) (runs : List Run)
    → r.id ≡ length runs
    → InTurn runs
    → r.previous ≡ latest r.handle_id runs
    → r.phase ≡ running
    → quiet r.handle_id runs ≡ true
    → Settles r.handle_id r.id (r ∷ runs)
unfolding InTurn waiting_ids running_id set_phase
newest-Settles r runs n w p f q = record {
  busy = ground (arith, eq_refl r.handle_id);
  done = ground (arith, quiet-running_id r.handle_id runs q, fresh_id, eq_refl r.handle_id);
  kept = ground (arith, fresh_id);
  in_turn = rw fresh_id (ground (arith, q));
}
  where
    fresh_id : set_phase r.id settled runs ≡ runs
    fresh_id = set_phase-fresh r.id settled runs w (omega arith)

older-Settles :
    (h : String) (id : ℕ) (r : Run) (runs : List Run)
    → r.id ≢ id
    → InTurn (r ∷ runs)
    → handle_of id runs ≡ some h
    → phase_of id runs ≡ some running
    → Settles h id runs
    → Settles h id (r ∷ runs)
unfolding InTurn waiting_ids running_id set_phase
older-Settles h id r runs differs (n, p, o, w) e f s = record {
  busy = ground (arith, s.busy, waits);
  done = ground (arith, s.done, waits);
  kept = ground (arith, s.kept, waits);
  in_turn = ground (
    arith,
    s.in_turn,
    waits,
    latest-set_phase r.handle_id id settled runs,
    length-set_phase id settled runs,
    later,
  );
}
  where
    waits : ((r.handle_id == h) && not (is_waiting r.phase)) ≡ false
    waits = ground (arith, eq_iff r.handle_id h, quiet-phase_of h id running runs f e)

    later :
        (r.handle_id == h) ≡ false
        → quiet r.handle_id (set_phase id settled runs) ≡ quiet r.handle_id runs
    later = λ d.
        quiet-set_phase h r.handle_id (ground (arith, eq_iff r.handle_id h)) id settled runs e w

pub settle-Settles :
    (h : String) (id : ℕ) (runs : List Run)
    → InTurn runs
    → handle_of id runs ≡ some h
    → phase_of id runs ≡ some running
    → Settles h id runs
unfolding InTurn handle_of phase_of
settle-Settles h id [] w e f = absurd (ground arith)
settle-Settles h id (r ∷ runs) (n, p, o, w) e f = elim (Bool-cases (nat_eq r.id id)) [
  | inl same ↦
      subst (λ k. Settles k id (r ∷ runs)) (ground arith)
        (subst (λ i. Settles r.handle_id i (r ∷ runs)) (ground arith)
          (newest-Settles r runs n w p (ground arith) (ground arith)))
  | inr differs ↦
      older-Settles h id r runs (ground arith) (n, p, o, w) (ground arith) (ground arith)
        (settle-Settles h id runs w (ground arith) (ground arith))
]

pub handle_of-known :
    (id : ℕ) (phase : Phase) (runs : List Run)
    → phase_of id runs ≡ some phase
    → (h : String) × (handle_of id runs ≡ some h)
unfolding handle_of phase_of
handle_of-known id phase [] e = absurd (ground arith)
handle_of-known id phase (r ∷ runs) e = elim (Bool-cases (nat_eq r.id id)) [
  | inl same ↦ (r.handle_id, ground arith)
  | inr differs ↦ let (h, f) = handle_of-known id phase runs (ground arith) in (h, ground arith)
]

-- The invariant of the chains
pub record Chained (q : Queue) : Type 0 where
  pub in_turn : InTurn q.runs
  pub ends : (h : String) → lookup h q.chain ≡ latest h q.runs

pub Step-Chained : {q q' : Queue} → Step q q' → Chained q → Chained q'
unfolding run_session_work_serialized InTurn latest
Step-Chained {q} (call handle_id) c = record {
  in_turn = (refl, c.ends handle_id, refl, c.in_turn);
  ends = λ h. ground (arith, lookup-insert handle_id h (length q.runs) q.chain, c.ends h);
}
Step-Chained {q} (start id e f) c =
    let (h, known) = handle_of-known id waiting q.runs e in
    record {
      in_turn = (start-Starts h id q.runs c.in_turn known e f).in_turn;
      ends = λ h. ground (arith, latest-set_phase h id running q.runs, c.ends h);
    }
Step-Chained {q} (settle id e) c =
    let (h, known) = handle_of-known id running q.runs e in
    record {
      in_turn = (settle-Settles h id q.runs c.in_turn known e).in_turn;
      ends = λ h. ground (arith, latest-set_phase h id settled q.runs, c.ends h);
    }

pub Reachable-Chained : {q : Queue} → Reachable q → Chained q
unfolding InTurn lookup latest
Reachable-Chained fresh = record { in_turn = tt; ends = λ h. refl }
Reachable-Chained (next r s) = Step-Chained s (Reachable-Chained r)
