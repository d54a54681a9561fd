-- ===== src/Sessions/Queue/Drain.antt =====
-- The work queued on the chains is all done: the event loop comes to an end, and not before that.
use sudo_secure_communicatio.Prelude.{
  ℕ, ◌+◌, suc, String, ◌≡◌, refl, inl, inr, ◌⊎◌, true, false, some, List, [], ◌∷◌, nat_eq, arith,
}
use sudo_secure_communicatio.Sessions.Queue.{
  Phase, waiting, running, settled, Run, Queue, phase_of, set_phase, previous_of, fulfilled, Step,
  call, start, settle, Reachable,
}
use sudo_secure_communicatio.Sessions.Queue.Turns.{
  InTurn, latest, phase_of-fresh, fulfilled-older, fulfilled-newest, set_phase-fresh,
}
use sudo_secure_communicatio.Sessions.Queue.Moves.{
  Chained, Step-Chained, Reachable-Chained, fulfilled-previous,
}

-- What is left to do: a call that waits has to start and to settle.
abbrev pub steps_left : Phase → ℕ
steps_left waiting = 2
steps_left running = 1
steps_left settled = 0

unfoldable pub work : List Run → ℕ
work [] = 0
work (r ∷ runs) = steps_left r.phase + work runs

abbrev pub IsWork : {q q' : Queue} → Step q q' → Type 0
IsWork (call handle_id) = ⊥
IsWork (start id e f) = Unit
IsWork (settle id e) = Unit

-- A number of steps of the event loop, none of which is a new call.
pub data Drain : ℕ → Queue → Queue → Type 0 where
  rest : {q : Queue} → Drain 0 q q
  more :
      {n : ℕ} {q q' q'' : Queue} (s : Step q q') → IsWork s → Drain n q' q'' → Drain (suc n) q q''

work-set_phase :
    (id : ℕ) (before after : Phase) (runs : List Run)
    → InTurn runs
    → phase_of id runs ≡ some before
    → work (set_phase id after runs) + steps_left before ≡ work runs + steps_left after
unfolding work set_phase phase_of InTurn
work-set_phase id before after [] w e = absurd (ground arith)
work-set_phase id before after (r ∷ runs) (n, p, o, w) e =
    ground (arith, work-set_phase id before after runs w, set_phase-fresh id after runs w)

work-Step : {q q' : Queue} (s : Step q q') → IsWork s → Chained q → suc (work q'.runs) ≡ work q.runs
work-Step (call handle_id) u c = absurd u
work-Step {q} (start id e f) u c =
    ground (arith, work-set_phase id waiting running q.runs c.in_turn e)
work-Step {q} (settle id e) u c =
    ground (arith, work-set_phase id running settled q.runs c.in_turn e)

-- With no work left, whatever a call waits on is fulfilled.
idle-fulfilled :
    (h : String) (runs : List Run)
    → InTurn runs
    → work runs ≡ 0
    → fulfilled (latest h runs) runs ≡ true
unfolding work latest InTurn fulfilled
idle-fulfilled h [] w e = refl
idle-fulfilled h (r ∷ runs) (n, p, o, w) e =
    ground (arith, fulfilled-older h r runs n w, fulfilled-newest r runs, idle-fulfilled h runs w)

data Possible (runs : List Run) : Type 0 where
  can_start :
      (id : ℕ)
      → phase_of id runs ≡ some waiting
      → fulfilled (previous_of id runs) runs ≡ true
      → Possible runs
  can_settle : (id : ℕ) → phase_of id runs ≡ some running → Possible runs

newest-Possible :
    (r : Run) (runs : List Run) (phase : Phase)
    → InTurn (r ∷ runs)
    → r.phase ≡ phase
    → work runs ≡ 0
    → (work (r ∷ runs) ≡ 0) ⊎ Possible (r ∷ runs)
unfolding work InTurn phase_of previous_of
newest-Possible r runs settled w e idle = inl (ground arith)
newest-Possible r runs running w e idle = inr (can_settle r.id (ground arith))
newest-Possible r runs waiting (n, p, o, w) e idle = inr (
    can_start r.id (ground arith)
      (ground (arith, fulfilled-older r.handle_id r runs n w, idle-fulfilled r.handle_id runs w)))

older_phase :
    (id : ℕ) (phase : Phase) (r : Run) (runs : List Run)
    → InTurn (r ∷ runs)
    → phase_of id runs ≡ some phase
    → (nat_eq r.id id ≡ false) × (phase_of id (r ∷ runs) ≡ some phase)
unfolding phase_of InTurn
older_phase id phase r runs (n, p, o, w) e = ground (arith, phase_of-fresh id runs w)

older-Possible :
    (r : Run) (runs : List Run) → InTurn (r ∷ runs) → Possible runs → Possible (r ∷ runs)
unfolding InTurn previous_of
older-Possible r runs w (can_start id e f) =
    let (differs, known) = older_phase id waiting r runs w e in
    can_start id known (ground (arith, differs, fulfilled-previous id r runs w.0 w.3))
older-Possible r runs w (can_settle id e) = can_settle id (older_phase id running r runs w e).1

work-Possible : (runs : List Run) → InTurn runs → (work runs ≡ 0) ⊎ Possible runs
unfolding work InTurn
work-Possible [] w = inl refl
work-Possible (r ∷ runs) w = elim (work-Possible runs w.3) [
  | inl idle ↦ newest-Possible r runs r.phase w refl idle
  | inr can ↦ inr (older-Possible r runs w can)
]

-- Some work has settled or started.
abbrev pub CanWork : Queue → Type 0
CanWork q = (q' : Queue) × (s : Step q q') × IsWork s

Possible-CanWork : (q : Queue) → Possible q.runs → CanWork q
Possible-CanWork q (can_start id e f) =
    (record q { runs = set_phase id running q.runs }, start id e f, tt)
Possible-CanWork q (can_settle id e) =
    (record q { runs = set_phase id settled q.runs }, settle id e, tt)

drain-Chained :
    {n : ℕ} {q q' : Queue}
    → Drain n q q'
    → Chained q
    → Chained q' × (n + work q'.runs ≡ work q.runs)
drain-Chained rest c = (c, omega arith)
drain-Chained (more s u d) c =
    let (c', e) = drain-Chained d (Step-Chained s c) in (c', ground (arith, e, work-Step s u c))

-- From any state that the chains can come to, while no new calls are made, `n` steps of the event
-- loop use up `n` of the steps that are left, two for a call that waits and one for one that is
-- under way, and as long as any are left, some call's work can start or settle: so no call waits
-- for ever, if the work of each that starts settles.
pub drain-work :
    {n : ℕ} {q q' : Queue}
    → Reachable q
    → Drain n q q'
    → (n + work q'.runs ≡ work q.runs) × ((work q'.runs ≡ 0) ⊎ CanWork q')
drain-work {q'} reached d =
    let (c, e) = drain-Chained d (Reachable-Chained reached) in
    (
      e,
      elim (work-Possible q'.runs c.in_turn) [
        | inl idle ↦ inl idle
        | inr can ↦ inr (Possible-CanWork q' can)
      ],
    )
