-- ===== src/Messaging/Edits/Order.antt =====
-- Sorting by timestamps.
use mathlib.Core.List.{Perm}
use mathlib.Core.List.Perm
use sudo_secure_communicatio.Prelude.{ℕ, ◌≤◌, Bool-cases, inl, inr, List, [], ◌∷◌, leb, arith}
use sudo_secure_communicatio.Messaging.Content.{Message}
use sudo_secure_communicatio.Messaging.Edits.{insert_by_time, sort_by_time}

-- No message of the list is older than this timestamp.
abbrev pub NotBefore : ℕ → List Message → Type 0
NotBefore timestamp [] = Unit
NotBefore timestamp (message ∷ messages) =
    (timestamp ≤ message.timestamp) × NotBefore timestamp messages

-- From the oldest to the newest
abbrev pub Sorted : List Message → Type 0
Sorted [] = Unit
Sorted (message ∷ messages) = NotBefore message.timestamp messages × Sorted messages

NotBefore-mono :
    (older timestamp : ℕ) (messages : List Message)
    → older ≤ timestamp
    → NotBefore timestamp messages
    → NotBefore older messages
NotBefore-mono older timestamp [] le h = tt
NotBefore-mono older timestamp (message ∷ messages) le (here, later) =
    (omega arith, NotBefore-mono older timestamp messages le later)

NotBefore-insert :
    (timestamp : ℕ) (message : Message) (messages : List Message)
    → timestamp ≤ message.timestamp
    → NotBefore timestamp messages
    → NotBefore timestamp (insert_by_time message messages)
unfolding insert_by_time
NotBefore-insert timestamp message [] le h = (le, tt)
NotBefore-insert timestamp message (other ∷ messages) le (here, later) =
    ground (arith, NotBefore-insert timestamp message messages le later)

insert-Sorted :
    (message : Message) (messages : List Message)
    → Sorted messages
    → Sorted (insert_by_time message messages)
unfolding insert_by_time
insert-Sorted message [] h = (tt, tt)
insert-Sorted message (other ∷ messages) (here, later) =
    elim (Bool-cases (leb message.timestamp other.timestamp)) [
      | inl first ↦ rw first (
        (
          ground arith,
          NotBefore-mono message.timestamp other.timestamp messages (ground arith) here,
        ),
        (here, later),
      )
      | inr second ↦ rw second (
        NotBefore-insert other.timestamp message messages (ground arith) here,
        insert-Sorted message messages later,
      )
    ]

insert-perm :
    (message : Message) (messages : List Message)
    → Perm (insert_by_time message messages) (message ∷ messages)
unfolding insert_by_time
insert-perm message [] = Perm.rfl
insert-perm message (other ∷ messages) = elim (Bool-cases (leb message.timestamp other.timestamp)) [
  | inl first ↦ rw first Perm.rfl
  | inr second ↦ rw second (
      Perm.trans (Perm.cons other (insert-perm message messages))
        (Perm.swap message other messages))
]

-- Sorting gives the same messages, from the oldest to the newest.
pub sort_by_time_lem :
    (messages : List Message)
    → Sorted (sort_by_time messages) × Perm (sort_by_time messages) messages
unfolding sort_by_time
sort_by_time_lem [] = (tt, Perm.rfl)
sort_by_time_lem (message ∷ messages) =
    let (sorted, same) = sort_by_time_lem messages in
    (
      insert-Sorted message (sort_by_time messages) sorted,
      Perm.trans (insert-perm message (sort_by_time messages)) (Perm.cons message same),
    )
