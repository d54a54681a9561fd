-- ===== src/Messaging/Reading/Laws.antt =====
-- What `list` returns: the messages that listMessages finds, in the order of time.
use mathlib.Core.List.{Perm}
use mathlib.Core.List.Perm
use sudo_secure_communicatio.Prelude.{String, ◌≡◌, Option, none, some, List, [], ◌∷◌, ◌++◌, map}
use sudo_secure_communicatio.Exec.{Result, ok, err}
use sudo_secure_communicatio.Messaging.Content.{Message}
use sudo_secure_communicatio.Messaging.Edits.Order.{Sorted}
use sudo_secure_communicatio.Messaging.Reading.{ListedMessages}

abbrev pub ids : List Message → List String
ids messages = map (λ message. message.message_id) messages

-- All message ids of the main timeline and the threads
unfoldable pub all_ids : List String → List (List String) → List String
all_ids main [] = main
all_ids main (thread ∷ threads) = all_ids (main ++ thread) threads

thread_ids : String × List Message → List String
thread_ids (thread_id, messages) = ids messages

abbrev HasId : {S : Type 0} → String → Result Message × S → Type 0
HasId id (ok message, t) = message.message_id ≡ id
HasId id (err e, t) = Unit

-- The outcome, where there is one, is sorted and has these ids.
abbrev IsListed : {S : Type 0} → List String → Result (Option ListedMessages) × S → Type 0
IsListed all (ok (some out), t) = Sorted out.messages × Perm (ids out.messages) all
IsListed all (ok none, t) = Unit
IsListed all (err e, t) = Unit
