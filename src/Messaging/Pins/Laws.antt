-- ===== src/Messaging/Pins/Laws.antt =====
-- What a message that is pinned or unpinned does to the pinned messages of its room.
use sudo_secure_communicatio.Prelude.{
  suc, ◌≤◌, ◌<◌, ◌⊎◌, sym, Option, none, or_else, String, true, false, not, some, List, [], ◌∷◌,
  ◌++◌, ◌≡◌, refl, ap, ◌==◌, eq_iff, contains, contains-append, contains-distinct, contains-without,
  distinct, without, IsDistinct, IsDistinct-without, distinct-IsDistinct, length, nat_eq,
  if◌then◌else◌, arith, Bool-cases, inl, inr,
}
use sudo_secure_communicatio.Errors.{matrix_error}
use sudo_secure_communicatio.Exec.{Result, ok, err, catch}
use sudo_secure_communicatio.Messaging.Pins.{PinApi, absent_event, toggle, pin_unpin_message}

contains-toggle :
    (id event_id : String) (pinned : List String)
    → contains id (toggle event_id pinned)
      ≡ (if id == event_id then not (contains event_id pinned) else contains id pinned)
unfolding toggle
contains-toggle id event_id pinned = ground (
  arith,
  contains-without id event_id (distinct pinned),
  contains-append id (distinct pinned) (event_id ∷ []),
  contains-distinct id pinned,
  contains-distinct event_id pinned,
  eq_iff id event_id,
  eq_iff event_id id,
)

without-absent : (s : String) (xs : List String) → contains s xs ≡ false → without s xs ≡ xs
without-absent s [] h = refl
without-absent s (x ∷ xs) h = ground (arith, without-absent s xs)

distinct_of_IsDistinct : (xs : List String) → IsDistinct xs → distinct xs ≡ xs
unfolding distinct
distinct_of_IsDistinct [] h = refl
distinct_of_IsDistinct (x ∷ xs) (fresh, h) =
    rw (distinct_of_IsDistinct xs h) (ap (λ ys. x ∷ ys) (without-absent x xs fresh))

length-append_one : (xs : List String) (s : String) → length (xs ++ s ∷ []) ≡ suc (length xs)
length-append_one [] s = refl
length-append_one (x ∷ xs) s = ap suc (length-append_one xs s)

length-without_le : (s : String) (xs : List String) → length (without s xs) ≤ length xs
length-without_le s [] = ground arith
length-without_le s (x ∷ xs) = ground (arith, length-without_le s xs)

length-without_lt :
    (s : String) (xs : List String) → contains s xs ≡ true → length (without s xs) < length xs
length-without_lt s [] h = ground arith
length-without_lt s (x ∷ xs) h = ground (arith, length-without_le s xs, length-without_lt s xs)

IsDistinct-append_one :
    (xs : List String) (s : String)
    → IsDistinct xs
    → contains s xs ≡ false
    → IsDistinct (xs ++ s ∷ [])
IsDistinct-append_one [] s h fresh = (refl, tt)
IsDistinct-append_one (x ∷ xs) s (here, h) fresh = (
  ground (arith, contains-append x xs (s ∷ []), eq_iff x s, eq_iff s x),
  IsDistinct-append_one xs s h (ground arith),
)

toggle-IsDistinct : (event_id : String) (pinned : List String) → IsDistinct (toggle event_id pinned)
unfolding toggle
toggle-IsDistinct event_id pinned = elim (Bool-cases (contains event_id (distinct pinned))) [
  | inl known ↦
      rw known (IsDistinct-without event_id (distinct pinned) (distinct-IsDistinct pinned))
  | inr fresh ↦
      rw fresh (IsDistinct-append_one (distinct pinned) event_id (distinct-IsDistinct pinned) fresh)
]

-- Where no id is pinned twice, toggling one changes the number of pinned ids.
length-toggle :
    (event_id : String) (pinned : List String)
    → IsDistinct pinned
    → nat_eq (length pinned) (length (toggle event_id pinned)) ≡ false
unfolding toggle
length-toggle event_id pinned h =
    rw (distinct_of_IsDistinct pinned h)
      (ground (arith, length-append_one pinned event_id, length-without_lt event_id pinned))

-- The answer to a request for the state event of a room with the pinned messages: the event that
-- was sent; or, if no message is pinned, an event that names none, or the error M_NOT_FOUND of a
-- room that has no such event.
abbrev pub Answers : {S : Type 0} → List String → Result (Option (List String)) × S → S → Type 0
Answers pinned answer s =
    (answer ≡ (ok (some pinned), s))
    ⊎ (pinned ≡ []) × ((answer ≡ (ok none, s)) ⊎ (answer ≡ (err (matrix_error "M_NOT_FOUND"), s)))

-- The state event of a room is read back as it was sent, as the Matrix specification documents it.
pub record StoresPinned {S : Type 0} (api : PinApi S) (pinned_of : S → String → List String)
    : Type 0 where
  pub reads :
      (room_id : String) (s : S) → Answers (pinned_of s room_id) (api.get_pinned_event room_id s) s
  pub sends :
      (room_id : String) (ids : List String) (s t : S)
      → api.send_pinned_event room_id ids s ≡ (ok tt, t)
      → pinned_of t room_id ≡ ids

module _ {S : Type 0} (api : PinApi S) (pinned_of : S → String → List String)
    (stores : StoresPinned api pinned_of) (room_id event_id : String) (s : S) where
  -- What is read is the list of the pinned messages, in each of the three cases.
  read_pinned :
      (read : Option (List String)) × (catch (api.get_pinned_event room_id) absent_event s
        ≡ (ok read, s))
      × (or_else read [] ≡ pinned_of s room_id)
  unfolding absent_event
  read_pinned = elim (stores.reads room_id s) [
    | inl there ↦ (some (pinned_of s room_id), rw there refl, refl)
    | inr (none_pinned, inl empty) ↦ (none, rw empty refl, sym none_pinned)
    | inr (none_pinned, inr missing) ↦ (none, rw missing refl, sym none_pinned)
  ]

  pin_unpin_message-sends :
      (t : S)
      → IsDistinct (pinned_of s room_id)
      → pin_unpin_message api room_id event_id s ≡ (ok tt, t)
      → pinned_of t room_id ≡ toggle event_id (pinned_of s room_id)
  unfolding pin_unpin_message
  pin_unpin_message-sends t h done =
      let pinned = pinned_of s room_id in
      let (read, found, same) = read_pinned in
      stores.sends room_id (toggle event_id pinned) s t
        (ground (arith, done, found, same, length-toggle event_id pinned h))

  -- If no message is pinned twice, then after a message has been toggled without an error it is
  -- pinned exactly if it was not, every other message is pinned exactly if it was, and again none is
  -- pinned twice.
  pub pin_unpin_message-toggles :
      (t : S) (id : String)
      → IsDistinct (pinned_of s room_id)
      → pin_unpin_message api room_id event_id s ≡ (ok tt, t)
      → (contains id (pinned_of t room_id) ≡ (
          if id == event_id
          then not (contains event_id (pinned_of s room_id))
          else contains id (pinned_of s room_id)))
        × IsDistinct (pinned_of t room_id)
  pin_unpin_message-toggles t id h done = rw (pin_unpin_message-sends t h done) (
    contains-toggle id event_id (pinned_of s room_id),
    toggle-IsDistinct event_id (pinned_of s room_id),
  )

  -- If the state event names one id once too often, a message that is not pinned cannot be pinned:
  -- nothing is sent, and no error is thrown.
  pub pin_unpin_message-repeated :
      contains event_id (pinned_of s room_id) ≡ false
      → length (pinned_of s room_id) ≡ suc (length (distinct (pinned_of s room_id)))
      → pin_unpin_message api room_id event_id s ≡ (ok tt, s)
  unfolding pin_unpin_message toggle
  pin_unpin_message-repeated fresh repeated =
      let pinned = pinned_of s room_id in
      let (read, found, same) = read_pinned in
      ground (
        arith,
        found,
        same,
        contains-distinct event_id pinned,
        length-append_one (distinct pinned) event_id,
      )
