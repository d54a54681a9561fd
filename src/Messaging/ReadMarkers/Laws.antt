-- ===== src/Messaging/ReadMarkers/Laws.antt =====
-- What marking a room as read or as unread leaves.
use sudo_secure_communicatio.Prelude.{
  String, ◌≡◌, sym, ap, ◌∙◌, Bool, true, false, not, Option, inl, inr, Bool-cases, arith,
  if◌then◌else◌,
}
use sudo_secure_communicatio.Exec.{ok, when, ◌>>=◌}
use sudo_secure_communicatio.Exec.Laws.{bind-eq-ok, or_fail-eq-ok}
use sudo_secure_communicatio.Rooms.Sdk.{MatrixClientManager, SdkRoom}
use sudo_secure_communicatio.Messaging.ReadMarkers.{
  ReadApi, is_marked, existing_room, mark, mark_as_unread, send_receipt, receipt_and_unmark,
  send_read_receipt,
}

-- `server s room_id` is whether the homeserver has the room marked as unread. A request to set the
-- mark sets it there; what the SDK reads is its own copy, which changes when it syncs, and reading
-- it changes nothing.
pub record StoresMark {S : Type 0} (api : ReadApi S) (server : S → String → Bool) : Type 0 where
  pub sets :
      (room_id : String) (unread : Bool) (s t : S)
      → api.set_marked_unread room_id unread s ≡ (ok tt, t)
      → server t room_id ≡ unread
  pub reads_copy :
      (room_id : String) (unread : Option Bool) (s t : S)
      → api.get_marked_unread room_id s ≡ (ok unread, t)
      → t ≡ s

-- The SDK's copy of the room's mark is `read`.
abbrev pub Copied : {S : Type 0} → ReadApi S → String → Option Bool → S → Type 0
Copied api room_id read s = (api.get_marked_unread room_id s).0 ≡ ok read

module _ {S : Type 0} (m : MatrixClientManager S) (api : ReadApi S) (server : S → String → Bool)
    (room_id : String) where
  -- The SDK's copy of the room's mark is the homeserver's.
  abbrev pub Synced : S → Type 0
  Synced s = (read : Option Bool) × Copied api room_id read s × (is_marked read ≡ server s room_id)

  -- It is when markAsUnread reads it, in a call from `s`, and when sendReadReceipt does.
  abbrev pub SyncedForUnread : S → Type 0
  SyncedForUnread s =
      (room : SdkRoom) (s1 : S) → existing_room m api room_id s ≡ (ok room, s1) → Synced s1

  abbrev pub SyncedForRead : S → Type 0
  SyncedForRead s = (s1 : S) → send_receipt m api room_id s ≡ (ok tt, s1) → Synced s1

module _ {S : Type 0} (m : MatrixClientManager S) (api : ReadApi S) (server : S → String → Bool)
    (stores : StoresMark api server) (room_id : String) where
  -- what both methods end with
  set_if-server :
      (wanted : Bool) (changes : Option Bool → Bool) (copy : Option Bool) (s t : S)
      → Copied api room_id copy s
      → (api.get_marked_unread room_id >>= λ unread.
            when (changes unread) (api.set_marked_unread room_id wanted))
          s
        ≡ (ok tt, t)
      → server t room_id ≡ (if changes copy then wanted else server s room_id)
  set_if-server wanted changes copy s t copied h =
      let set = api.set_marked_unread room_id wanted in
      let (read, u, got, rest) = bind-eq-ok (api.get_marked_unread room_id) _ s t tt h in
      let unmoved : u ≡ s = stores.reads_copy room_id read s u got in
      let same : read ≡ copy = ground (arith, got, copied) in
      let done : when (changes copy) set s ≡ (ok tt, t) =
        (λ i. when (changes (sym same i)) set (sym unmoved i)) ∙ rest in
      elim (Bool-cases (changes copy)) [
        | inl change ↦
            rw change (stores.sets room_id wanted s t (ap (λ b. when b set s) (sym change) ∙ done))
        | inr kept ↦
            let still : s ≡ t = ap (λ p. p.1) (ap (λ b. when b set s) (sym kept) ∙ done) in
            rw kept (ap (λ v. server v room_id) (sym still))
      ]

  mark_as_unread-server :
      (s t : S)
      → SyncedForUnread m api server room_id s
      → mark_as_unread m api room_id s ≡ (ok tt, t)
      → server t room_id ≡ true
  unfolding mark_as_unread mark
  mark_as_unread-server s t synced h =
      let body = or_fail-eq-ok "Failed to mark as unread" (mark m api room_id) s t tt h in
      let (room, s1, there, last) = bind-eq-ok (existing_room m api room_id) _ s t tt body in
      let (read, copied, same) = synced room s1 there in
      let set = set_if-server true (λ unread. not (is_marked unread)) read s1 t copied last in
      elim (Bool-cases (is_marked read)) [
        | inl marked ↦ ground (arith, set, same, marked)
        | inr unmarked ↦ ground (arith, set, unmarked)
      ]

  send_read_receipt-server :
      (s s1 t : S) (read : Option Bool)
      → send_receipt m api room_id s ≡ (ok tt, s1)
      → Copied api room_id read s1
      → send_read_receipt m api room_id s ≡ (ok tt, t)
      → server t room_id ≡ (if is_marked read then false else server s1 room_id)
  unfolding send_read_receipt receipt_and_unmark
  send_read_receipt-server s s1 t read sent copied h =
      let body =
        or_fail-eq-ok "Failed to send read receipt" (receipt_and_unmark m api room_id) s t tt h in
      let (done, s2, again, last) = bind-eq-ok (send_receipt m api room_id) _ s t tt body in
      let same : s2 ≡ s1 = ground (arith, sent, again) in
      set_if-server false is_marked read s1 t copied (rw same at last)

  -- If a request for a room's mark sets it at the homeserver, and the SDK's copy of the mark is the
  -- homeserver's whenever one of the two methods reads it, then the homeserver has the room marked
  -- as unread after markAsUnread has returned, and no longer has after a sendReadReceipt, called in
  -- whatever later state, has returned.
  pub read_after_unread :
      (s t later u : S)
      → SyncedForUnread m api server room_id s
      → mark_as_unread m api room_id s ≡ (ok tt, t)
      → SyncedForRead m api server room_id later
      → send_read_receipt m api room_id later ≡ (ok tt, u)
      → (server t room_id ≡ true) × (server u room_id ≡ false)
  unfolding send_read_receipt receipt_and_unmark
  read_after_unread s t later u synced unread synced_later read_done =
      let body =
        or_fail-eq-ok "Failed to send read receipt" (receipt_and_unmark m api room_id) later u tt
          read_done in
      let (done, s1, sent, last) = bind-eq-ok (send_receipt m api room_id) _ later u tt body in
      let (read, copied, same) = synced_later s1 sent in
      let set = send_read_receipt-server later s1 u read sent copied read_done in
      (
        mark_as_unread-server s t synced unread,
        elim (Bool-cases (is_marked read)) [
          | inl marked ↦ ground (arith, set, marked)
          | inr unmarked ↦ ground (arith, set, same, unmarked)
        ],
      )

  -- If the SDK's copy was the homeserver's when markAsUnread read it, but is not yet marked when a
  -- sendReadReceipt that follows at once reads it, and the sending of the receipt itself leaves the
  -- homeserver's mark alone, then the room stays marked as unread, although both have returned.
  pub read_before_sync :
      (s t s1 u : S) (read : Option Bool)
      → SyncedForUnread m api server room_id s
      → mark_as_unread m api room_id s ≡ (ok tt, t)
      → send_receipt m api room_id t ≡ (ok tt, s1)
      → server s1 room_id ≡ server t room_id
      → Copied api room_id read s1
      → is_marked read ≡ false
      → send_read_receipt m api room_id t ≡ (ok tt, u)
      → server u room_id ≡ true
  read_before_sync s t s1 u read synced unread sent kept copied unmarked read_done =
      let marked = mark_as_unread-server s t synced unread in
      let set = send_read_receipt-server t s1 u read sent copied read_done in
      ground (arith, set, unmarked, kept, marked)
