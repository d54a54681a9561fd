-- ===== src/Messaging/Timeline/Pages.antt =====
-- The requests of listMessages come to an end, and lose no page.
use mathlib.Core.List.{map-append, append_assoc, append-nil}
use sudo_secure_communicatio.Prelude.{
  ℕ, suc, zero, ◌≤◌, ◌<◌, String, ◌≡◌, ◌⊎◌, Option, none, some, Option-cases, List, ◌++◌, keep,
  length, inl, inr, arith, [], ◌∷◌, map, refl, sym, ap, ◌∙◌, Bool-cases,
}
use sudo_secure_communicatio.Exec.{Result, ok, err, promise_all}
use sudo_secure_communicatio.Exec.Laws.{post-bind, promise_all-keys}
use sudo_secure_communicatio.Rooms.Sdk.{MatrixClientManager}
use sudo_secure_communicatio.Messaging.Content.{Event, truthy}
use sudo_secure_communicatio.Messaging.Timeline.{
  EventPage, MessagesApi, is_relevant, request_limit, next_request, decrypt_if, fetch,
}

-- The ids of the messages of the pages, in the order of the pages.
abbrev pub event_ids : List Event → List (Option String)
event_ids = map (λ event. event.event_id)

abbrev pub ids_of : List EventPage → List (Option String)
ids_of [] = []
ids_of (page ∷ pages) = event_ids (keep is_relevant page.chunk) ++ ids_of pages

module _ {S : Type 0} (api : MessagesApi S) (room_id : String) where
  -- The server has answered a request for the messages from a token on with the page.
  abbrev pub Served : Option String → EventPage → Type 0
  Served token page =
      (limit : ℕ) × (s : S) × (t : S) × (api.create_messages_request room_id token limit s
        ≡ (ok page, t))

  -- Each page is served for the token that the page before it names, and the last one ends with
  -- `end`.
  abbrev pub Linked : Option String → List EventPage → Option String → Type 0
  Linked last [] end = last ≡ end
  Linked last (page ∷ pages) end =
      (next : String) × (truthy last ≡ some next)
      × Served (some next) page
      × Linked page.end pages end

  -- What the loop's outcome from a token and some events on has to be: it threw an error, or it has
  -- as many events as were wanted or has come to a page that names no further token, and the events
  -- are those that it began with and then the messages of consecutive pages from the token on; the
  -- model's "out of fuel" is none of these.
  abbrev pub Fetched :
      ℕ → Option String → List Event → Result (Option (List Event × Option String)) × S → Type 0
  Fetched limit token events (err e, t) = Unit
  Fetched limit token events (ok none, t) = ⊥
  Fetched limit token events (ok (some (fetched, end)), t) =
      ((limit ≤ length fetched) ⊎ (truthy end ≡ none))
      × ((first : EventPage) × (pages : List EventPage) × Served token first
          × Linked first.end pages end
          × (event_ids fetched ≡ event_ids events ++ ids_of (first ∷ pages)))

  -- An event that is decrypted keeps its id.
  abbrev pub KeepsIds : Type 0
  KeepsIds =
      (event decrypted : Event) (s t : S)
      → api.decrypt_event_if_needed event s ≡ (ok decrypted, t)
      → decrypted.event_id ≡ event.event_id

  -- The history that the server has is finite: `rank` bounds the number of pages from a token on.
  abbrev pub FiniteHistory : (Option String → ℕ) → Type 0
  FiniteHistory rank =
      (token : Option String) (limit : ℕ) (page : EventPage) (s t : S) (next : String)
      → api.create_messages_request room_id token limit s ≡ (ok page, t)
      → truthy page.end ≡ some next
      → rank (some next) < rank token

module _ {S : Type 0} (m : MatrixClientManager S) (api : MessagesApi S) (room_id : String)
    (limit : ℕ) (rank : Option String → ℕ) where
  next_request-none :
      (events : List Event) (end : Option String)
      → next_request limit (length events) (truthy end) ≡ none
      → (limit ≤ length events) ⊎ (truthy end ≡ none)
  unfolding next_request
  next_request-none events end e = elim (Option-cases (truthy end)) [
    | inl ended ↦ inr ended
    | inr (next, more) ↦ inl (ground (arith, e, more))
  ]

  next_request-some :
      (count : ℕ) (end : Option String) (next : String)
      → next_request limit count (truthy end) ≡ some next
      → truthy end ≡ some next
  unfolding next_request
  next_request-some count end next e = elim (Option-cases (truthy end)) [
    | inl ended ↦ absurd (ground (arith, e, ended))
    | inr (other, more) ↦ ground (arith, e, more)
  ]

  decrypt_if-event_id :
      KeepsIds api room_id
      → (event : Event) (s t : S) (decrypted : Event) → decrypt_if m api event s ≡ (ok decrypted, t)
      → decrypted.event_id ≡ event.event_id
  unfolding decrypt_if
  decrypt_if-event_id keeps event s t decrypted h = elim (Bool-cases event.is_encrypted) [
    | inl secret ↦ keeps event decrypted s t (ground (arith, h, secret))
    | inr plain ↦ let same : decrypted ≡ event = ground (arith, h, plain) in rw same refl
  ]

  decrypted-ids :
      (events decrypted : List Event) (page : EventPage) (s t : S)
      → KeepsIds api room_id
      → promise_all (decrypt_if m api) (events ++ keep is_relevant page.chunk) s ≡ (ok decrypted, t)
      → event_ids decrypted ≡ event_ids events ++ event_ids (keep is_relevant page.chunk)
  decrypted-ids events decrypted page s t keeps done =
      promise_all-keys (decrypt_if m api) (λ event. event.event_id) (λ event. event.event_id)
        (decrypt_if-event_id keeps) (events ++ keep is_relevant page.chunk) s t decrypted done
      ∙ map-append (λ event. event.event_id) events (keep is_relevant page.chunk)

  -- What holds of the outcome from the next page on, holds from this page on.
  one_more_page :
      (token : Option String) (events decrypted : List Event) (page : EventPage) (next : String)
      (outcome : Result (Option (List Event × Option String)) × S)
      → Served api room_id token page
      → truthy page.end ≡ some next
      → event_ids decrypted ≡ event_ids events ++ event_ids (keep is_relevant page.chunk)
      → Fetched api room_id limit (some next) decrypted outcome
      → Fetched api room_id limit token events outcome
  one_more_page token events decrypted page next (err e, t) served more same h = tt
  one_more_page token events decrypted page next (ok none, t) served more same h = h
  one_more_page token events decrypted page next (ok (some (fetched, end)), t) served more same
        (stop, (first, pages, here, linked, all)) =
      (
        stop,
        (
          page,
          first ∷ pages,
          served,
          (next, more, here, linked),
          all
              ∙ ap (λ ids. ids ++ ids_of (first ∷ pages)) same
              ∙ append_assoc (event_ids events) (event_ids (keep is_relevant page.chunk))
                  (ids_of (first ∷ pages)),
        ),
      )

  -- If the server's history from the first token on is finite, and decryption keeps the ids of
  -- events, then with more fuel than the history has pages the loop does not run out of fuel: it
  -- throws, or it returns at least as many events as were wanted, or has come to a page that names
  -- no further token; and the events that it returns are, by their ids, those that it began with
  -- and then the relevant ones of all the pages that it was served from the token on, each for the
  -- token of the page before, in their order.
  pub fetch-Fetched :
      (fuel : ℕ) (token : Option String) (events : List Event) (s : S)
      → FiniteHistory api room_id rank
      → KeepsIds api room_id
      → rank token < fuel
      → Fetched api room_id limit token events (fetch m api room_id limit fuel token events s)
  unfolding fetch
  fetch-Fetched zero token events s finite keeps enough = absurd (omega arith)
  fetch-Fetched (suc fuel) token events s finite keeps enough =
      post-bind (Fetched api room_id limit token events)
        (api.create_messages_request room_id token (request_limit limit (length events))) _ s
        (λ e t failed. tt)
        (λ page t got.
          post-bind (Fetched api room_id limit token events)
            (promise_all (decrypt_if m api) (events ++ keep is_relevant page.chunk)) _ t
            (λ e u failed. tt)
            (λ decrypted u done.
              let served : Served api room_id token page =
                (request_limit limit (length events), s, t, got) in
              let same = decrypted-ids events decrypted page t u keeps done in
              elim (Option-cases (next_request limit (length decrypted) (truthy page.end))) [
                | inl ended ↦ rw ended (
                  next_request-none decrypted page.end ended,
                  (
                    page,
                    [],
                    served,
                    refl,
                    same ∙ ap (λ ids. event_ids events ++ ids) (sym (append-nil _)),
                  ),
                )
                | inr (next, more) ↦
                    let further = next_request-some (length decrypted) page.end next more in
                    rw more (
                      one_more_page token events decrypted page next _ served further same (
                        fetch-Fetched fuel (some next) decrypted u finite keeps (
                          ground (
                            arith,
                            finite token (request_limit limit (length events)) page s t next got
                                further,
                          ))))
              ]))
