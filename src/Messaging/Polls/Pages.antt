-- ===== src/Messaging/Polls/Pages.antt =====
-- The responses to a poll that come in several pages.
use sudo_secure_communicatio.Prelude.{
  ℕ, suc, zero, ◌≤◌, String, Option, none, some, List, [], ◌∷◌, ◌++◌, ◌≡◌, refl, length, Dict,
  arith,
}
use sudo_secure_communicatio.Exec.{ok}
use sudo_secure_communicatio.Messaging.Polls.{
  PollEvent, Page, PollApi, Response, add_responses, to_poll_responses, end_of, more, collect,
  get_poll_responses,
}

abbrev pub events_of : List Page → List PollEvent
events_of [] = []
events_of (page ∷ pages) = page.events ++ events_of pages

add_responses-append :
    (ended : Option ℕ) (before after : List PollEvent) (latest : Dict Response)
    → add_responses ended (before ++ after) latest
      ≡ add_responses ended after (add_responses ended before latest)
unfolding add_responses
add_responses-append ended [] after latest = refl
add_responses-append ended (event ∷ before) after latest = add_responses-append ended before after _

module _ {S : Type 0} (api : PollApi S) (room_id poll_id : String) (s : S) where
  -- The server answers with these pages, one after the other, from the batch on, and the last names
  -- no next batch.
  abbrev pub Serves : Option String → List Page → Type 0
  Serves batch [] = ⊥
  Serves batch (page ∷ []) =
      (api.poll_responses room_id poll_id batch s ≡ (ok page, s)) × (more page.next_batch ≡ none)
  Serves batch (page ∷ next ∷ pages) =
      (api.poll_responses room_id poll_id batch s ≡ (ok page, s))
      × ((token : String) × (more page.next_batch ≡ some token)
          × Serves (some token) (next ∷ pages))

  collect-Serves :
      (ended : Option ℕ) (fuel : ℕ) (batch : Option String) (pages : List Page)
      (latest : Dict Response)
      → length pages ≤ fuel
      → Serves batch pages
      → collect api room_id poll_id ended fuel latest batch s
        ≡ (ok (some (add_responses ended (events_of pages) latest)), s)
  unfolding collect
  collect-Serves ended fuel batch [] latest enough h = absurd h
  collect-Serves ended zero batch (page ∷ pages) latest enough h = absurd (omega arith)
  collect-Serves ended (suc fuel) batch (page ∷ []) latest enough (read, last) =
      rw (read, last) (rw (add_responses-append ended page.events [] latest, add_responses) refl)
  collect-Serves ended (suc fuel) batch (page ∷ next ∷ pages) latest enough (read, (token, go, h)) =
      rw (read, go, add_responses-append ended page.events (events_of (next ∷ pages)) latest)
        (collect-Serves ended fuel (some token) (next ∷ pages)
          (add_responses ended page.events latest) (omega arith) h)

  -- Where the server answers with finitely many pages, as much fuel as there are pages is enough:
  -- getPollResponses returns, and what it returns is the evaluation of the events of all pages as
  -- if they had come in one.
  pub get_poll_responses-Serves :
      (fuel : ℕ) (poll_end : Page) (pages : List Page)
      → api.poll_ends room_id poll_id s ≡ (ok poll_end, s)
      → Serves none pages
      → length pages ≤ fuel
      → get_poll_responses api fuel room_id poll_id s ≡ (
        ok (
            some (
              to_poll_responses
                (end_of poll_end.events)
                (add_responses (end_of poll_end.events) (events_of pages) []))),
        s,
      )
  unfolding get_poll_responses
  get_poll_responses-Serves fuel poll_end pages ends h enough =
      rw (ends, collect-Serves (end_of poll_end.events) fuel none pages [] enough h) refl
