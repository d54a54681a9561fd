-- ===== src/Messaging/Polls/Latest.antt =====
-- Which response of a user add_responses keeps.
use sudo_secure_communicatio.Prelude.{
  ℕ, String, Bool, true, false, Option, none, some, List, [], ◌∷◌, ◌≡◌, refl, ◌∙◌, ap, ◌⊎◌, inl,
  inr, ◌==◌, eq_iff, map, leb, All, Dict, lookup, lookup-insert, arith, if◌then◌else◌,
}
use sudo_secure_communicatio.Messaging.Polls.{
  PollEvent, Response, response_of, add_response, add_responses, is_newer,
}

-- The response of the user, if the event has one that counts.
abbrev pub by_user : String → Option (String × Response) → Option Response
by_user user none = none
by_user user (some (sender, response)) = if sender == user then some response else none

abbrev pub votes_of : Option ℕ → String → List PollEvent → List (Option Response)
votes_of ended user events = map (λ event. by_user user (response_of ended event)) events

abbrev later : Option Response → Option Response → Option Response
later previous none = previous
later previous (some response) = if is_newer previous response then some response else previous

latest_of : Option Response → List (Option Response) → Option Response
latest_of previous [] = previous
latest_of previous (vote ∷ votes) = latest_of (later previous vote) votes

lookup-add_response :
    (user : String) (response : Option (String × Response)) (latest : Dict Response)
    → lookup user (add_response response latest)
      ≡ later (lookup user latest) (by_user user response)
unfolding add_response
lookup-add_response user none latest = refl
lookup-add_response user (some (sender, response)) latest =
    ground (arith, lookup-insert sender user response latest, eq_iff sender user)

lookup-add_responses :
    (ended : Option ℕ) (user : String) (events : List PollEvent) (latest : Dict Response)
    → lookup user (add_responses ended events latest)
      ≡ latest_of (lookup user latest) (votes_of ended user events)
unfolding add_responses latest_of
lookup-add_responses ended user [] latest = refl
lookup-add_responses ended user (event ∷ events) latest =
    let added = add_response (response_of ended event) latest in
    lookup-add_responses ended user events added
    ∙ ap (λ previous. latest_of previous (votes_of ended user events))
        (lookup-add_response user (response_of ended event) latest)

abbrev pub is_none : Option Response → Bool
is_none none = true
is_none (some response) = false

-- The vote is no later than the response.
abbrev pub is_by : Response → Option Response → Bool
is_by response none = true
is_by response (some vote) = leb vote.timestamp response.timestamp

-- One of the votes is the response.
abbrev pub Has : Response → List (Option Response) → Type 0
Has response [] = ⊥
Has response (vote ∷ votes) = (vote ≡ some response) ⊎ Has response votes

-- There is no vote; or the response is one of them, and no vote is later.
abbrev pub IsLatest : List (Option Response) → Option Response → Type 0
IsLatest votes none = All (λ vote. is_none vote ≡ true) votes
IsLatest votes (some response) = Has response votes × All (λ vote. is_by response vote ≡ true) votes

latest_of-none :
    (previous : Option Response) (votes : List (Option Response))
    → latest_of previous votes ≡ none
    → (previous ≡ none) × All (λ vote. is_none vote ≡ true) votes
unfolding latest_of
latest_of-none previous [] h = (h, tt)
latest_of-none previous (vote ∷ votes) h =
    let (none_later, rest) = latest_of-none (later previous vote) votes h in
    (ground arith, (ground arith, rest))

later_is_either :
    (previous vote : Option Response) (response : Response)
    → later previous vote ≡ some response
    → (previous ≡ some response) ⊎ (vote ≡ some response)
later_is_either previous none response h = inl h
later_is_either previous (some new) response h = ground arith

latest_of-some :
    (previous : Option Response) (votes : List (Option Response)) (response : Response)
    → latest_of previous votes ≡ some response
    → ((previous ≡ some response) ⊎ Has response votes)
      × (is_by response previous ≡ true)
      × All (λ vote. is_by response vote ≡ true) votes
unfolding latest_of
latest_of-some previous [] response h = (inl h, ground arith, tt)
latest_of-some previous (vote ∷ votes) response h =
    let (found, later_by, rest) = latest_of-some (later previous vote) votes response h in
    (
      elim found [
        | inl same ↦ elim (later_is_either previous vote response same) [
          | inl old ↦ inl old
          | inr new ↦ inr (inl new)
        ]
        | inr has ↦ inr (inr has)
      ],
      ground arith,
      (ground arith, rest),
    )

IsLatest-latest_of :
    (votes : List (Option Response)) (o : Option Response)
    → latest_of none votes ≡ o
    → IsLatest votes o
IsLatest-latest_of votes none h = (latest_of-none none votes h).1
IsLatest-latest_of votes (some response) h =
    let (found, by, rest) = latest_of-some none votes response h in
    (elim found [ inl impossible ↦ absurd (ground arith) | inr has ↦ has ], rest)

-- The response that is kept of a user, once the responses of all events have been added to none, is
-- the user's latest: one that counts, and no other of the user's that counts is later. If none is
-- kept, none of the user's counts.
pub add_responses-IsLatest :
    (ended : Option ℕ) (events : List PollEvent) (user : String)
    → IsLatest (votes_of ended user events) (lookup user (add_responses ended events []))
unfolding lookup
add_responses-IsLatest ended events user = rw (lookup-add_responses ended user events []) (
    IsLatest-latest_of (votes_of ended user events) (latest_of none (votes_of ended user events))
      refl)
