-- ===== src/Messaging/Polls/Tally.antt =====
-- How often an answer is counted.
use sudo_secure_communicatio.Prelude.{
  ℕ, ◌+◌, String, Option, List, [], ◌∷◌, ◌≡◌, refl, ◌==◌, eq_iff, or_else, length, Dict, lookup,
  insert, lookup-insert, arith, if◌then◌else◌,
}
use sudo_secure_communicatio.Messaging.Polls.{
  Response, add_answers, tally, sum_counts, to_poll_responses,
}

-- How often the text stands in the list.
abbrev pub occurrences : String → List String → ℕ
occurrences s [] = 0
occurrences s (x ∷ xs) = (if x == s then 1 else 0) + occurrences s xs

-- How often the answer stands in the responses, and how many answers there are.
abbrev pub all_occurrences : String → Dict Response → ℕ
all_occurrences s [] = 0
all_occurrences s ((user, response) ∷ latest) =
    occurrences s response.answers + all_occurrences s latest

abbrev pub all_answers : Dict Response → ℕ
all_answers [] = 0
all_answers ((user, response) ∷ latest) = length response.answers + all_answers latest

abbrev pub count_of : String → Dict ℕ → ℕ
count_of answer tallied = or_else (lookup answer tallied) 0

count_of-add_answers :
    (s : String) (answers : List String) (tallied : Dict ℕ)
    → count_of s (add_answers answers tallied) ≡ count_of s tallied + occurrences s answers
unfolding add_answers
count_of-add_answers s [] tallied = omega arith
count_of-add_answers s (answer ∷ answers) tallied =
    let added = insert answer (or_else (lookup answer tallied) 0 + 1) tallied in
    ground (
      arith,
      count_of-add_answers s answers added,
      lookup-insert answer s (or_else (lookup answer tallied) 0 + 1) tallied,
      eq_iff answer s,
    )

sum_counts-insert :
    (s : String) (tallied : Dict ℕ)
    → sum_counts (insert s (or_else (lookup s tallied) 0 + 1) tallied) ≡ sum_counts tallied + 1
unfolding sum_counts lookup insert
sum_counts-insert s [] = refl
sum_counts-insert s ((t, n) ∷ tallied) = ground (arith, sum_counts-insert s tallied)

sum_counts-add_answers :
    (answers : List String) (tallied : Dict ℕ)
    → sum_counts (add_answers answers tallied) ≡ sum_counts tallied + length answers
unfolding add_answers
sum_counts-add_answers [] tallied = omega arith
sum_counts-add_answers (answer ∷ answers) tallied =
    let added = insert answer (or_else (lookup answer tallied) 0 + 1) tallied in
    ground (arith, sum_counts-add_answers answers added, sum_counts-insert answer tallied)

count_of-tally :
    (s : String) (latest : Dict Response) (tallied : Dict ℕ)
    → count_of s (tally latest tallied) ≡ count_of s tallied + all_occurrences s latest
unfolding tally
count_of-tally s [] tallied = omega arith
count_of-tally s ((user, response) ∷ latest) tallied = ground (
  arith,
  count_of-tally s latest (add_answers response.answers tallied),
  count_of-add_answers s response.answers tallied,
)

sum_counts-tally :
    (latest : Dict Response) (tallied : Dict ℕ)
    → sum_counts (tally latest tallied) ≡ sum_counts tallied + all_answers latest
unfolding tally
sum_counts-tally [] tallied = omega arith
sum_counts-tally ((user, response) ∷ latest) tallied = ground (
  arith,
  sum_counts-tally latest (add_answers response.answers tallied),
  sum_counts-add_answers response.answers tallied,
)

-- The count of an answer is the number of times that it stands in the responses that were kept, and
-- the total is the number of their answers.
pub to_poll_responses-counts :
    (ended : Option ℕ) (latest : Dict Response) (answer : String)
    → (count_of answer (to_poll_responses ended latest).tallied_answers
        ≡ all_occurrences answer latest)
      × ((to_poll_responses ended latest).total_votes ≡ all_answers latest)
unfolding to_poll_responses lookup sum_counts
to_poll_responses-counts ended latest answer =
    (ground (arith, count_of-tally answer latest []), ground (arith, sum_counts-tally latest []))
