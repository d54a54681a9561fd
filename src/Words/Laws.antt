-- ===== src/Words/Laws.antt =====
-- Which inputs pass the check of their words.
use sudo_secure_communicatio.Prelude.{
  ◌≤◌, String, Bool, true, List, [], ◌∷◌, ◌≡◌, refl, eq_iff, all, keep, distinct, without, length,
  nat_eq, none, if◌then◌else◌, arith,
}
use sudo_secure_communicatio.Errors.{thrown, unacceptable_words}
use sudo_secure_communicatio.Exec.{Exec, ok, err}
use sudo_secure_communicatio.Words.{validate_words}

module _ (valid : String → Bool) where
  length-keep_le : (words : List String) → length (keep valid words) ≤ length words
  length-keep_le [] = ground arith
  length-keep_le (word ∷ words) = ground (arith, length-keep_le words)

  length-keep :
      (words : List String) → nat_eq (length words) (length (keep valid words)) ≡ all valid words
  length-keep [] = ground arith
  length-keep (word ∷ words) = ground (arith, length-keep words, length-keep_le words)

  all-without :
      (word : String) (words : List String)
      → valid word ≡ true
      → all valid (without word words) ≡ all valid words
  all-without word [] h = refl
  all-without word (x ∷ words) h = ground (arith, eq_iff x word, all-without word words h)

  all-distinct : (words : List String) → all valid (distinct words) ≡ all valid words
  unfolding distinct
  all-distinct [] = refl
  all-distinct (word ∷ words) =
      ground (arith, all-distinct words, all-without word (distinct words))

  -- Where the service answers with the valid ones of the words it is asked about, an input passes
  -- when all its words are valid, however often each is named, and otherwise UnacceptableWordsError
  -- is thrown.
  pub validate_words_lem :
      {S : Type 0} (check_word_validity : List String → Exec S (List String)) (words : List String)
      (s : S)
      → ((asked : List String) → check_word_validity asked s ≡ (ok (keep valid asked), s))
      → validate_words check_word_validity words s
        ≡ (if all valid words then (ok tt, s) else (err (thrown unacceptable_words none), s))
  unfolding validate_words
  validate_words_lem check_word_validity words s answers =
      ground (arith, answers (distinct words), length-keep (distinct words), all-distinct words)
