-- ===== src/Words.antt =====
-- The check of the words of an input that the use cases for creating and updating channels and
-- groups begin with (`wordsToValidate`, in src/private/domain/use-cases/).
pub mod Laws
use sudo_secure_communicatio.Prelude.{
  String, Option, none, some, List, [], ◌∷◌, ◌==◌, length, distinct, nat_eq, if◌then◌else◌,
}
use sudo_secure_communicatio.Errors.{thrown, unacceptable_words}
use sudo_secure_communicatio.Exec.{Exec, pass, raise, ◌>>=◌}

-- `...(text ? [text] : [])`
abbrev pub word_of : Option String → List String
word_of none = []
word_of (some text) = if text == "" then [] else text ∷ []

-- `check_word_validity` is WordValidationService's, which returns the valid ones of the words.
unfoldable pub validate_words :
    {S : Type 0} → (List String → Exec S (List String)) → List String → Exec S Unit
unfolding distinct
validate_words check_word_validity words = do
  let words_to_validate = distinct words
  valid_words ← check_word_validity words_to_validate
  if nat_eq (length words_to_validate) (length valid_words)
      then pass
      else raise (thrown unacceptable_words none)
