-- ===== src/Sessions/Queue/Line.antt =====
-- What `runSessionWorkSerialized` promises: for each handle, a line that is served one at a time and
-- in the order of the calls.
use sudo_secure_communicatio.Prelude.{ℕ, String, Option, none, some, List, [], ◌∷◌, ◌++◌, ◌≡◌, ◌≢◌}

-- The calls of one handle that wait, the first to be served first, and the one that is served.
pub record Line : Type 0 where
  pub serving : Option ℕ
  pub line : List ℕ

pub data Serve : Line → Line → Type 0 where
  enter :
      {l l' : Line} (id : ℕ) → l'.serving ≡ l.serving → l'.line ≡ l.line ++ (id ∷ []) → Serve l l'
  serve :
      {l l' : Line} (id : ℕ)
      → l.serving ≡ none
      → l.line ≡ id ∷ l'.line
      → l'.serving ≡ some id
      → Serve l l'
  leave :
      {l l' : Line} (id : ℕ)
      → l.serving ≡ some id
      → l'.serving ≡ none
      → l'.line ≡ l.line
      → Serve l l'

-- One step of all lines: the line of one handle moves and the others stay.
abbrev pub OneMoves : (String → Line) → (String → Line) → Type 0
OneMoves before after =
    (handle_id : String) × Serve (before handle_id) (after handle_id)
    × ((other : String) → other ≢ handle_id → after other ≡ before other)
