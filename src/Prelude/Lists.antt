-- ===== src/Prelude/Lists.antt =====
-- Lists with Boolean tests, as JavaScript's array methods use them.
use Prim.Native.Nat.{ℕ, suc}
use Prim.Native.String.{String}
use mathlib.Core.Path.{◌≡◌, refl}
use mathlib.Core.Bool.{Bool, true, false, ◌&&◌, ◌||◌}
use mathlib.Core.Option.{Option, none, some}
use mathlib.Core.List.{List, [], ◌∷◌, ◌++◌}
use native.Mathlib.Omega.{arith}
use text.Mathlib.Text.{◌==◌}
use text.Mathlib.TextEquality.{eq_iff}
use text.Mathlib.TextPositions.{eq_refl}
use sudo_secure_communicatio.Prelude.Tests.{if◌then◌else◌}

module _ {ℓ} {A : Type ℓ} where
  abbrev pub length : List A → ℕ
  length [] = 0
  length (x ∷ xs) = suc (length xs)

  -- `every`
  abbrev pub all : (A → Bool) → List A → Bool
  all p [] = true
  all p (x ∷ xs) = p x && all p xs

  -- `some`
  abbrev pub any : (A → Bool) → List A → Bool
  any p [] = false
  any p (x ∷ xs) = p x || any p xs

  -- `find`
  abbrev pub find : (A → Bool) → List A → Option A
  find p [] = none
  find p (x ∷ xs) = if p x then some x else find p xs

  -- `filter`
  abbrev pub keep : (A → Bool) → List A → List A
  keep p [] = []
  keep p (x ∷ xs) = if p x then x ∷ keep p xs else keep p xs

  abbrev pub All : (A → Type 0) → List A → Type 0
  All P [] = Unit
  All P (x ∷ xs) = P x × All P xs

-- `includes` on a list of strings
abbrev pub contains : String → List String → Bool
contains s [] = false
contains s (x ∷ xs) = x == s || contains s xs

pub contains-append :
    (s : String) (xs ys : List String) → contains s (xs ++ ys) ≡ (contains s xs || contains s ys)
contains-append s [] ys = refl
contains-append s (x ∷ xs) ys = ground (arith, contains-append s xs ys)

-- `new Set(xs)` as the list of its members, in the order of their first occurrences
abbrev pub without : String → List String → List String
without s [] = []
without s (x ∷ xs) = if x == s then without s xs else x ∷ without s xs

unfoldable pub distinct : List String → List String
distinct [] = []
distinct (x ∷ xs) = x ∷ without x (distinct xs)

pub contains-without :
    (s t : String) (xs : List String)
    → contains s (without t xs) ≡ (if t == s then false else contains s xs)
contains-without s t [] = ground arith
contains-without s t (x ∷ xs) =
    ground (arith, contains-without s t xs, eq_iff x t, eq_iff x s, eq_iff t s)

pub contains-distinct : (s : String) (xs : List String) → contains s (distinct xs) ≡ contains s xs
unfolding distinct
contains-distinct s [] = refl
contains-distinct s (x ∷ xs) =
    ground (arith, contains-distinct s xs, contains-without s x (distinct xs))

-- No text stands twice in the list.
abbrev pub IsDistinct : List String → Type 0
IsDistinct [] = Unit
IsDistinct (x ∷ xs) = (contains x xs ≡ false) × IsDistinct xs

pub IsDistinct-without : (s : String) (xs : List String) → IsDistinct xs → IsDistinct (without s xs)
IsDistinct-without s [] h = tt
IsDistinct-without s (x ∷ xs) (here, later) =
    ground (arith, contains-without x s xs, IsDistinct-without s xs later)

pub distinct-IsDistinct : (xs : List String) → IsDistinct (distinct xs)
unfolding distinct
distinct-IsDistinct [] = tt
distinct-IsDistinct (x ∷ xs) = (
  ground (arith, contains-without x x (distinct xs), eq_refl x),
  IsDistinct-without x (distinct xs) (distinct-IsDistinct xs),
)

module _ {ℓ} {A : Type ℓ} where
  -- the values of the optional results, `filter((x) => !!x)`
  abbrev pub present : List (Option A) → List A
  present [] = []
  present (none ∷ os) = present os
  present (some a ∷ os) = a ∷ present os
