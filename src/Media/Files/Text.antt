-- ===== src/Media/Files/Text.antt =====
-- JavaScript's functions on strings that the URLs of files are made and read with. A character is
-- given by its code.
use Prim.Native.Char.{code}
use Prim.Native.String.{◌++◌}
use sudo_secure_communicatio.Prelude.{
  ℕ, String, Bool, true, false, ◌||◌, ◌&&◌, nat_eq, if◌then◌else◌,
}

-- `s.includes(c)`
unfoldable pub has : ℕ → String → Bool
has c String.[] = false
has c (String.◌∷◌ d s) = nat_eq (code d) c || has c s

-- `s.replace(/^c+/, '')`
unfoldable pub strip_leading : ℕ → String → String
strip_leading c String.[] = ""
strip_leading c (String.◌∷◌ d s) =
    let rest = strip_leading c s in if nat_eq (code d) c then rest else String.◌∷◌ d s

-- `s.replace(/c/g, t)`
unfoldable pub replace_all : ℕ → String → String → String
replace_all c t String.[] = ""
replace_all c t (String.◌∷◌ d s) =
    let rest = replace_all c t s in if nat_eq (code d) c then t ++ rest else String.◌∷◌ d rest

-- `s.replace(c, t)`
unfoldable pub replace_first : ℕ → String → String → String
replace_first c t String.[] = ""
replace_first c t (String.◌∷◌ d s) =
    let rest = replace_first c t s in if nat_eq (code d) c then t ++ s else String.◌∷◌ d rest

-- the last of `s.split(c)`
unfoldable pub after_last : ℕ → String → String
unfolding has
after_last c String.[] = ""
after_last c (String.◌∷◌ d s) =
    let rest = after_last c s in
    if has c s then rest else if nat_eq (code d) c then s else String.◌∷◌ d s

-- `s.startsWith(prefix)`
unfoldable pub starts_with : String → String → Bool
starts_with String.[] s = true
starts_with (String.◌∷◌ c prefix) String.[] = false
starts_with (String.◌∷◌ c prefix) (String.◌∷◌ d s) =
    nat_eq (code c) (code d) && starts_with prefix s

-- `s.includes(part)`
unfoldable pub includes : String → String → Bool
unfolding starts_with
includes part String.[] = starts_with part ""
includes part (String.◌∷◌ d s) = starts_with part (String.◌∷◌ d s) || includes part s
