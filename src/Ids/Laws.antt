-- ===== src/Ids/Laws.antt =====
-- Handle ids and Matrix user ids, there and back.
use Prim.Native.Char.{code}
use Prim.Native.String.{◌++◌}
use text.Mathlib.TextLemmas.{nil-append, cons-append, append-nil}
use sudo_secure_communicatio.Prelude.{ℕ, String, ◌≡◌, ap, ◌∙◌, ◌≢◌, some, false, arith, nat_eq}
use sudo_secure_communicatio.Ids.{until, after, to_matrix_user_id, to_handle_id}

-- `c` is none of the characters of the text.
abbrev pub Free : ℕ → String → Type 0
Free c String.[] = Unit
Free c (String.◌∷◌ d s) = (code d ≢ c) × Free c s

until-append : (c : ℕ) (s t : String) → Free c s → until c (s ++ t) ≡ s ++ until c t
unfolding until
until-append c String.[] t h = simp nil-append
until-append c (String.◌∷◌ d s) t (h, free) =
    let differs : nat_eq (code d) c ≡ false = ground arith in
    rw (cons-append d s t, cons-append d s (until c t), differs, until-append c s t free)

cons_literal : (t : String) → ":" ++ t ≡ String.◌∷◌ ":" t
cons_literal t = cons-append ":" "" t ∙ ap (String.◌∷◌ ":") (nil-append t)

after-append : (t : String) → after b'@' ("@" ++ t) ≡ some t
unfolding after
after-append t = rw (cons-append "@" "" t, nil-append t)

-- The handle id of the Matrix user id that is made from a handle id is that handle id, if it has
-- neither an `@` nor a `:`, whatever the home server's name.
pub to_handle_id-to_matrix_user_id :
    (id home_server : String)
    → Free b'@' id
    → Free b':' id
    → to_handle_id (to_matrix_user_id id home_server) ≡ id
unfolding to_handle_id to_matrix_user_id
to_handle_id-to_matrix_user_id id hs at colon =
    rw (after-append (id ++ ":" ++ hs), until-append b'@' id (":" ++ hs) at, cons_literal hs)
      (until-append b':' id (until b'@' (String.◌∷◌ ":" hs)) colon ∙ append-nil id)
