-- ===== src/Media/Files/Laws.antt =====
-- The URL of a file leads back to its key.
use Prim.Native.Char.{code}
use Prim.Native.String.{◌++◌}
use text.Mathlib.TextLemmas.{nil-append, cons-append, append-nil, append_assoc}
use sudo_secure_communicatio.Prelude.{
  ℕ, String, ◌≡◌, ◌≢◌, refl, sym, true, false, ◌||◌, some, nat_eq, if◌then◌else◌, arith, Bool-cases,
  inl, inr,
}
use sudo_secure_communicatio.Ids.{until, after}
use sudo_secure_communicatio.Media.Entities.{MediaCredential}
use sudo_secure_communicatio.Media.Files.Text.{
  has, starts_with, includes, strip_leading, replace_all, replace_first, after_last,
}
use sudo_secure_communicatio.Media.Files.{
  sanitized, mxc_url, object_key, key_of_url, extract_object_key_prefix, second_part,
}

has-append : (c : ℕ) (s t : String) → has c (s ++ t) ≡ (has c s || has c t)
unfolding has
has-append c String.[] t = rw nil-append refl
has-append c (String.◌∷◌ d s) t = rw (cons-append d s t) (ground (arith, has-append c s t))

replace_all-append :
    (c : ℕ) (r s t : String) → replace_all c r (s ++ t) ≡ replace_all c r s ++ replace_all c r t
unfolding replace_all
replace_all-append c r String.[] t = rw nil-append (sym (nil-append (replace_all c r t)))
replace_all-append c r (String.◌∷◌ d s) t =
    rw (cons-append d s t, replace_all-append c r s t)
      (elim (Bool-cases (nat_eq (code d) c)) [
        | inl found ↦ rw found (sym (append_assoc r (replace_all c r s) (replace_all c r t)))
        | inr other ↦ rw other (sym (cons-append d (replace_all c r s) (replace_all c r t)))
      ])

replace_all-absent : (c : ℕ) (r s : String) → has c s ≡ false → replace_all c r s ≡ s
unfolding has replace_all
replace_all-absent c r String.[] h = refl
replace_all-absent c r (String.◌∷◌ d s) h = ground (arith, replace_all-absent c r s)

replace_first-absent : (c : ℕ) (r s : String) → has c s ≡ false → replace_first c r s ≡ s
unfolding has replace_first
replace_first-absent c r String.[] h = refl
replace_first-absent c r (String.◌∷◌ d s) h = ground (arith, replace_first-absent c r s)

-- The first occurrence is in the first part, if there is one.
replace_first-append :
    (c : ℕ) (r s t : String)
    → replace_first c r (s ++ t)
      ≡ (if has c s then replace_first c r s ++ t else s ++ replace_first c r t)
unfolding has replace_first
replace_first-append c r String.[] t = rw nil-append (sym (nil-append (replace_first c r t)))
replace_first-append c r (String.◌∷◌ d s) t = elim (Bool-cases (nat_eq (code d) c)) [
  | inl found ↦ rw (cons-append d s t, found) (sym (append_assoc r s t))
  | inr other ↦
      rw (cons-append d s t, other, replace_first-append c r s t)
        (elim (Bool-cases (has c s)) [
          | inl later ↦ rw later (sym (cons-append d (replace_first c r s) t))
          | inr never ↦ rw never (sym (cons-append d s (replace_first c r t)))
        ])
]

after_last-absent : (c : ℕ) (s : String) → has c s ≡ false → after_last c s ≡ s
unfolding has after_last
after_last-absent c String.[] h = refl
after_last-absent c (String.◌∷◌ d s) h = ground (arith, h)

-- What comes after the last slash of two parts.
after_last-append :
    (c : ℕ) (s t : String)
    → after_last c (s ++ t)
      ≡ (if has c t then after_last c t else if has c s then after_last c s ++ t else s ++ t)
unfolding has after_last
after_last-append c String.[] t = elim (Bool-cases (has c t)) [
  | inl found ↦ rw (nil-append t, found) refl
  | inr never ↦ rw (nil-append t, never) (after_last-absent c t never)
]
after_last-append c (String.◌∷◌ d s) t =
    rw (cons-append d s t)
      (ground (arith, has-append c s t, after_last-append c s t, cons-append d s t))

until-append : (c : ℕ) (s t : String) → has c s ≡ false → until c (s ++ t) ≡ s ++ until c t
unfolding has until
until-append c String.[] t h = rw nil-append (sym (nil-append (until c t)))
until-append c (String.◌∷◌ d s) t h =
    rw (cons-append d s t, cons-append d s (until c t)) (ground (arith, h, until-append c s t))

strip_leading-append :
    (c : ℕ) (s t : String) → has c s ≡ false → s ≢ "" → strip_leading c (s ++ t) ≡ s ++ t
unfolding has strip_leading
strip_leading-append c String.[] t h named = absurd (named refl)
strip_leading-append c (String.◌∷◌ d s) t h named = rw (cons-append d s t) (ground (arith, h))

until-absent : (c : ℕ) (s : String) → has c s ≡ false → until c s ≡ s
unfolding has until
until-absent c String.[] h = refl
until-absent c (String.◌∷◌ d s) h = ground (arith, h, until-absent c s)

after-slash : (s : String) → after b'/' ("/" ++ s) ≡ some s
unfolding after
after-slash s = rw (cons-append "/" "" s, nil-append s) refl

after_last-url :
    (bucket region path : String)
    → has b'/' path ≡ false
    → after_last b'/' ("mxc://" ++ bucket ++ ".s3." ++ region ++ ".amazonaws.com/" ++ path) ≡ path
unfolding has after_last
after_last-url bucket region path free =
    let end = ".amazonaws.com/" ++ path in
    ground (
      arith,
      free,
      nil-append path,
      has-append b'/' ".amazonaws.com/" path,
      after_last-append b'/' ".amazonaws.com/" path,
      has-append b'/' region end,
      after_last-append b'/' region end,
      has-append b'/' ".s3." (region ++ end),
      after_last-append b'/' ".s3." (region ++ end),
      has-append b'/' bucket (".s3." ++ region ++ end),
      after_last-append b'/' bucket (".s3." ++ region ++ end),
      after_last-append b'/' "mxc://" (bucket ++ ".s3." ++ region ++ end),
    )

starts_with-append : (s t : String) → starts_with s (s ++ t) ≡ true
unfolding starts_with
starts_with-append String.[] t = refl
starts_with-append (String.◌∷◌ c s) t =
    rw (cons-append c s t) (ground (arith, starts_with-append s t))

includes-starts : (part s : String) → starts_with part s ≡ true → includes part s ≡ true
unfolding includes
includes-starts part String.[] h = h
includes-starts part (String.◌∷◌ d s) h = ground (arith, h)

-- A part of the end of a text is a part of the text.
pub includes-end : (part s t : String) → includes part t ≡ true → includes part (s ++ t) ≡ true
unfolding includes
includes-end part String.[] t h = rw (nil-append t) h
includes-end part (String.◌∷◌ d s) t h =
    rw (cons-append d s t) (ground (arith, includes-end part s t h))

pub includes-between : (before part rest : String) → includes part (before ++ part ++ rest) ≡ true
includes-between before part rest =
    includes-end part before (part ++ rest)
      (includes-starts part (part ++ rest) (starts_with-append part rest))

-- The key of a file, the text after its prefix, and the characters that a key is read by.
module _ (directory media_id : String) (whole : has b'/' directory ≡ false)
    (plain : has b'_' directory ≡ false) (flat : has b'/' media_id ≡ false)
    (named : directory ≢ "") where
  sanitized-key : sanitized ((directory ++ "/") ++ media_id) ≡ (directory ++ "_") ++ media_id
  unfolding sanitized replace_all
  sanitized-key =
      rw
        (
          append_assoc directory "/" media_id,
          strip_leading-append b'/' directory ("/" ++ media_id) whole named,
          replace_all-append b'/' "_" directory ("/" ++ media_id),
          replace_all-append b'/' "_" "/" media_id,
          replace_all-absent b'/' "_" directory whole,
          replace_all-absent b'/' "_" media_id flat,
        )
        (sym (append_assoc directory "_" media_id))

  key-restored :
      replace_first b'_' "/" ((directory ++ "_") ++ media_id) ≡ (directory ++ "/") ++ media_id
  unfolding has replace_first
  key-restored = ground (
    arith,
    plain,
    replace_first-append b'_' "/" (directory ++ "_") media_id,
    has-append b'_' directory "_",
    replace_first-append b'_' "/" directory "_",
  )

  has-sanitized :
      (has b'/' ((directory ++ "_") ++ media_id) ≡ false)
      × (has b'_' ((directory ++ "_") ++ media_id) ≡ true)
  unfolding has
  has-sanitized = ground (
    arith,
    whole,
    flat,
    has-append b'/' (directory ++ "_") media_id,
    has-append b'/' directory "_",
    has-append b'_' (directory ++ "_") media_id,
    has-append b'_' directory "_",
  )

  until-directory : until b'_' (until b'/' ((directory ++ "_") ++ media_id)) ≡ directory
  unfolding until
  until-directory =
      rw
        (
          until-absent b'/' ((directory ++ "_") ++ media_id) has-sanitized.0,
          append_assoc directory "_" media_id,
          until-append b'_' directory ("_" ++ media_id) plain,
          cons-append "_" "" media_id,
        )
        (append-nil directory)

  -- If the prefix of a credential is a directory's name that has neither a slash nor an underscore,
  -- followed by a slash, and the id of a file has no slash, then the URL that a file is uploaded to
  -- gives back the key that it was put under, and the path of that URL, a slash followed by the
  -- part that stands for the key, gives back the directory's name.
  pub key_of_url-mxc_url :
      (credential : MediaCredential)
      → credential.key_prefix ≡ some (directory ++ "/")
      → (key_of_url (mxc_url credential (object_key credential media_id))
          ≡ object_key credential media_id)
        × (extract_object_key_prefix ("/" ++ sanitized (object_key credential media_id))
            ≡ some directory)
  unfolding key_of_url mxc_url object_key extract_object_key_prefix second_part has
  key_of_url-mxc_url credential prefix = (
    ground (
      arith,
      prefix,
      sanitized-key,
      after_last-url credential.bucket credential.region ((directory ++ "_") ++ media_id),
      has-sanitized,
      key-restored,
    ),
    ground (
      arith,
      prefix,
      sanitized-key,
      has-sanitized,
      has-append b'_' "/" ((directory ++ "_") ++ media_id),
      after-slash ((directory ++ "_") ++ media_id),
      until-directory,
    ),
  )
