-- ===== src/Media/Download/Laws.antt =====
-- The credential that a file is downloaded with.
use Prim.Native.String.{◌++◌}
use sudo_secure_communicatio.Prelude.{ℕ, String, ◌≡◌, ◌≢◌, refl, sym, ap, ◌∙◌, true, false, some}
use sudo_secure_communicatio.Media.Entities.{MediaCredential}
use sudo_secure_communicatio.Media.Credentials.{Manager, Config, get_room_media_credential}
use sudo_secure_communicatio.Media.Files.{mxc_url, sanitized, object_key, extract_room_id}
use sudo_secure_communicatio.Media.Files.Text.{has, includes}
use sudo_secure_communicatio.Media.Files.Laws.{includes-between, key_of_url-mxc_url}
use sudo_secure_communicatio.Media.Download.{MediaPlatform, get_media_credential}

-- A URL of a file has the name of its bucket in it.
includes-mxc_url :
    (credential : MediaCredential) (key : String)
    → includes credential.bucket (mxc_url credential key) ≡ true
unfolding mxc_url
includes-mxc_url credential key =
    includes-between "mxc://" credential.bucket
      (".s3." ++ credential.region ++ ".amazonaws.com/" ++ sanitized key)

module _ {S K : Type 0} (config : Config S) (platform : MediaPlatform S K)
    (credential : MediaCredential) (directory media_id : String)
    (whole : has b'/' directory ≡ false) (plain : has b'_' directory ≡ false)
    (flat : has b'/' media_id ≡ false) (named : directory ≢ "")
    (prefix : credential.key_prefix ≡ some (directory ++ "/")) (now : ℕ) (handle_id : String) where
  -- If a file has been uploaded to the bucket of the rooms' media, its id has no slash, and the
  -- prefix of the credential was the name of a room, a text with neither a slash nor an underscore,
  -- followed by a slash, and the path of the file's URL is a slash followed by the part that stands
  -- for the key, then the credential that it is downloaded with is the one for reading in the room
  -- of that name at the homeserver.
  pub get_media_credential-room :
      credential.bucket ≡ config.room_media_bucket
      → platform.url_pathname (mxc_url credential (object_key credential media_id))
        ≡ some ("/" ++ sanitized (object_key credential media_id))
      → (state : Manager S)
      → get_media_credential config platform now handle_id
          (mxc_url credential (object_key credential media_id))
          state
        ≡ get_room_media_credential config now handle_id false
            ("!" ++ directory ++ ":" ++ platform.home_server)
            state
  unfolding get_media_credential extract_room_id
  get_media_credential-room in_rooms path state =
      let key = object_key credential media_id in
      let inside : includes config.room_media_bucket (mxc_url credential key) ≡ true =
        ap (λ bucket. includes bucket (mxc_url credential key)) (sym in_rooms)
        ∙ includes-mxc_url credential key in
      let extracted =
        (key_of_url-mxc_url directory media_id whole plain flat named credential prefix).1 in
      rw (inside, path, extracted) refl
