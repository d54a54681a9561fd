-- ===== src/Media/Download.antt =====
-- DownloadMediaFileUseCase (src/private/domain/use-cases/media/downloadMediaFileUseCase.ts) and
-- `getPublicMediaCredential` of MediaCredentialManager
-- (src/private/data/media/mediaCredentialManager.ts).
pub mod Laws
use Prim.Native.String.{◌++◌}
use sudo_secure_communicatio.Prelude.{
  ℕ, String, Bool, true, false, Option, none, some, List, map, if◌then◌else◌,
}
use sudo_secure_communicatio.Errors.{thrown, secure_comms}
use sudo_secure_communicatio.Exec.{Exec, pure, raise, ◌>>=◌}
use sudo_secure_communicatio.Media.Entities.{Credential, MediaCredential}
use sudo_secure_communicatio.Media.Credentials.{Manager, Config, get_room_media_credential}
use sudo_secure_communicatio.Media.Files.{
  AwsS3, PublicMediaType, avatars, media, extract_public_media_type, extract_room_id,
  download_media_file,
}
use sudo_secure_communicatio.Media.Files.Text.{includes}

-- The rest of the configuration; the user's token and what Amazon Cognito gives for it,
-- where a missing session token is the empty text; the client
-- of a handle, by how it decrypts files; and `new URL(url).pathname`, none if that throws.
pub record MediaPlatform (S K : Type 0) : Type 0 where
  pub public_media_bucket : String
  pub home_server : String
  pub get_latest_auth_token : Exec S String
  pub cognito_credential : String → Exec S Credential
  pub get_matrix_client : String → Exec S (List ℕ → K → Exec S (List ℕ))
  pub url_pathname : String → Option String

-- The texts of PublicMediaType
abbrev pub key_prefix_of : PublicMediaType → String
key_prefix_of avatars = "avatars/"
key_prefix_of media = "media/"

abbrev pub prefix_if : Option PublicMediaType → Option String
prefix_if none = none
prefix_if (some type) = some (key_prefix_of type)

-- An action on the service's side alone.
abbrev reach : {S A : Type 0} → Exec S A → Exec (Manager S) A
reach m state = let (r, s) = m state.service in (r, record state { service = s })

module _ {S K : Type 0} (config : Config S) (platform : MediaPlatform S K) where
  -- getPublicMediaCredential
  unfoldable pub get_public_media_credential :
      Bool → Option PublicMediaType → Exec (Manager S) MediaCredential
  get_public_media_credential for_write public_media_type = do
    auth_token ← reach platform.get_latest_auth_token
    credential ← reach (platform.cognito_credential auth_token)
    pure (record {
      credential = credential;
      bucket = platform.public_media_bucket;
      region = config.region;
      key_prefix = prefix_if public_media_type;
      for_write = for_write;
    })

  -- `new URL(mxcUrl).pathname` of extractObjectKeyPrefix, with what its `catch` throws
  abbrev pub on_path :
      {A : Type 0} → String → (String → Exec (Manager S) A) → Option String → Exec (Manager S) A
  on_path uri f none = raise (thrown secure_comms (some ("Invalid media URL: " ++ uri)))
  on_path uri f (some path) = f path

  -- getMediaCredential; `now` is `Date.now()`
  unfoldable pub get_media_credential : ℕ → String → String → Exec (Manager S) MediaCredential
  unfolding includes get_public_media_credential get_room_media_credential extract_room_id
      extract_public_media_type
  get_media_credential now handle_id uri =
      if includes config.room_media_bucket uri
      then on_path uri
          (λ path.
            get_room_media_credential config now handle_id false
              (extract_room_id path platform.home_server))
          (platform.url_pathname uri)
      else if includes platform.public_media_bucket uri
      then on_path uri (λ path. get_public_media_credential false (extract_public_media_type path))
          (platform.url_pathname uri)
      else get_public_media_credential false (some media)

  -- downloadMediaFile and `execute`
  unfoldable pub download_media_file_use_case :
      AwsS3 S → ℕ → String → String → Option K → Exec (Manager S) (List ℕ)
  unfolding get_media_credential download_media_file
  download_media_file_use_case aws now handle_id uri encryption_info = do
    decrypt_file ← reach (platform.get_matrix_client handle_id)
    media_credential ← get_media_credential now handle_id uri
    reach (download_media_file aws decrypt_file media_credential uri encryption_info)
