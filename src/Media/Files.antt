-- ===== src/Media/Files.antt =====
-- Files in S3: `uploadMediaFile` and `downloadMediaFile` of MatrixMediaService
-- (src/private/data/media/matrixMediaService.ts), S3Client (src/private/data/common/s3Client.ts), and
-- what src/private/util/mediaUtil.ts reads of a file's URL.
pub mod Text
pub mod Laws
pub mod Transfer
use Prim.Native.String.{◌++◌}
use sudo_secure_communicatio.Prelude.{
  ℕ, String, Bool, true, false, Option, none, some, List, ◌==◌, ◌||◌, or_else, if◌then◌else◌,
}
use sudo_secure_communicatio.Errors.{Error, thrown, matrix_error, s3_upload, s3_download}
use sudo_secure_communicatio.Exec.{Exec, pure, raise, catch, ◌>>=◌, ◌>>◌}
use sudo_secure_communicatio.Ids.{until, after}
use sudo_secure_communicatio.Media.Entities.{MediaCredential}
use sudo_secure_communicatio.Media.Files.Text.{
  has, strip_leading, replace_all, replace_first, after_last, starts_with,
}

-- The AWS SDK's client for a region: an object is put under a key of a bucket, and got with its
-- bytes, if the response has a body. `v4` is `uuid`'s; `error_text` is `error.name: error.message`.
pub record AwsS3 (S : Type 0) : Type 0 where
  pub v4 : Exec S String
  pub put_object : String → String → String → List ℕ → String → Exec S Unit
  pub get_object : String → String → String → Exec S (Option (List ℕ))
  pub error_text : Error → String

-- S3ClientUploadInput and UploadMediaFileInput
pub record UploadMediaFileInput : Type 0 where
  pub file : List ℕ
  pub file_type : String
  pub media_credential : MediaCredential

-- The part of an object's URL that stands for its key: the slashes at its start are removed and the
-- others become underscores.
unfoldable pub sanitized : String → String
unfolding strip_leading replace_all
sanitized key = replace_all b'/' "_" (strip_leading b'/' key)

-- `mxcUrl`
unfoldable pub mxc_url : MediaCredential → String → String
unfolding sanitized
mxc_url credential key =
    "mxc://"
    ++ credential.bucket
    ++ ".s3."
    ++ credential.region
    ++ ".amazonaws.com/"
    ++ sanitized key

-- `key` of uploadMediaFile
unfoldable pub object_key : MediaCredential → String → String
object_key credential media_id = or_else credential.key_prefix "" ++ media_id

-- `key` of downloadMediaFile: an id without an underscore is one from before there were prefixes.
unfoldable pub key_of_url : String → String
unfolding has after_last replace_first
key_of_url uri =
    let media_id = after_last b'/' uri in
    replace_first b'_' "/" (if has b'_' media_id then media_id else "media_" ++ media_id)

-- `path.split('/')[1]?.split('_')[0]`
second_part : Option String → Option String
unfolding until
second_part none = none
second_part (some rest) = some (until b'_' (until b'/' rest))

-- extractObjectKeyPrefix, from the `pathname` of the URL
unfoldable pub extract_object_key_prefix : String → Option String
unfolding has after second_part
extract_object_key_prefix path = if has b'_' path then second_part (after b'/' path) else none

-- PublicMediaType
pub data PublicMediaType : Type 0 where
  avatars media : PublicMediaType

public_media_type : String → Option PublicMediaType
public_media_type prefix =
    if prefix == "avatars" then some avatars else if prefix == "media" then some media else none

known_type : Option String → Option PublicMediaType
unfolding public_media_type
known_type none = none
known_type (some prefix) = public_media_type prefix

-- extractPublicMediaType; an empty prefix is the prefix of no type
unfoldable pub extract_public_media_type : String → Option PublicMediaType
unfolding extract_object_key_prefix known_type
extract_public_media_type path = known_type (extract_object_key_prefix path)

-- extractRoomId; a URL without a prefix gives the room id of `undefined`
unfoldable pub extract_room_id : String → String → String
unfolding extract_object_key_prefix
extract_room_id path home_server =
    "!" ++ or_else (extract_object_key_prefix path) "undefined" ++ ":" ++ home_server

module _ {S : Type 0} (aws : AwsS3 S) where
  -- S3Client.upload
  unfoldable pub upload : MediaCredential → String → List ℕ → String → Exec S String
  upload credential key body content_type =
      catch (do aws.put_object credential.region credential.bucket key body content_type; pure key)
        (λ e. raise (thrown s3_upload (some (aws.error_text e))))

  body_or_missing : Option (List ℕ) → Exec S (List ℕ)
  body_or_missing none = raise (thrown s3_download (some "Did not find the file to download"))
  body_or_missing (some bytes) = pure bytes

  -- S3Client.download, whose own error is replaced by the `catch` too
  unfoldable pub download : MediaCredential → String → Exec S (List ℕ)
  unfolding body_or_missing
  download credential key =
      catch (do body ← aws.get_object credential.region credential.bucket key; body_or_missing body)
        (λ e. raise (thrown s3_download (some (aws.error_text e))))

  -- uploadMediaFile
  unfoldable pub upload_media_file : UploadMediaFileInput → Exec S String
  unfolding upload object_key mxc_url
  upload_media_file input = do
    media_id ← aws.v4
    url ←
        upload input.media_credential (object_key input.media_credential media_id) input.file
          input.file_type
    pure (mxc_url input.media_credential url)

-- FileEncryptionInfoEntity is the parameter `K`.
module _ {S K : Type 0} (aws : AwsS3 S) (decrypt_file : List ℕ → K → Exec S (List ℕ)) where
  decrypt_if : Option K → List ℕ → Exec S (List ℕ)
  decrypt_if none file = pure file
  decrypt_if (some info) file = decrypt_file file info

  -- downloadMediaFile
  unfoldable pub download_media_file : MediaCredential → String → Option K → Exec S (List ℕ)
  unfolding download key_of_url decrypt_if
  download_media_file credential uri encryption_info = do
    file ← download aws credential (key_of_url uri)
    decrypt_if encryption_info file

-- getMsgType
unfoldable pub get_msg_type : String → String
unfolding starts_with
get_msg_type mime_type =
    if starts_with "image" mime_type
    then "m.image"
    else if starts_with "video" mime_type
    then "m.video"
    else if starts_with "audio" mime_type
    then "m.audio"
    else "m.file"
