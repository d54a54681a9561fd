-- ===== src/Tests/Files.antt =====
-- The theorems on files at a concrete store of objects.
use sudo_secure_communicatio.Prelude.{
  ℕ, String, ◌≡◌, ◌≢◌, refl, true, false, none, some, List, [], ◌∷◌, ◌==◌, eq_iff, lookup, arith,
}
use sudo_secure_communicatio.Exec.{ok, pure}
use sudo_secure_communicatio.Media.Entities.{Credential, MediaCredential}
use sudo_secure_communicatio.Media.Credentials.{Manager, Config, get_room_media_credential}
use sudo_secure_communicatio.Media.Download.{MediaPlatform, get_media_credential}
use sudo_secure_communicatio.Media.Download.Laws.{get_media_credential-room}
use sudo_secure_communicatio.Media.Files.{
  mxc_url, object_key, AwsS3, UploadMediaFileInput, upload_media_file, download_media_file,
  key_of_url, get_msg_type,
}
use sudo_secure_communicatio.Media.Files.Text.{has}
use sudo_secure_communicatio.Media.Files.Transfer.{StoresObjects, download_media_file-upload}

abbrev Objects : Type 0
Objects = List (String × List ℕ)

-- One bucket, whose newest objects come first.
abbrev aws : AwsS3 Objects
aws = record {
  v4 = pure "a1";
  put_object = λ region bucket key body content_type objects. (ok tt, (key, body) ∷ objects);
  get_object = λ region bucket key objects. (ok (lookup key objects), objects);
  error_text = λ e. "";
}

aws-StoresObjects : StoresObjects aws
unfolding lookup has
aws-StoresObjects = record {
  put_get = λ region bucket key content_type body s t put. ground (arith, eq_iff key key);
  flat_ids = λ id s t made. let is : id ≡ "a1" = ground arith in rw is refl;
}

texts_differ : (s t : String) → (s == t) ≡ false → s ≢ t
texts_differ s t h = ground (arith, eq_iff s t)

abbrev picture : UploadMediaFileInput
picture = record {
  file = 1 ∷ 2 ∷ [];
  file_type = "image/png";
  media_credential = record {
    credential = record { access_key_id = "a"; secret_access_key = "b"; session_token = "c" };
    bucket = "bucket";
    region = "eu";
    key_prefix = some "media/";
    for_write = true;
  };
}

uploaded_url :
    upload_media_file aws picture []
    ≡ (ok "mxc://bucket.s3.eu.amazonaws.com/media_a1", ("media/a1", 1 ∷ 2 ∷ []) ∷ [])
unfolding upload_media_file
uploaded_url = refl

download_media_file-upload_example :
    (download_media_file {K = ℕ} aws
      (λ file info. pure file)
      picture.media_credential
      "mxc://bucket.s3.eu.amazonaws.com/media_a1"
      none
      (("media/a1", 1 ∷ 2 ∷ []) ∷ [])).0
    ≡ ok picture.file
unfolding has
download_media_file-upload_example =
    download_media_file-upload aws aws-StoresObjects (λ file info. pure file) "media" refl refl
      (texts_differ "media" "" refl) picture refl "mxc://bucket.s3.eu.amazonaws.com/media_a1" []
      (("media/a1", 1 ∷ 2 ∷ []) ∷ []) uploaded_url

abbrev keys : Credential
keys = record { access_key_id = "a"; secret_access_key = "b"; session_token = "c" }

abbrev room_credential : MediaCredential
room_credential = record {
  credential = keys;
  bucket = "bucket";
  region = "eu";
  key_prefix = some "abc/";
  for_write = true;
}

abbrev config : Config Objects
config = record {
  room_media_bucket = "bucket";
  region = "eu";
  get_credential = λ handle_id for_write room_id.
      pure (record { credential = keys; key_prefix = "abc/"; expiry = 900000 });
}

abbrev media_platform : MediaPlatform Objects ℕ
media_platform = record {
  public_media_bucket = "public";
  home_server = "hs";
  get_latest_auth_token = pure "token";
  cognito_credential = λ token. pure keys;
  get_matrix_client = λ handle_id. pure (λ file info. pure file);
  url_pathname = λ url. some "/abc_a1";
}

abbrev no_cache : Manager Objects
no_cache = record { cache = []; next = 0; service = [] }

get_media_credential-room_example :
    get_media_credential config media_platform 0 "ann" "mxc://bucket.s3.eu.amazonaws.com/abc_a1"
      no_cache
    ≡ get_room_media_credential config 0 "ann" false "!abc:hs" no_cache
unfolding has mxc_url object_key
get_media_credential-room_example =
    get_media_credential-room config media_platform room_credential "abc" "a1" refl refl refl
      (texts_differ "abc" "" refl) refl 0 "ann" refl refl no_cache

-- A prefix that has an underscore is not restored.
legacy_key : key_of_url "mxc://bucket.s3.eu.amazonaws.com/room_x_a1" ≡ "room/x_a1"
unfolding key_of_url
legacy_key = refl

video_type : get_msg_type "video/mp4" ≡ "m.video"
unfolding get_msg_type
video_type = refl
