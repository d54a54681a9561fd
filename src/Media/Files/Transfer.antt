-- ===== src/Media/Files/Transfer.antt =====
-- A file that uploadMediaFile has put into S3 is what downloadMediaFile gets.
use Prim.Native.String.{◌++◌}
use sudo_secure_communicatio.Prelude.{
  ℕ, String, ◌≡◌, ◌≢◌, refl, false, none, some, List, inl, inr, arith,
}
use sudo_secure_communicatio.Exec.{Exec, Result-cases, ok}
use sudo_secure_communicatio.Exec.Laws.{bind-eq-ok}
use sudo_secure_communicatio.Media.Entities.{MediaCredential}
use sudo_secure_communicatio.Media.Files.Text.{has}
use sudo_secure_communicatio.Media.Files.{
  AwsS3, UploadMediaFileInput, upload, download, upload_media_file, download_media_file, mxc_url,
  object_key, body_or_missing, decrypt_if,
}
use sudo_secure_communicatio.Media.Files.Laws.{key_of_url-mxc_url}

-- Right after an object has been put under a key, it is got from there; and `uuid`'s ids have no
-- slash.
pub record StoresObjects {S : Type 0} (aws : AwsS3 S) : Type 0 where
  pub put_get :
      (region bucket key content_type : String) (body : List ℕ) (s t : S)
      → aws.put_object region bucket key body content_type s ≡ (ok tt, t)
      → (aws.get_object region bucket key t).0 ≡ ok (some body)
  pub flat_ids : (id : String) (s t : S) → aws.v4 s ≡ (ok id, t) → has b'/' id ≡ false

module _ {S : Type 0} (aws : AwsS3 S) where
  upload-eq-ok :
      (credential : MediaCredential) (key content_type url : String) (body : List ℕ) (s t : S)
      → upload aws credential key body content_type s ≡ (ok url, t)
      → (url ≡ key)
        × (aws.put_object credential.region credential.bucket key body content_type s ≡ (ok tt, t))
  unfolding upload
  upload-eq-ok credential key content_type url body s t h =
      let put = aws.put_object credential.region credential.bucket key body content_type s in
      elim (Result-cases put.0) [
        | inl (tt, done) ↦ (ground arith, ground arith)
        | inr (e, failed) ↦ absurd (ground arith)
      ]

  download-stored :
      (credential : MediaCredential) (key : String) (body : List ℕ) (t : S)
      → (aws.get_object credential.region credential.bucket key t).0 ≡ ok (some body)
      → (download aws credential key t).0 ≡ ok body
  unfolding download body_or_missing
  download-stored credential key body t got = rw got refl

module _ {S K : Type 0} (aws : AwsS3 S) (stores : StoresObjects aws)
    (decrypt_file : List ℕ → K → Exec S (List ℕ)) where
  -- If S3 returns an object that has been put under a key, `uuid`'s ids have no slash, and the
  -- prefix of the credential is a name that has neither a slash nor an underscore, followed by a
  -- slash, then a file that uploadMediaFile has uploaded without an error is what downloadMediaFile
  -- returns for its URL, with the same credential and without encryption.
  pub download_media_file-upload :
      (directory : String)
      → has b'/' directory ≡ false
      → has b'_' directory ≡ false
      → directory ≢ ""
      → (input : UploadMediaFileInput) → input.media_credential.key_prefix ≡ some (directory ++ "/")
      → (url : String) (s t : S) → upload_media_file aws input s ≡ (ok url, t)
      → (download_media_file aws decrypt_file input.media_credential url none t).0 ≡ ok input.file
  unfolding upload_media_file download_media_file decrypt_if
  download_media_file-upload directory whole plain named input prefix url s t uploaded =
      let credential = input.media_credential in
      let (id, s1, made, rest) = bind-eq-ok aws.v4 _ s t url uploaded in
      let key = object_key credential id in
      let (put_url, s2, put, last) =
        bind-eq-ok (upload aws credential key input.file input.file_type) _ s1 t url rest in
      let stored = upload-eq-ok aws credential key input.file_type put_url input.file s1 s2 put in
      let same : s2 ≡ t = ground arith in
      let url_is : url ≡ mxc_url credential key = ground (arith, stored) in
      let key_is =
        (key_of_url-mxc_url directory id whole plain (stores.flat_ids id s s1 made) named credential
          prefix).0 in
      let got =
        stores.put_get credential.region credential.bucket key input.file_type input.file s1 s2
          stored.1 in
      let got_there : (aws.get_object credential.region credential.bucket key t).0
          ≡ ok (some input.file) =
        cc in
      rw (url_is, key_is, download-stored aws credential key input.file t got_there) refl
