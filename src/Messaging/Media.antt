-- ===== src/Messaging/Media.antt =====
-- The media contents of MessageTransformer
-- (src/private/data/messaging/transformer/messageTransformer.ts): `getImageContent`, `getFileContent`,
-- `getAudioContent` and `getVideoContent`.
use sudo_secure_communicatio.Prelude.{ℕ, String, Option, none, some, or_else}
use sudo_secure_communicatio.Messaging.Content.{ThumbnailInfo, Body, Media, truthy}

-- `content?.f`
abbrev pub within : {A B : Type 0} → Option A → (A → Option B) → Option B
within none f = none
within (some a) f = f a

-- `n || 0`
abbrev pub or_zero : Option ℕ → ℕ
or_zero n = or_else n 0

-- `s || fallback`
unfoldable pub or_text : Option String → String → String
unfolding truthy
or_text s fallback = or_else (truthy s) fallback

unfoldable pub thumbnail_of : Body → Option ThumbnailInfo
thumbnail_of content = within content.info (λ info. info.thumbnail_info)

-- `content.filename ?? content.fileName ?? name`
unfoldable pub file_name_or : Body → String → String
file_name_or content name = or_else content.filename (or_else content.file_name name)

-- getImageContent: the thumbnail's fields have defaults
unfoldable pub get_image_content : Body → Media
unfolding file_name_or thumbnail_of or_text
get_image_content content = record {
  caption = content.body;
  uri = content.url;
  mime_type = within content.info (λ info. info.mimetype);
  size = within content.info (λ info. info.size);
  width = within content.info (λ info. info.w);
  height = within content.info (λ info. info.h);
  duration = none;
  filename = file_name_or content "image";
  thumbnail_uri = within content.info (λ info. info.thumbnail_url);
  thumbnail_info = some (record {
    width = some (or_zero (within (thumbnail_of content) (λ info. info.width)));
    height = some (or_zero (within (thumbnail_of content) (λ info. info.height)));
    blur_hash = some (or_text (within (thumbnail_of content) (λ info. info.blur_hash)) "");
    mime_type =
        some (or_text (within (thumbnail_of content) (λ info. info.mime_type)) "image/jpeg");
    size = some (or_zero (within (thumbnail_of content) (λ info. info.size)));
  });
  encrypted_file = content.file;
}

-- getFileContent
unfoldable pub get_file_content : Body → Media
unfolding file_name_or
get_file_content content = record {
  caption = content.body;
  uri = content.url;
  mime_type = within content.info (λ info. info.mimetype);
  size = within content.info (λ info. info.size);
  width = none;
  height = none;
  duration = none;
  filename = file_name_or content "file";
  thumbnail_uri = none;
  thumbnail_info = none;
  encrypted_file = content.file;
}

-- getAudioContent: the caption is the content's `caption`, not its `body`
unfoldable pub get_audio_content : Body → Media
unfolding file_name_or
get_audio_content content = record {
  caption = content.caption;
  uri = content.url;
  mime_type = within content.info (λ info. info.mimetype);
  size = within content.info (λ info. info.size);
  width = none;
  height = none;
  duration = within content.info (λ info. info.duration);
  filename = file_name_or content "audio";
  thumbnail_uri = none;
  thumbnail_info = none;
  encrypted_file = content.file;
}

-- getVideoContent
unfoldable pub get_video_content : Body → Media
unfolding file_name_or thumbnail_of
get_video_content content = record {
  caption = content.body;
  uri = content.url;
  mime_type = within content.info (λ info. info.mimetype);
  size = within content.info (λ info. info.size);
  width = within content.info (λ info. info.w);
  height = within content.info (λ info. info.h);
  duration = within content.info (λ info. info.duration);
  filename = file_name_or content "video";
  thumbnail_uri = within content.info (λ info. info.thumbnail_url);
  thumbnail_info = some (record {
    width = within (thumbnail_of content) (λ info. info.width);
    height = within (thumbnail_of content) (λ info. info.height);
    blur_hash = within (thumbnail_of content) (λ info. info.blur_hash);
    mime_type = within (thumbnail_of content) (λ info. info.mime_type);
    size = within (thumbnail_of content) (λ info. info.size);
  });
  encrypted_file = content.file;
}
