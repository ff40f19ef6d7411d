-- ===== src/Accounts/Uploads.antt =====
-- apps/accounts/services.py: the upload of an image to S3, with profile_image_upload_prepare_view of
-- apps/accounts/views.py. The signing of a form and what the library reads off a file's name stand in
-- `S3`; `lower` is `str.lower`.
pub mod Prepared
mod Tests
use hivewiki_web.Base.{
  ℕ, ◌*◌, Bool, not, ◌&&◌, ◌||◌, Option, none, some, List, [], ◌∷◌, ◌++◌, ◌==◌, if◌then◌else◌,
  any_of, take, Result, ok, err, raise_if, ◌>>=◌, ◌>>◌,
}
use hivewiki_web.Base.Text.{Text, codes, text_eq, strip, is_empty}
use hivewiki_web.Core.CommunityContent.{or_text}
use hivewiki_web.Accounts.Models.{HiveUser}
use hivewiki_web.Accounts.OAuth.{text_or_empty}
use hivewiki_web.Accounts.Middleware.{Access, granted}
use hivewiki_web.Accounts.Forms.{rstrip_slash}

-- The settings AWS_S3_UPLOAD_BUCKET, AWS_S3_UPLOAD_REGION, AWS_S3_UPLOAD_PUBLIC_BASE_URL and
-- AWS_S3_PROFILE_IMAGE_PREFIX.
pub record UploadSettings : Type 0 where
  pub bucket : Text
  pub region : Text
  pub public_base_url : Text
  pub profile_image_prefix : Text

-- The messages of ProfileImageUploadError, and the two groups of errors of `generate_presigned_post`.
pub data ProfileImageUploadError : Type 0 where
  not_configured no_filename not_an_image : ProfileImageUploadError
  no_credentials signing_failed : ProfileImageUploadError

pub record PresignedPost : Type 0 where
  pub url : Text
  pub fields : List (Text × Text)

pub record S3 : Type 0 where
  -- `mimetypes.guess_type(filename)[0]` and `Path(filename).suffix`
  pub guess_type : Text → Option Text
  pub suffix : Text → Text
  -- `str(user.id)`
  pub id_text : ℕ → Text
  -- `generate_presigned_post` for a key and a content type, with the conditions of the type and of a
  -- size of 1 to 5 * 1024 * 1024 bytes; it raises one of the last two errors.
  pub generate_presigned_post : Text → Text → Result ProfileImageUploadError PresignedPost

pub record UploadPayload : Type 0 where
  pub upload_url : Text
  pub fields : List (Text × Text)
  pub public_url : Text
  pub max_file_size : ℕ

abbrev pub s3_upload_configured : UploadSettings → Bool
s3_upload_configured settings =
    not (is_empty settings.bucket)
    && not (is_empty settings.region)
    && not (is_empty settings.public_base_url)

-- ALLOWED_PROFILE_IMAGE_CONTENT_TYPES
abbrev pub allowed_content_types : List Text
allowed_content_types =
    codes "image/gif" ∷ codes "image/jpeg" ∷ codes "image/png" ∷ codes "image/webp" ∷ []

abbrev pub is_allowed : Text → Bool
is_allowed t = any_of (λ a. text_eq a t) allowed_content_types

-- `text.lstrip("/")`
unfoldable pub lstrip_slash : Text → Text
lstrip_slash [] = []
lstrip_slash (c ∷ t) = if c == b'/' then lstrip_slash t else c ∷ t

-- `text.replace("//", "/")`, from the left; `pending` is a slash that is read and may be a pair's first.
unfoldable pub replace_slashes : Bool → Text → Text
replace_slashes pending [] = if pending then b'/' ∷ [] else []
replace_slashes pending (c ∷ t) =
    let is_slash = c == b'/' in
    let rest = replace_slashes (not pending && is_slash) t in
    if is_slash
    then if pending then b'/' ∷ rest else rest
    else if pending
    then b'/' ∷ c ∷ rest
    else c ∷ rest

-- `(prefix or "").strip("/").replace("//", "/")`
abbrev pub normalized_prefix : Text → Text
normalized_prefix prefix = replace_slashes Bool.false (rstrip_slash (lstrip_slash prefix))

module _ (s3 : S3) (lower : Text → Text) where
  abbrev pub guess_content_type : Text → Text
  guess_content_type filename =
      or_text (text_or_empty (s3.guess_type filename)) (codes "application/octet-stream")

  unfoldable pub normalize_upload_content_type : Text → Text → Result ProfileImageUploadError Text
  normalize_upload_content_type filename content_type =
      let normalized = lower (strip content_type) in
      let guessed = lower (guess_content_type filename) in
      if not (is_empty normalized) && is_allowed normalized
      then ok normalized
      else if is_allowed guessed
      then ok guessed
      else err not_an_image

  -- `token` is the result of `secrets.token_urlsafe(16)`.
  abbrev pub object_key_of : ℕ → Text → Text → Text → Text
  object_key_of user_id filename token prefix =
      let name = token ++ take 10 (lower (s3.suffix filename)) in
      if is_empty prefix
      then s3.id_text user_id ++ b'/' ∷ name
      else prefix ++ b'/' ∷ s3.id_text user_id ++ b'/' ∷ name

  unfoldable pub build_public_image_upload_payload :
      UploadSettings
      → Text
      → HiveUser
      → Text
      → Text
      → Text
      → Result ProfileImageUploadError UploadPayload
  build_public_image_upload_payload settings token u filename content_type prefix = do
    raise_if (not (s3_upload_configured settings)) not_configured
    raise_if (is_empty (strip filename)) no_filename
    cleaned_type ← normalize_upload_content_type (strip filename) content_type
    payload ←
        s3.generate_presigned_post
          (object_key_of u.id (strip filename) token (normalized_prefix prefix)) cleaned_type
    ok (record {
      upload_url = payload.url;
      fields = payload.fields;
      public_url =
          rstrip_slash settings.public_base_url
          ++ b'/' ∷ object_key_of u.id (strip filename) token (normalized_prefix prefix);
      max_file_size = 5 * 1024 * 1024;
    })

  unfoldable pub build_profile_image_upload_payload :
      UploadSettings → Text → HiveUser → Text → Text → Result ProfileImageUploadError UploadPayload
  build_profile_image_upload_payload settings token u filename content_type =
      build_public_image_upload_payload settings token u filename content_type
        settings.profile_image_prefix

-- The answers of the view: the page to log in, an error with the status 400, or the payload.
pub data UploadResponse : Type 0 where
  to_login_page : UploadResponse
  bad_request : ProfileImageUploadError → UploadResponse
  prepared : UploadPayload → UploadResponse

abbrev pub response_of : Result ProfileImageUploadError UploadPayload → UploadResponse
response_of (err e) = bad_request e
response_of (ok payload) = prepared payload

unfoldable pub profile_image_upload_prepare_view :
    S3 → (Text → Text) → UploadSettings → Text → Text → Text → Access → UploadResponse
profile_image_upload_prepare_view s3 lower settings token filename content_type (granted u) =
    response_of (build_profile_image_upload_payload s3 lower settings token u filename content_type)
profile_image_upload_prepare_view s3 lower settings token filename content_type _ = to_login_page
