-- ===== src/Accounts/Uploads/Tests.antt =====
-- Uploads at small settings.
use hivewiki_web.Base.{◌≡◌, refl, none, [], ok}
use hivewiki_web.Base.Text.{Text, codes, text_eq, strip}
use hivewiki_web.Accounts.Models.{HiveUser, user, active}
use hivewiki_web.Accounts.Forms.{rstrip_slash, clean_profile_image}
use hivewiki_web.Accounts.Uploads.{
  UploadSettings, S3, UploadPayload, lstrip_slash, replace_slashes, normalized_prefix,
  normalize_upload_content_type, build_public_image_upload_payload,
  build_profile_image_upload_payload,
}
use hivewiki_web.Accounts.Uploads.Prepared.{
  IsPrepared, clean_profile_image-build_profile_image_upload_payload,
}

abbrev s3 : S3
s3 = record {
  guess_type = λ filename. none;
  suffix = λ filename. codes ".png";
  id_text = λ id. codes "7";
  generate_presigned_post = λ key content_type. ok (record { url = codes "s"; fields = [] });
}

abbrev as_is : Text → Text
as_is t = t

abbrev settings : UploadSettings
settings = record {
  bucket = codes "b";
  region = codes "r";
  public_base_url = codes "c/";
  profile_image_prefix = codes "p";
}

abbrev member : HiveUser
member = record {
  id = 7;
  username = codes "k";
  email = codes "k@a";
  role = user;
  password_hash = none;
  status = active;
  profile_image = none;
  created_at = 0;
  updated_at = 0;
}

abbrev payload : UploadPayload
payload = record {
  upload_url = codes "s";
  fields = [];
  public_url = codes "c/p/7/t.png";
  max_file_size = 5_242_880;
}

-- Four slashes become two, and those at the ends go.
prefix_run : normalized_prefix (codes "/a////b///c/") ≡ codes "a//b//c"
unfolding replace_slashes rstrip_slash lstrip_slash
prefix_run = refl

clean_profile_image-build_profile_image_upload_payload_example :
    IsPrepared s3 as_is settings (codes "t") member (codes "i.png") (codes "p") payload
    × (clean_profile_image (codes "c/") member (codes "c/p/7/t.png") ≡ ok (codes "c/p/7/t.png"))
unfolding build_profile_image_upload_payload build_public_image_upload_payload
    normalize_upload_content_type replace_slashes rstrip_slash lstrip_slash strip text_eq
clean_profile_image-build_profile_image_upload_payload_example =
    clean_profile_image-build_profile_image_upload_payload s3 as_is settings (codes "t") member
      member (codes "i.png") (codes "image/png") payload refl refl refl
