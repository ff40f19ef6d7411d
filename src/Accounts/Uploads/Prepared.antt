-- ===== src/Accounts/Uploads/Prepared.antt =====
-- What a prepared upload is, and that the form of the profile accepts its address.
use hivewiki_web.Base.{
  ◌*◌, ◌≡◌, refl, sym, ap, ◌∙◌, subst, Bool, true, false, not, ◌&&◌, [], ◌∷◌, ◌++◌, ==_refl, ok,
  ok_bind, ok_raise_if, Bool-cases, inl, inr,
}
use hivewiki_web.Base.Text.{Text, text_eq, strip, is_empty}
use hivewiki_web.Accounts.Models.{HiveUser}
use hivewiki_web.Accounts.OAuth.{text_or_empty}
use hivewiki_web.Accounts.Forms.{starts_with_text, rstrip_slash, clean_profile_image}
use hivewiki_web.Accounts.Uploads.{
  UploadSettings, not_configured, no_filename, S3, UploadPayload, PresignedPost,
  s3_upload_configured, is_allowed, normalized_prefix, normalize_upload_content_type,
  guess_content_type, object_key_of, build_public_image_upload_payload,
  build_profile_image_upload_payload,
}

starts_with_text-append : (s t : Text) → starts_with_text s (s ++ t) ≡ true
starts_with_text-append [] t = refl
starts_with_text-append (c ∷ s) t = rw (==_refl c) (starts_with_text-append s t)

slash_behind : (s t : Text) → (s ++ b'/' ∷ []) ++ t ≡ s ++ b'/' ∷ t
slash_behind [] t = refl
slash_behind (c ∷ s) t = ap (λ (x : Text). c ∷ x) (slash_behind s t)

slash_not_empty : (s t : Text) → is_empty (s ++ b'/' ∷ t) ≡ false
slash_not_empty [] t = refl
slash_not_empty (c ∷ s) t = refl

right_holds : (a b : Bool) → a && b ≡ true → b ≡ true
right_holds true b h = h
right_holds false b h = cc (h)

unnegated : (b : Bool) → not b ≡ false → b ≡ true
unnegated true h = refl
unnegated false h = cc (h)

module _ (s3 : S3) (lower : Text → Text) where
  normalize-is_allowed :
      (filename content_type t : Text)
      → normalize_upload_content_type s3 lower filename content_type ≡ ok t
      → is_allowed t ≡ true
  unfolding normalize_upload_content_type
  normalize-is_allowed filename content_type t h =
      let normalized = lower (strip content_type) in
      let guessed = lower (guess_content_type s3 lower filename) in
      elim (Bool-cases (not (is_empty normalized) && is_allowed normalized)) [
        | inl e ↦
            let done : ok normalized ≡ ok t = rw (normalize_upload_content_type, e) at h in
            let same : normalized ≡ t = cc (done) in
            subst (λ (x : Text). is_allowed x ≡ true) same
              (right_holds (not (is_empty normalized)) (is_allowed normalized) e)
        | inr e ↦ elim (Bool-cases (is_allowed guessed)) [
          | inl g ↦
              let done : ok guessed ≡ ok t = rw (normalize_upload_content_type, e, g) at h in
              let same : guessed ≡ t = cc (done) in subst (λ (x : Text). is_allowed x ≡ true) same g
          | inr g ↦ let refused = rw (normalize_upload_content_type, e, g) at h in cc (refused)
        ]
      ]

  -- The key, the content type and the answer of the library for a payload.
  abbrev pub IsPrepared : UploadSettings → Text → HiveUser → Text → Text → UploadPayload → Type 0
  IsPrepared settings token u filename prefix payload =
      let key = object_key_of s3 lower u.id (strip filename) token (normalized_prefix prefix) in
      (cleaned_type : Text) × (post : PresignedPost) × (s3_upload_configured settings ≡ true)
      × (is_empty (strip filename) ≡ false)
      × (is_allowed cleaned_type ≡ true)
      × (s3.generate_presigned_post key cleaned_type ≡ ok post)
      × (payload.upload_url ≡ post.url)
      × (payload.fields ≡ post.fields)
      × (payload.max_file_size ≡ 5 * 1024 * 1024)
      × (payload.public_url ≡ rstrip_slash settings.public_base_url ++ b'/' ∷ key)

  build-IsPrepared :
      (settings : UploadSettings) (token : Text) (u : HiveUser)
      (filename content_type prefix : Text) (payload : UploadPayload)
      → build_public_image_upload_payload s3 lower settings token u filename content_type prefix
        ≡ ok payload
      → IsPrepared settings token u filename prefix payload
  unfolding build_public_image_upload_payload
  build-IsPrepared settings token u filename content_type prefix payload h =
      let (set, rest) =
        ok_raise_if (not (s3_upload_configured settings)) not_configured _ payload h in
      let (named, rest') = ok_raise_if (is_empty (strip filename)) no_filename _ payload rest in
      let (t, typed, rest'') =
        ok_bind (normalize_upload_content_type s3 lower (strip filename) content_type) _ payload
          rest' in
      let (post, signed, last) =
        ok_bind
          (s3.generate_presigned_post
            (object_key_of s3 lower u.id (strip filename) token (normalized_prefix prefix)) t)
          _ payload rest'' in
      let made : UploadPayload = record {
        upload_url = post.url;
        fields = post.fields;
        public_url =
            rstrip_slash settings.public_base_url
            ++ b'/' ∷ object_key_of s3 lower u.id (strip filename) token (normalized_prefix prefix);
        max_file_size = 5 * 1024 * 1024;
      } in
      let same : made ≡ payload = cc (last) in
      (
        t,
        post,
        unnegated (s3_upload_configured settings) set,
        named,
        normalize-is_allowed (strip filename) content_type t typed,
        signed,
        ap (λ (x : UploadPayload). x.upload_url) (sym same),
        ap (λ (x : UploadPayload). x.fields) (sym same),
        ap (λ (x : UploadPayload). x.max_file_size) (sym same),
        ap (λ (x : UploadPayload). x.public_url) (sym same),
      )

  accepted :
      (base_url key url : Text) (v : HiveUser)
      → is_empty (rstrip_slash base_url) ≡ false
      → url ≡ rstrip_slash base_url ++ b'/' ∷ key
      → strip url ≡ url
      → clean_profile_image base_url v url ≡ ok url
  unfolding clean_profile_image
  accepted base_url key url v based shaped trimmed =
      let base = rstrip_slash base_url in
      let filled : is_empty url ≡ false =
        ap (λ (x : Text). is_empty x) shaped ∙ slash_not_empty base key in
      let under : starts_with_text (base ++ b'/' ∷ []) url ≡ true =
        ap (λ (x : Text). starts_with_text (base ++ b'/' ∷ []) x)
          (shaped ∙ sym (slash_behind base key))
        ∙ starts_with_text-append (base ++ b'/' ∷ []) key in
      elim (Bool-cases (text_eq url (text_or_empty v.profile_image))) [
        | inl e ↦ rw (clean_profile_image, trimmed, filled, e) refl
        | inr e ↦ rw (clean_profile_image, trimmed, filled, e, based, under) refl
      ]

  -- Let the public address of the uploads be more than slashes. A payload is for a file with a name and a
  -- type of image that is allowed, its address and its fields are those that were signed for its key
  -- and that type, it names a size of 5 * 1024 * 1024, and its public address, if without space at its
  -- ends, is one that the form of the profile accepts from every user as it is.
  pub clean_profile_image-build_profile_image_upload_payload :
      (settings : UploadSettings) (token : Text) (u v : HiveUser) (filename content_type : Text)
      (payload : UploadPayload)
      → is_empty (rstrip_slash settings.public_base_url) ≡ false
      → strip payload.public_url ≡ payload.public_url
      → build_profile_image_upload_payload s3 lower settings token u filename content_type
        ≡ ok payload
      → IsPrepared settings token u filename settings.profile_image_prefix payload
        × (clean_profile_image settings.public_base_url v payload.public_url
            ≡ ok payload.public_url)
  unfolding build_profile_image_upload_payload
  clean_profile_image-build_profile_image_upload_payload settings token u v filename content_type
        payload based trimmed h =
      let is_prepared =
        build-IsPrepared settings token u filename content_type settings.profile_image_prefix
          payload h in
      let (t, post, set, named, allowed, signed, url, fields, size, shaped) = is_prepared in
      (
        is_prepared,
        accepted settings.public_base_url
            (object_key_of s3 lower u.id (strip filename) token
              (normalized_prefix settings.profile_image_prefix))
            payload.public_url v based shaped trimmed,
      )
