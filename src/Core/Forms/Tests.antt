-- ===== src/Core/Forms/Tests.antt =====
-- Forms at small inputs: names are compared as they stand, and a name is its own slug.
use Prim.{tt}
use hivewiki_web.Base.{
  ℕ, ◌≡◌, refl, none, some, List, [], ◌∷◌, map, take, ◌==◌, ltb, if◌then◌else◌, length, discard,
  any_of, arith, ok, err,
}
use hivewiki_web.Base.Text.{Text, codes, text_eq, text_eq_refl, is_empty, strip, splitlines}
use hivewiki_web.Core.WikiMarkdown.{pop_blank}
use hivewiki_web.Core.WikiMarkdown.Regex.{match_heading, sub_matches, match_link, match_code}
use hivewiki_web.Core.CommunityContent.{extract_post_render_parts}
use hivewiki_web.Accounts.Notifications.Body.{normalize_words}
use hivewiki_web.Core.Models.{Post, Tag, published, sync_cached_content_fields}
use hivewiki_web.Core.Forms.{
  tag_without_letters, too_many_tags, split_on, clean_items, clean_tag_names,
}
use hivewiki_web.Core.Forms.TagNames.{names_of, first_names, clean_tag_names-eq-first_names}
use hivewiki_web.Core.Forms.Tags.{slug_for, new_tag, create_tag, get_or_create_tag}
use hivewiki_web.Core.Forms.Tags.Slugs.{IsPlacing}
use hivewiki_web.Core.Forms.Tags.Attempts.{alone, get_or_create_tag_total}
use hivewiki_web.Core.Forms.Save.{PostData, Tables, new_post, tags_for, save_content, save}
use hivewiki_web.Core.Forms.Save.Links.{IsSettingLinks, IsSaved, save-IsSaved}

abbrev as_is : Text → Text
as_is t = t

abbrev in_front : Tag → List Tag → List Tag
in_front t ts = t ∷ ts

in_front-IsPlacing : IsPlacing in_front
in_front-IsPlacing p t ts = refl

clean_tag_names-eq-first_names_example : clean_tag_names as_is as_is (codes "a, b ,,a") ≡ (
    let names = names_of (split_on b',' (codes "a, b ,,a")) in
    let picked = map (take 50) (first_names as_is as_is names) in
    if any_of (λ n. is_empty (as_is n)) names
    then err tag_without_letters
    else (if ltb 5 (length picked) then err too_many_tags else ok picked))
clean_tag_names-eq-first_names_example =
    clean_tag_names-eq-first_names as_is as_is (codes "a, b ,,a")

names_run : clean_tag_names as_is as_is (codes "a, b ,,a") ≡ ok (codes "a" ∷ codes "b" ∷ [])
unfolding clean_tag_names split_on clean_items normalize_words strip text_eq
names_run = refl

-- The slug of `a` is in use, under another name.
abbrev other_tag : Tag
other_tag = new_tag 0 1 (codes "A") (codes "a")

get_or_create_tag_total_example :
    (t : Tag) × (after : List Tag) × (get_or_create_tag text_eq in_front as_is alone 5 2
        (codes "a")
        (other_tag ∷ [])
      ≡ ok (t, after))
unfolding text_eq
get_or_create_tag_total_example =
    get_or_create_tag_total text_eq in_front as_is 5 2 (codes "a") (other_tag ∷ []) refl
      (omega arith) (omega arith)

abbrev set_links : ℕ → List ℕ → List (ℕ × ℕ) → List (ℕ × ℕ)
set_links post_id [] links = discard (λ l. l.0 == post_id) links
set_links post_id (i ∷ ids) links = (post_id, i) ∷ set_links post_id ids links

set_links-IsSettingLinks : IsSettingLinks set_links
set_links-IsSettingLinks post_id [] [] other id = ground arith
set_links-IsSettingLinks post_id [] ((p, i) ∷ links) other id =
    ground (arith, set_links-IsSettingLinks post_id [] links other id)
set_links-IsSettingLinks post_id (i ∷ ids) links other id =
    ground (arith, set_links-IsSettingLinks post_id ids links other id)

abbrev posted : PostData
posted = record {
  body_markdown = codes "x";
  tag_names = codes "a" ∷ [];
  wiki_documents = 4 ∷ [];
  status = published;
}

abbrev no_tables : Tables
no_tables = record { posts = []; tags = []; post_tags = []; post_wiki_documents = [] }

abbrev tables : Tables
tables = record {
  posts = new_post 5 8 7 (codes "x") published ∷ [];
  tags = new_tag 5 9 (codes "a") (codes "a") ∷ [];
  post_tags = (8, 9) ∷ [];
  post_wiki_documents = (8, 4) ∷ [];
}

abbrev saved_post : Post
saved_post = new_post 5 8 7 (codes "x") published

save-IsSaved_example :
    IsSaved text_eq text_eq_refl as_is in_front in_front-IsPlacing alone
      (λ k ts h. h)
      (λ k p ts h. h)
      some
      set_links
      set_links-IsSettingLinks
      5
      8
      7
      posted
      none
      no_tables
      saved_post
      tables
unfolding save save_content tags_for get_or_create_tag create_tag slug_for
    sync_cached_content_fields extract_post_render_parts pop_blank splitlines strip match_heading
    sub_matches match_link match_code
save-IsSaved_example =
    save-IsSaved text_eq text_eq_refl as_is in_front in_front-IsPlacing alone (λ k ts h. h)
      (λ k p ts h. h) some set_links set_links-IsSettingLinks 5 8 7 posted none no_tables tables
      saved_post tt refl
