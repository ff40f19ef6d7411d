-- ===== src/Accounts/Forms/Tests.antt =====
-- The forms at small tables: every field accepts what is posted, and a hash is the password behind a
-- letter.
use Prim.{tt}
use hivewiki_web.Base.{ℕ, ◌≡◌, ◌⊎◌, refl, Bool, true, Option, none, some, List, [], ◌∷◌, ◌==◌}
use hivewiki_web.Base.Text.{Text, codes, text_eq, text_eq_refl}
use hivewiki_web.Django.Cache.{Cache, table_cache}
use hivewiki_web.Accounts.Models.{HiveUser, user, active}
use hivewiki_web.Accounts.Directory.{Directory}
use hivewiki_web.Accounts.Login.{Session, get_active_user_by_email}
use hivewiki_web.Accounts.Middleware.{granted}
use hivewiki_web.Accounts.Forms.{Field, FormError}
use hivewiki_web.Accounts.Forms.Views.{
  form_errors, signed_up, signup_view, profile_edit_view, password_change_view, SignUpWorld,
}
use hivewiki_web.Accounts.Forms.SignedUp.{IsNewUser, signup_view_lem}
use hivewiki_web.Accounts.Forms.Passwords.{IsPosted, password_change_view_lem}
use hivewiki_web.Accounts.Forms.Profiles.{IsEdited, profile_edit_view_lem}

abbrev accepts : Field → Text → Option Text
accepts field t = some t

abbrev same_char : ℕ → ℕ
same_char c = c

abbrev as_is : Text → Text
as_is t = t

abbrev strong : Text → Text → Text → Bool
strong p name address = true

abbrev hash_of : Text → Text
hash_of p = b'#' ∷ p

abbrev matches : Text → Text → Bool
matches p hash = text_eq (hash_of p) hash

fits : (p : Text) → matches p (hash_of p) ≡ true
fits p = text_eq_refl (hash_of p)

abbrev index : Cache ℕ (List Text) ◌==◌
index = table_cache ◌==◌

abbrev member : HiveUser
member = record {
  id = 7;
  username = codes "k";
  email = codes "k@a";
  role = user;
  password_hash = some (codes "#p");
  status = active;
  profile_image = none;
  created_at = 0;
  updated_at = 0;
}

abbrev db : Directory
db = record { users = member ∷ []; oauth_accounts = [] }

abbrev visitor : Session
visitor = record { session_key = none; user_id = none; timezone = none }

abbrev no_sessions : index.Store
no_sessions k = none

abbrev world : SignUpWorld accepts same_char as_is strong hash_of index 60
world = (no_sessions, visitor, db)

signup_view_lem_example :
    let r =
      signup_view accepts same_char as_is strong hash_of index 60 5
        (codes "n")
        8
        (codes "l")
        (codes "l@b")
        (codes "q")
        (codes "q")
        none
        world in
    ((es : List FormError) × (r ≡ (form_errors es, world)))
    ⊎ ((u : HiveUser) × (r.0 ≡ signed_up u)
        × IsNewUser accepts same_char as_is strong hash_of matches fits
            (λ p. refl)
            index
            60
            (codes "l")
            (codes "l@b")
            (codes "q")
            u
            world
            r.1)
signup_view_lem_example =
    signup_view_lem accepts same_char as_is strong hash_of matches fits (λ p. refl) index 60 5
      (codes "n") 8 (codes "l") (codes "l@b") (codes "q") (codes "q") world

password_change_view_lem_example :
    IsPosted accepts same_char as_is strong hash_of matches fits
      (λ p. refl)
      text_eq
      5
      (codes "p")
      (codes "q")
      member
      db
      (password_change_view accepts same_char as_is strong hash_of matches 5
        (codes "p")
        (codes "q")
        (codes "q")
        (granted member)
        db)
unfolding get_active_user_by_email text_eq
password_change_view_lem_example =
    password_change_view_lem accepts same_char as_is strong hash_of matches fits (λ p. refl) text_eq
      5 (codes "p") (codes "q") (codes "q") member db refl

profile_edit_view_lem_example :
    IsEdited accepts same_char as_is strong hash_of
      (codes "b/")
      (codes "K")
      (codes "k@a")
      (codes "b/i")
      member
      db
      (profile_edit_view accepts same_char as_is strong hash_of
        (codes "b/")
        (codes "K")
        (codes "k@a")
        (codes "b/i")
        (granted member)
        db)
profile_edit_view_lem_example =
    profile_edit_view_lem accepts same_char as_is strong hash_of (codes "b/") (codes "K")
      (codes "k@a") (codes "b/i") member db (refl, tt)
