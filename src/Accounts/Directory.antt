-- ===== src/Accounts/Directory.antt =====
-- The tables of users and of OAuth accounts, and the queries and updates by primary key that the
-- services and the views make on them.
use hivewiki_web.Base.{
  ℕ, ◌≡◌, Bool, not, ◌&&◌, ◌||◌, Option, none, some, List, [], ◌∷◌, arith, ◌==◌, if◌then◌else◌,
  first_of_rows, update_of, any_of,
}
use hivewiki_web.Base.Text.{Text, text_eq}
use hivewiki_web.Accounts.Models.{HiveUser, OAuthAccount}

pub record Directory : Type 0 where
  pub users : List HiveUser
  pub oauth_accounts : List OAuthAccount

-- `HiveUser.objects.filter(id=id).first()`
abbrev pub user_by_id : ℕ → List HiveUser → Option HiveUser
user_by_id id = first_of_rows (λ u. u.id == id)

-- `user.save(update_fields=…)`: the columns that `f` writes, in the row of that id.
abbrev pub save_user : ℕ → (HiveUser → HiveUser) → List HiveUser → List HiveUser
save_user id f = update_of (λ u. u.id == id) f

-- Another row has the username or the email: the unique constraints of the table.
abbrev pub is_taken : ℕ → Text → Text → List HiveUser → Bool
is_taken id username email =
    any_of (λ u. not (u.id == id) && (text_eq u.username username || text_eq u.email email))

abbrev pub map_option : {A B : Type 0} → (A → B) → Option A → Option B
map_option f none = none
map_option f (some a) = some (f a)

pub user_by_id-save_user :
    (id j : ℕ) (f : HiveUser → HiveUser) (us : List HiveUser)
    → ((u : HiveUser) → (f u).id ≡ u.id)
    → user_by_id j (save_user id f us)
      ≡ (if id == j then map_option f (user_by_id j us) else user_by_id j us)
user_by_id-save_user id j f [] keeps = ground arith
user_by_id-save_user id j f (u ∷ us) keeps =
    ground (arith, keeps u, user_by_id-save_user id j f us keeps)

-- A row that a query returns has the id that was asked for.
pub id-user_by_id :
    (id : ℕ) (us : List HiveUser) (u : HiveUser) → user_by_id id us ≡ some u → u.id ≡ id
id-user_by_id id [] u h = cc
id-user_by_id id (v ∷ us) u h = ground (arith, id-user_by_id id us u)
